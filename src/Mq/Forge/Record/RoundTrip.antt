-- ===== src/Mq/Forge/Record/RoundTrip.antt =====
-- A record decoded is the one encoded, and its encoding is as long as it says.
use mathlib.Core.List.{append_assoc, append-nil}
use go_common.Common.{
  ℕ, ◌+◌, ◌-◌, ◌≤◌, ◌<◌, ◌^◌, ◌≡◌, refl, sym, ap, ◌∙◌, false, List, [], ◌∷◌, ◌++◌, ◌==◌, length,
  arith, length-append, take, drop,
}
use go_common.Common.Int.{pos, ltb_ℤ, InI64}
use go_common.Mq.Forge.{got}
use go_common.Mq.Forge.Varint.{put_varint, append_varint, append_varint_bytes}
use go_common.Mq.Forge.Varint.Groups.{
  varint-put_varint, put_varint-pos, put_varint-bound, varint_size-put_varint,
}
use go_common.Mq.Forge.Varint.Fields.{
  field_of, append_varint_bytes-field_of, varint_bytes_size-field_of, drop_behind, drop-append,
  take-append, add_sub, sum-i64, read_varint-put_varint, read_varint_bytes-field_of,
}
use go_common.Mq.Forge.Record.{
  Header, Record, max_headers_per_record, body_size, headers_size, append_headers, append_record,
  read_headers, read_counted, decode_body, decode_record, decode_sized, decode_within,
}

abbrev headers_bytes : List Header → List ℕ
headers_bytes [] = []
headers_bytes (h ∷ hs) = field_of h.key ++ (field_of h.value ++ headers_bytes hs)

-- What follows the length of a record.
abbrev pub body : Record → List ℕ
body r =
    put_varint r.timestamp_delta
    ++ (put_varint r.offset_delta
        ++ (field_of r.key
            ++ (field_of r.value
                ++ (put_varint (pos (length r.headers)) ++ headers_bytes r.headers))))

append_headers-headers_bytes :
    (dst : List ℕ) (hs : List Header) → append_headers dst hs ≡ dst ++ headers_bytes hs
unfolding append_headers
append_headers-headers_bytes dst [] = sym (append-nil dst)
append_headers-headers_bytes dst (h ∷ hs) =
    append_headers-headers_bytes (append_varint_bytes (append_varint_bytes dst h.key) h.value) hs
    ∙ ap (λ d. d ++ headers_bytes hs)
        (append_varint_bytes-field_of (append_varint_bytes dst h.key) h.value
          ∙ ap (λ d. d ++ field_of h.value) (append_varint_bytes-field_of dst h.key))
    ∙ simp append_assoc

pub append_record-body :
    (dst : List ℕ) (r : Record)
    → append_record dst r ≡ dst ++ (put_varint (pos (body_size r)) ++ body r)
unfolding append_record append_varint
append_record-body dst r =
    append_headers-headers_bytes _ r.headers ∙ simp (append_varint_bytes-field_of, append_assoc)

headers_size-headers_bytes : (hs : List Header) → headers_size hs ≡ length (headers_bytes hs)
unfolding headers_size
headers_size-headers_bytes [] = refl
headers_size-headers_bytes (h ∷ hs) =
    simp (varint_bytes_size-field_of, length-append, headers_size-headers_bytes hs) (omega arith)

pub body_size-body : (r : Record) → body_size r ≡ length (body r)
unfolding body_size
body_size-body r =
    simp
      (
        varint_bytes_size-field_of, varint_size-put_varint, length-append,
        headers_size-headers_bytes,
      )
      (omega arith)

read_headers-headers_bytes :
    (buf : List ℕ) (off : ℕ) (hs : List Header)
    → drop off buf ≡ headers_bytes hs
    → length buf < 2 ^ 62
    → read_headers (length hs) buf off ≡ got hs
unfolding read_headers
read_headers-headers_bytes buf off [] at lt = refl
read_headers-headers_bytes buf off (h ∷ hs) at lt =
    let off₁ = off + length (field_of h.key) in
    let at₁ = drop_behind buf off (field_of h.key) (field_of h.value ++ headers_bytes hs) at in
    let off₂ = off₁ + length (field_of h.value) in
    let at₂ = drop_behind buf off₁ (field_of h.value) (headers_bytes hs) at₁ in
    rw (read_varint_bytes-field_of buf off h.key (field_of h.value ++ headers_bytes hs) at lt) (
      rw (read_varint_bytes-field_of buf off₁ h.value (headers_bytes hs) at₁ lt)
        (rw (read_headers-headers_bytes buf off₂ hs at₂ lt) refl))

-- A record whose numbers are `int64`s and that has no more headers than a decoder takes.
pub record RecordFits (r : Record) : Type 0 where
  pub timestamp_delta : InI64 r.timestamp_delta
  pub offset_delta : InI64 r.offset_delta
  pub few_headers : length r.headers ≤ max_headers_per_record
  pub short : length (body r) < 2 ^ 61

read_counted-headers_bytes :
    (buf : List ℕ) (off : ℕ) (hs : List Header)
    → length hs ≤ max_headers_per_record
    → drop off buf ≡ headers_bytes hs
    → length buf < 2 ^ 62
    → read_counted (pos (length hs)) buf off ≡ got hs
unfolding read_counted
read_counted-headers_bytes buf off hs few at lt =
    let t : ltb_ℤ (pos max_headers_per_record) (pos (length hs)) ≡ false = ground arith in
    let u : ltb_ℤ (pos (length hs)) (pos 0) ≡ false = ground arith in
    rw (u, t) (read_headers-headers_bytes buf off hs at lt)

decode_body-body : (r : Record) (n : ℕ) → RecordFits r → decode_body (body r) n ≡ got (r, n)
unfolding decode_body
decode_body-body r n fits =
    let buf = body r in
    let lt : length buf < 2 ^ 62 = omega (arith, fits.short) in
    let count = put_varint (pos (length r.headers)) in
    let rest₅ = headers_bytes r.headers in
    let rest₄ = count ++ rest₅ in
    let rest₃ = field_of r.value ++ rest₄ in
    let rest₂ = field_of r.key ++ rest₃ in
    let rest₁ = put_varint r.offset_delta ++ rest₂ in
    let off₁ = 0 + length (put_varint r.timestamp_delta) in
    let at₁ = drop_behind buf 0 (put_varint r.timestamp_delta) rest₁ refl in
    let off₂ = off₁ + length (put_varint r.offset_delta) in
    let at₂ = drop_behind buf off₁ (put_varint r.offset_delta) rest₂ at₁ in
    let off₃ = off₂ + length (field_of r.key) in
    let at₃ = drop_behind buf off₂ (field_of r.key) rest₃ at₂ in
    let off₄ = off₃ + length (field_of r.value) in
    let at₄ = drop_behind buf off₃ (field_of r.value) rest₄ at₃ in
    let off₅ = off₄ + length count in
    let at₅ = drop_behind buf off₄ count rest₅ at₄ in
    let small : InI64 (pos (length r.headers)) = (omega (arith, fits.few_headers), omega arith) in
    rw (read_varint-put_varint buf 0 r.timestamp_delta rest₁ refl fits.timestamp_delta) (
      rw (read_varint-put_varint buf off₁ r.offset_delta rest₂ at₁ fits.offset_delta) (
        rw (read_varint_bytes-field_of buf off₂ r.key rest₃ at₂ lt) (
          rw (read_varint_bytes-field_of buf off₃ r.value rest₄ at₃ lt) (
            rw (read_varint-put_varint buf off₄ (pos (length r.headers)) rest₅ at₄ small)
              (rw (read_counted-headers_bytes buf off₅ r.headers fits.few_headers at₅ lt) refl)))))

decode_within-body :
    (r : Record) (head rest : List ℕ)
    → RecordFits r
    → decode_within (head ++ (body r ++ rest)) (length head) (pos (length head + length (body r)))
      ≡ got (r, length head + length (body r))
unfolding decode_within
decode_within-body r head rest fits =
    let n = length head in
    let m = length (body r) in
    let bs = head ++ (body r ++ rest) in
    let t : ltb_ℤ (pos (length bs)) (pos (n + m)) ≡ false =
      ground (arith, length-append head (body r ++ rest), length-append (body r) rest) in
    let u : ltb_ℤ (pos (n + m)) (pos n) ≡ false = ground arith in
    let s : take (n + m - n) (drop n bs) ≡ body r =
      ap (λ k. take k (drop n bs)) (add_sub n m)
      ∙ ap (take m) (drop-append head (body r ++ rest))
      ∙ take-append (body r) rest in
    rw (t, u) (ap (λ b. decode_body b (n + m)) s ∙ decode_body-body r (n + m) fits)

-- A length that is not negative decides where the record ends.
pub decode_record-put_varint :
    (n : ℕ) (tail : List ℕ)
    → n < 2 ^ 61
    → let head = put_varint (pos n) in
      decode_record (head ++ tail)
      ≡ decode_within (head ++ tail) (length head) (pos (length head + n))
unfolding decode_record decode_sized
decode_record-put_varint n tail lt =
    let head = put_varint (pos n) in
    let t : (length (head ++ tail) == 0) ≡ false =
      ground (arith, length-append head tail, put_varint-pos (pos n)) in
    let v = varint-put_varint (pos n) tail (omega arith, omega arith) in
    let u : ltb_ℤ (pos n) (pos 0) ≡ false = ground arith in
    let s = sum-i64 (length head) n (omega (arith, put_varint-bound (pos n))) in
    rw (t, v) (rw u (ap (decode_within (head ++ tail) (length head)) s))

-- A record that fits, encoded and followed by any bytes, is decoded to itself, and the decoder
-- consumes exactly the bytes of its encoding.
pub decode_record-append_record :
    (r : Record) (rest : List ℕ)
    → RecordFits r
    → decode_record (append_record [] r ++ rest) ≡ got (r, length (append_record [] r))
decode_record-append_record r rest fits =
    let head = put_varint (pos (body_size r)) in
    let size = body_size-body r in
    let all : append_record [] r ++ rest ≡ head ++ (body r ++ rest) =
      ap (λ b. b ++ rest) (append_record-body [] r) ∙ append_assoc head (body r) rest in
    let long : length head + length (body r) ≡ length (append_record [] r) =
      sym (length-append head (body r)) ∙ ap length (sym (append_record-body [] r)) in
    ap decode_record all
    ∙ decode_record-put_varint (body_size r) (body r ++ rest) (omega (arith, size, fits.short))
    ∙ ap (λ n. decode_within (head ++ (body r ++ rest)) (length head) (pos (length head + n))) size
    ∙ decode_within-body r head rest fits
    ∙ ap (λ n. got (r, n)) long
