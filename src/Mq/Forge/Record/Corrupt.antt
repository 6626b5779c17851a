-- ===== src/Mq/Forge/Record/Corrupt.antt =====
-- What the decoder of a record does with bytes that no encoder wrote.
use go_common.Common.{
  ℕ, ◌+◌, ◌-◌, ◌<◌, ◌^◌, ◌≡◌, refl, ap, ◌∙◌, true, false, none, some, List, [], ◌++◌, ◌==◌, length,
  arith, length-append, take, length-take, Bool-cases, inl, inr, dec_lt,
}
use go_common.Common.Int.{pos, ◌+ℤ◌, ltb_ℤ, i64}
use go_common.Mq.Forge.{corrupt, panics}
use go_common.Mq.Forge.Varint.{put_varint, varint}
use go_common.Mq.Forge.Varint.Groups.{
  varint-put_varint, put_varint-pos, put_varint-bound, varint-take,
}
use go_common.Mq.Forge.Record.{
  Record, append_record, body_size, decode_record, decode_sized, decode_within,
}
use go_common.Mq.Forge.Record.RoundTrip.{
  RecordFits, body, append_record-body, body_size-body, decode_record-put_varint,
}
use go_common.Mq.Forge.Varint.Fields.{take-append_short, take-append_long}

wrapped :
    (bs : List ℕ) (n : ℕ)
    → 0 < n
    → n < 2 ^ 62
    → length bs < 2 ^ 62
    → decode_sized bs (some (pos (2 ^ 63 - 1), n)) ≡ panics
unfolding decode_sized decode_within ◌+ℤ◌ i64
wrapped bs n p h len = ground arith

-- Bytes that begin with the varint of the largest `int64`, with fewer than 2^61 behind it, make the
-- decoder panic instead of answering that the record is corrupt.
pub decode_record-panics :
    (rest : List ℕ)
    → length rest < 2 ^ 61
    → decode_record (put_varint (pos (2 ^ 63 - 1)) ++ rest) ≡ panics
unfolding decode_record
decode_record-panics rest lt =
    let head = put_varint (pos (2 ^ 63 - 1)) in
    let len = length-append head rest in
    let t : (length (head ++ rest) == 0) ≡ false =
      ground (arith, len, put_varint-pos (pos (2 ^ 63 - 1))) in
    let bound = put_varint-bound (pos (2 ^ 63 - 1)) in
    let v = varint-put_varint (pos (2 ^ 63 - 1)) rest (omega arith, omega arith) in
    rw (t, v)
      (wrapped (head ++ rest) (length head) (put_varint-pos (pos (2 ^ 63 - 1)))
        (omega (arith, bound)) (omega (arith, len, bound)))

cut_in_length : (bs : List ℕ) → varint bs ≡ none → decode_record bs ≡ corrupt
unfolding decode_record decode_sized
cut_in_length bs h = elim (Bool-cases (length bs == 0)) [
  | inl t ↦ rw t refl
  | inr t ↦ rw (t, h) refl
]

cut_in_body :
    (n : ℕ) (tail : List ℕ)
    → n < 2 ^ 61
    → length tail < n
    → decode_record (put_varint (pos n) ++ tail) ≡ corrupt
unfolding decode_within
cut_in_body n tail lt short =
    let head = put_varint (pos n) in
    let t : ltb_ℤ (pos (length (head ++ tail))) (pos (length head + n)) ≡ true =
      ground (arith, length-append head tail) in
    decode_record-put_varint n tail lt ∙ rw t refl

cut :
    (n m : ℕ) (tail : List ℕ)
    → n < 2 ^ 61
    → n ≡ length tail
    → m < length (put_varint (pos n)) + n
    → decode_record (take m (put_varint (pos n) ++ tail)) ≡ corrupt
cut n m tail small len lt =
    let head = put_varint (pos n) in
    elim (dec_lt m (length head)) [
      | yes h ↦
          cut_in_length _ (ap varint (take-append_short m head tail h) ∙ varint-take (pos n) m h)
      | no h ↦
          let k = m - length head in
          let split : m ≡ length head + k = omega arith in
          let short : length (take k tail) < n = omega (arith, length-take k tail) in
          ap (λ i. decode_record (take i (head ++ tail))) split
          ∙ ap decode_record (take-append_long k head tail)
          ∙ cut_in_body n (take k tail) small short
    ]

-- A record that fits and whose encoding is cut anywhere before its end is refused as corrupt.
pub decode_record-take :
    (r : Record) (m : ℕ)
    → RecordFits r
    → m < length (append_record [] r)
    → decode_record (take m (append_record [] r)) ≡ corrupt
decode_record-take r m fits lt =
    let eq = append_record-body [] r in
    let head = put_varint (pos (body_size r)) in
    let size = body_size-body r in
    let long : length (append_record [] r) ≡ length head + length (body r) =
      ap length eq ∙ length-append head (body r) in
    ap (λ b. decode_record (take m b)) eq
    ∙ cut (body_size r) m (body r) (omega (arith, size, fits.short)) size
        (omega (arith, long, size, lt))
