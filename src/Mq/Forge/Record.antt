-- ===== src/Mq/Forge/Record.antt =====
-- pkg/mq/forge/record.go and record_codec.go: one record. Sizes are `int`s below 2^62; a header list
-- that is nil and one that is empty are the same here.
pub mod RoundTrip
pub mod Corrupt
mod Tests
use go_common.Common.{
  ℕ, zero, suc, ◌+◌, ◌-◌, Bool, Option, none, some, List, [], ◌∷◌, ◌++◌, ltb, leb, ◌==◌, ◌||◌,
  if◌then◌else◌, length, take, drop,
}
use go_common.Common.Int.{ℤ, pos, negsuc, pos_part, neg_part, ◌+ℤ◌, ltb_ℤ, i64}
use go_common.Mq.Forge.{Decoded, got, corrupt, panics, ◌>>=◌}
use go_common.Mq.Forge.Varint.{
  append_varint, append_varint_bytes, read_varint, read_varint_bytes, varint_size,
  varint_bytes_size, varint,
}

pub record Header : Type 0 where
  pub key : Option (List ℕ)
  pub value : Option (List ℕ)

pub record Record : Type 0 where
  pub timestamp_delta : ℤ
  pub offset_delta : ℤ
  pub key : Option (List ℕ)
  pub value : Option (List ℕ)
  pub headers : List Header

abbrev pub max_headers_per_record : ℕ
max_headers_per_record = 10000

-- The loop that adds the headers' sizes.
unfoldable pub headers_size : List Header → ℕ
headers_size [] = 0
headers_size (h ∷ hs) = varint_bytes_size h.key + varint_bytes_size h.value + headers_size hs

unfoldable pub body_size : Record → ℕ
body_size r =
    varint_size r.timestamp_delta
    + varint_size r.offset_delta
    + varint_bytes_size r.key
    + varint_bytes_size r.value
    + varint_size (pos (length r.headers))
    + headers_size r.headers

unfoldable pub append_headers : List ℕ → List Header → List ℕ
append_headers dst [] = dst
append_headers dst (h ∷ hs) =
    append_headers (append_varint_bytes (append_varint_bytes dst h.key) h.value) hs

unfoldable pub append_record : List ℕ → Record → List ℕ
append_record dst r =
    let dst₁ = append_varint dst (pos (body_size r)) in
    let dst₂ = append_varint dst₁ r.timestamp_delta in
    let dst₃ = append_varint dst₂ r.offset_delta in
    let dst₄ = append_varint_bytes dst₃ r.key in
    let dst₅ = append_varint_bytes dst₄ r.value in
    let dst₆ = append_varint dst₅ (pos (length r.headers)) in append_headers dst₆ r.headers

-- The loop over the `k` headers of a record.
unfoldable pub read_headers : ℕ → List ℕ → ℕ → Decoded (List Header)
read_headers zero buf off = got []
read_headers (suc k) buf off = do
  (key, off₁) ← read_varint_bytes buf off
  (value, off₂) ← read_varint_bytes buf off₁
  hs ← read_headers k buf off₂
  got (record { key = key; value = value } ∷ hs)

-- The headers behind their number, which is refused if it is negative or above the maximum.
unfoldable pub read_counted : ℤ → List ℕ → ℕ → Decoded (List Header)
read_counted header_count buf off =
    if ltb_ℤ header_count (pos 0) || ltb_ℤ (pos max_headers_per_record) header_count
    then corrupt
    else read_headers (pos_part header_count) buf off

unfoldable pub decode_body : List ℕ → ℕ → Decoded (Record × ℕ)
decode_body buf total_consumed = do
  (timestamp_delta, off₁) ← read_varint buf 0
  (offset_delta, off₂) ← read_varint buf off₁
  (key, off₃) ← read_varint_bytes buf off₂
  (value, off₄) ← read_varint_bytes buf off₃
  (header_count, off₅) ← read_varint buf off₄
  headers ← read_counted header_count buf off₅
  got (
    record {
      timestamp_delta = timestamp_delta;
      offset_delta = offset_delta;
      key = key;
      value = value;
      headers = headers;
    },
    total_consumed,
  )

-- `data[n : n + int(recLen)]`, where the end is an `int` that may have wrapped.
unfoldable pub decode_within : List ℕ → ℕ → ℤ → Decoded (Record × ℕ)
decode_within bs n end =
    if ltb_ℤ (pos (length bs)) end
    then corrupt
    else if ltb_ℤ end (pos n)
    then panics
    else decode_body (take (pos_part end - n) (drop n bs)) (pos_part end)

unfoldable pub decode_sized : List ℕ → Option (ℤ × ℕ) → Decoded (Record × ℕ)
decode_sized bs none = corrupt
decode_sized bs (some (rec_len, n)) =
    if ltb_ℤ rec_len (pos 0) then corrupt else decode_within bs n (i64 (pos n +ℤ rec_len))

unfoldable pub decode_record : List ℕ → Decoded (Record × ℕ)
decode_record bs = if length bs == 0 then corrupt else decode_sized bs (varint bs)
