-- ===== src/Mq/Forge/Varint.antt =====
-- pkg/mq/forge/record_codec.go, the varint helpers, over Go's encoding/binary: PutVarint writes the
-- zigzag code of an `int64` in groups of seven bits, and Varint reads it. A byte is a number below
-- 256. A nil slice is `none`. A list of bytes is shorter than 2^63.
pub mod Groups
pub mod Fields
use go_common.Common.{
  ℕ, zero, suc, ◌+◌, ◌-◌, ◌*◌, ◌/◌, ◌%◌, ◌^◌, Bool, Option, none, some, List, [], ◌∷◌, ◌++◌, ltb,
  leb, ◌==◌, ◌&&◌, if◌then◌else◌, length, take, drop, map,
}
use go_common.Common.Int.{ℤ, pos, negsuc, pos_part, neg_part, ◌+ℤ◌, ltb_ℤ, bits64, i64}
use go_common.Mq.Forge.{Decoded, got, corrupt, panics, ◌>>=◌}

abbrev pub max_varint_len : ℕ
max_varint_len = 10

-- The zigzag code: `uint64(v) << 1`, with all bits turned if `v` is negative.
unfoldable pub zigzag : ℤ → ℕ
zigzag v = let ux = bits64 v * 2 % 2 ^ 64 in if ltb_ℤ v (pos 0) then 2 ^ 64 - 1 - ux else ux

-- Back: `int64(ux >> 1)`, with all bits turned if the last bit of `ux` is set.
unfoldable pub unzigzag : ℕ → ℤ
unzigzag ux = if ux % 2 == 0 then pos (ux / 2) else negsuc (ux / 2)

-- `PutUvarint` within `k` bytes: `byte(x) | 0x80` while seven bits are not enough.
unfoldable pub put_uvarint : ℕ → ℕ → List ℕ
put_uvarint zero x = []
put_uvarint (suc k) x =
    let rest = put_uvarint k (x / 128) in if ltb x 128 then x ∷ [] else (x % 128 + 128) ∷ rest

-- Seven bits more, and a byte more.
abbrev pub behind_byte : ℕ → Option (ℕ × ℕ) → Option (ℕ × ℕ)
behind_byte b none = none
behind_byte b (some (v, n)) = some (b % 128 + 128 * v, suc n)

-- `Uvarint` within `k` bytes: the value and the number of bytes; `none` where it answers a number of
-- bytes that is not positive, for a value that is cut off or does not fit in 64 bits.
unfoldable pub uvarint : ℕ → List ℕ → Option (ℕ × ℕ)
uvarint zero bs = none
uvarint (suc k) [] = none
uvarint (suc k) (b ∷ bs) =
    let more = behind_byte b (uvarint k bs) in
    if ltb b 128 then (if (k == 0) && ltb 1 b then none else some (b, 1)) else more

abbrev pub signed : Option (ℕ × ℕ) → Option (ℤ × ℕ)
signed none = none
signed (some (ux, n)) = some (unzigzag ux, n)

-- What `PutVarint` writes, and what `Varint` reads.
unfoldable pub put_varint : ℤ → List ℕ
put_varint v = put_uvarint max_varint_len (zigzag v)

unfoldable pub varint : List ℕ → Option (ℤ × ℕ)
varint bs = signed (uvarint max_varint_len bs)

unfoldable pub append_varint : List ℕ → ℤ → List ℕ
append_varint dst v = dst ++ put_varint v

unfoldable pub append_varint_bytes : List ℕ → Option (List ℕ) → List ℕ
append_varint_bytes dst none = append_varint dst (negsuc 0)
append_varint_bytes dst (some b) = append_varint dst (pos (length b)) ++ b

-- The value and the offset behind it.
unfoldable pub read_varint : List ℕ → ℕ → Decoded (ℤ × ℕ)
read_varint bs off =
    if leb (length bs) off
    then corrupt
    else elim (varint (drop off bs)) [ none ↦ corrupt | some (v, n) ↦ got (v, off + n) ]

-- `bs[new_off:end]`, where `end` is an `int` that may have wrapped.
unfoldable pub read_slice : List ℕ → ℕ → ℤ → Decoded (Option (List ℕ) × ℕ)
read_slice bs new_off end =
    if ltb_ℤ (pos (length bs)) end
    then corrupt
    else if ltb_ℤ end (pos new_off)
    then panics
    else got (some (take (pos_part end - new_off) (drop new_off bs)), pos_part end)

unfoldable pub read_varint_bytes : List ℕ → ℕ → Decoded (Option (List ℕ) × ℕ)
read_varint_bytes bs off = do
  (len, new_off) ← read_varint bs off
  if ltb_ℤ len (pos 0)
      then got (none, new_off)
      else read_slice bs new_off (i64 (pos new_off +ℤ len))

-- The loop of `varIntSize`, for `k` groups at most.
unfoldable pub size_loop : ℕ → ℕ → ℕ → ℕ
size_loop zero ux size = size
size_loop (suc k) ux size =
    let rest = size_loop k (ux / 128) (size + 1) in if leb 128 ux then rest else size

unfoldable pub varint_size : ℤ → ℕ
varint_size v = size_loop max_varint_len (zigzag v) 1

unfoldable pub varint_bytes_size : Option (List ℕ) → ℕ
varint_bytes_size none = varint_size (negsuc 0)
varint_bytes_size (some b) = varint_size (pos (length b)) + length b
