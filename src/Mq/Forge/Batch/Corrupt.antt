-- ===== src/Mq/Forge/Batch/Corrupt.antt =====
-- What the decoder of a batch does with bytes that no encoder wrote.
use go_common.Common.{
  ℕ, zero, suc, ◌+◌, ◌-◌, ◌≤◌, ◌<◌, ◌≡◌, refl, ap, true, List, [], ◌∷◌, ltb, length, arith,
  length-take, take, drop, inl, inr, Bool-cases,
}
use go_common.Mq.Forge.Batch.{
  Codec, ok, err, BatchError, RecordBatch, get_be, be_from, encode_batch, decode_payload,
  decode_checked, decode_batch,
}
use go_common.Mq.Forge.Batch.Payload.{CodecLaws, BatchFits}
use go_common.Mq.Forge.Batch.RoundTrip.{encode_batch-length}

-- Whatever is decoded to a batch has a whole header, is as long as its length field says, and has the
-- checksum that it stores of all bytes behind the checksum; it may be followed by other bytes.
pub decode_batch-crc :
    (c : Codec) (bs : List ℕ) (b : RecordBatch)
    → decode_batch c bs ≡ ok b
    → (35 ≤ length bs)
      × (35 ≤ 12 + get_be 4 8 bs)
      × (12 + get_be 4 8 bs ≤ length bs)
      × (c.crc (take (12 + get_be 4 8 bs - 19) (drop 19 bs)) ≡ get_be 4 15 bs)
unfolding decode_batch decode_checked decode_payload
decode_batch-crc c bs b h = ground arith

take-drop-take :
    (n off m : ℕ) (bs : List ℕ) → off + n ≤ m → take n (drop off (take m bs)) ≡ take n (drop off bs)
take-drop-take zero off m bs h = refl
take-drop-take (suc n) zero zero bs h = absurd (omega arith)
take-drop-take (suc n) zero (suc m) [] h = refl
take-drop-take (suc n) zero (suc m) (b ∷ bs) h =
    ap (◌∷◌ b) (take-drop-take n zero m bs (omega arith))
take-drop-take (suc n) (suc off) zero bs h = absurd (omega arith)
take-drop-take (suc n) (suc off) (suc m) [] h = refl
take-drop-take (suc n) (suc off) (suc m) (b ∷ bs) h = take-drop-take (suc n) off m bs (omega arith)

pub get_be-take :
    (n off m : ℕ) (bs : List ℕ) → off + n ≤ m → get_be n off (take m bs) ≡ get_be n off bs
unfolding get_be
get_be-take n off m bs h = ap (be_from 0) (take-drop-take n off m bs h)

cut_frame :
    (c : Codec) (bs : List ℕ) (m : ℕ)
    → length bs ≡ 12 + get_be 4 8 bs
    → m < length bs
    → decode_batch c (take m bs) ≡ err BatchError.corrupt_batch
unfolding decode_batch decode_checked
cut_frame c bs m len lt = elim (Bool-cases (ltb (length (take m bs)) 35)) [
  | inl t ↦ rw t refl
  | inr t ↦
      let m_long : 35 ≤ m = ground (arith, length-take m bs) in
      let same : get_be 4 8 (take m bs) ≡ get_be 4 8 bs = get_be-take 4 8 m bs (omega arith) in
      let u : ltb (length (take m bs)) (12 + get_be 4 8 (take m bs)) ≡ true =
        ground (arith, length-take m bs, same) in
      rw (t, u) refl
]

-- The encoding of a batch that fits, cut anywhere before its end, is refused as a corrupt batch.
pub decode_batch-take :
    (c : Codec) (b : RecordBatch) (bs : List ℕ) (m : ℕ)
    → CodecLaws c
    → BatchFits b
    → encode_batch c b ≡ ok bs
    → m < length bs
    → decode_batch c (take m bs) ≡ err BatchError.corrupt_batch
decode_batch-take c b bs m laws fits h lt =
    cut_frame c bs m (encode_batch-length c b bs laws fits h) lt
