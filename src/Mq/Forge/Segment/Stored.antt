-- ===== src/Mq/Forge/Segment/Stored.antt =====
-- Encoded batches one after another in a file: what a loop over them meets.
use mathlib.Core.List.{append_assoc}
use go_common.Common.{
  ℕ, ◌+◌, ◌≤◌, ◌<◌, ◌≡◌, refl, sym, ap, subst, ◌∙◌, true, none, some, List, [], ◌∷◌, ◌++◌, ltb,
  length, take, arith, length-take, Bool-cases, inl, inr,
}
use go_common.Mq.Forge.Batch.{
  Codec, Result, ok, err, BatchError, RecordBatch, get_be, encode_batch, decode_batch, batch_size,
}
use go_common.Mq.Forge.Batch.Payload.{CodecLaws, BatchFits}
use go_common.Mq.Forge.Batch.RoundTrip.{
  decode_batch-encode_batch, batch_size-encode_batch, encode_batch-length,
}
use go_common.Mq.Forge.Batch.Corrupt.{get_be-take}

-- A batch and the bytes that stand for it.
abbrev pub Stored : Type 0
Stored = RecordBatch × List ℕ

-- `bs` stands for `b`: it is decoded to it, and its length field says how long it is.
pub record Holds (c : Codec) (b : RecordBatch) (bs : List ℕ) : Type 0 where
  pub decoded : decode_batch c bs ≡ ok b
  pub sized : (rest : List ℕ) → batch_size (bs ++ rest) ≡ some (length bs)
  pub header : 12 ≤ length bs
  pub field : length bs ≡ 12 + get_be 4 8 bs

abbrev pub AllHold : Codec → List Stored → Type 0
AllHold c [] = Unit {0}
AllHold c ((b, bs) ∷ es) = Holds c b bs × AllHold c es

abbrev pub log_bytes : List Stored → List ℕ
log_bytes [] = []
log_bytes ((b, bs) ∷ es) = bs ++ log_bytes es

-- Batches whose offsets follow each other from `o` to `o'`, none of them empty.
abbrev pub Contiguous : ℕ → List Stored → ℕ → Type 0
Contiguous o [] o' = o ≡ o'
Contiguous o ((b, bs) ∷ es) o' =
    (b.base_offset ≡ o) × (0 < b.record_count) × Contiguous (o + b.record_count) es o'

pub log_bytes-append : (es fs : List Stored) → log_bytes (es ++ fs) ≡ log_bytes es ++ log_bytes fs
log_bytes-append [] fs = refl
log_bytes-append ((b, bs) ∷ es) fs =
    ap (λ r. bs ++ r) (log_bytes-append es fs) ∙ sym (append_assoc bs (log_bytes es) (log_bytes fs))

pub AllHold-append :
    (c : Codec) (es fs : List Stored) → AllHold c es → AllHold c fs → AllHold c (es ++ fs)
AllHold-append c [] fs h k = k
AllHold-append c (e ∷ es) fs h k = (h.0, AllHold-append c es fs h.1 k)

pub AllHold-right : (c : Codec) (es fs : List Stored) → AllHold c (es ++ fs) → AllHold c fs
AllHold-right c [] fs h = h
AllHold-right c (e ∷ es) fs h = AllHold-right c es fs h.1

pub Contiguous-le : (o o' : ℕ) (es : List Stored) → Contiguous o es o' → o ≤ o'
Contiguous-le o o' [] h = omega arith
Contiguous-le o o' ((b, bs) ∷ es) h = omega (arith, Contiguous-le (o + b.record_count) o' es h.2)

pub Contiguous-append :
    (o m o' : ℕ) (es fs : List Stored)
    → Contiguous o es m
    → Contiguous m fs o'
    → Contiguous o (es ++ fs) o'
Contiguous-append o m o' [] fs h k = subst (λ p. Contiguous p fs o') (sym h) k
Contiguous-append o m o' ((b, bs) ∷ es) fs h k =
    (h.0, h.1, Contiguous-append (o + b.record_count) m o' es fs h.2 k)

-- The other part of a contiguous log.
pub Contiguous-right :
    (o m o' : ℕ) (es fs : List Stored)
    → Contiguous o es m
    → Contiguous o (es ++ fs) o'
    → Contiguous m fs o'
Contiguous-right o m o' [] fs h k = subst (λ p. Contiguous p fs o') h k
Contiguous-right o m o' ((b, bs) ∷ es) fs h k =
    Contiguous-right (o + b.record_count) m o' es fs h.2 k.2

abbrev held : Result (List ℕ) → List ℕ
held (ok bs) = bs
held _ = []

ok_of : {bs bs2 : List ℕ} → ok bs ≡ ok bs2 → bs ≡ bs2
ok_of h = ap held h

-- An encoded batch that fits is stored, up to its compression.
pub encode_batch-Holds :
    (c : Codec) (b : RecordBatch) (bs : List ℕ)
    → CodecLaws c
    → BatchFits b
    → encode_batch c b ≡ ok bs
    → (actual : ℕ) × Holds c (record b { compression = actual }) bs
encode_batch-Holds c b bs laws fits h = elim (decode_batch-encode_batch c b laws fits) [
  | inl (_, e) ↦
      let clash : err BatchError.compress_failed ≡ ok bs = sym e ∙ h in absurd (ground arith)
  | inr (actual, bs', e, back, _) ↦
      let same : bs' ≡ bs = ok_of (sym e ∙ h) in
      (
        actual,
        record {
          decoded = ap (decode_batch c) (sym same) ∙ back;
          sized = λ rest. (batch_size-encode_batch c b bs rest laws fits h).1;
          header = omega (arith, encode_batch-length c b bs laws fits h);
          field = encode_batch-length c b bs laws fits h;
        },
      )
]

-- Cut off, the bytes have no whole batch.
pub batch_size-torn :
    (bs : List ℕ) (m : ℕ)
    → length bs ≡ 12 + get_be 4 8 bs
    → m < length bs
    → batch_size (take m bs) ≡ none
unfolding batch_size
batch_size-torn bs m len lt = elim (Bool-cases (ltb (length (take m bs)) 12)) [
  | inl t ↦ rw t refl
  | inr t ↦
      let m_long : 12 ≤ m = ground (arith, length-take m bs) in
      let same : get_be 4 8 (take m bs) ≡ get_be 4 8 bs = get_be-take 4 8 m bs (omega arith) in
      let u : ltb (length (take m bs)) (12 + get_be 4 8 (take m bs)) ≡ true =
        ground (arith, length-take m bs, same) in
      rw (t, u) refl
]
