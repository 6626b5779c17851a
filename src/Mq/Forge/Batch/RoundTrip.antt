-- ===== src/Mq/Forge/Batch/RoundTrip.antt =====
-- A batch decoded is the one encoded, but for a compression that could not make it shorter.
use mathlib.Core.List.{append-nil}
use go_common.Common.{
  ℕ, ◌+◌, ◌-◌, ◌%◌, ◌^◌, ◌<◌, ◌≡◌, refl, sym, ap, subst, ◌∙◌, true, false, none, some, List, [],
  ◌++◌, ltb, ◌==◌, length, arith, length-append, take, drop, inl, inr, ◌⊎◌,
}
use go_common.Common.Int.{bits64, signed64, InI64}
use go_common.Common.Slices.{take_all}
use go_common.Mq.Forge.Batch.Bytes.{
  be_from-one, be_from-two, be_from-four, be_from-eight, signed64-bits64, bits64-bound,
}
use go_common.Mq.Forge.Batch.{
  Codec, Result, ok, err, panic, unending, BatchError, RecordBatch, put_be, be_from, get_be,
  append_records, covered, frame, encode_batch, decompress, decode_records, decode_payload,
  decode_checked, decode_batch, parse_batch_header, batch_size,
}
use go_common.Mq.Forge.Batch.Payload.{
  CodecLaws, BatchFits, append_records-records_bytes, decode_records-records_bytes, failed, packed,
  payload_of-Packing,
}

module _ (c : Codec) (b : RecordBatch) (actual : ℕ) (payload : List ℕ) where
  length-frame : length (frame c b actual payload) ≡ 35 + length payload
  unfolding frame put_be covered
  length-frame = omega arith

  frame_base_offset : b.base_offset < 2 ^ 64 → get_be 8 0 (frame c b actual payload) ≡ b.base_offset
  unfolding frame put_be covered get_be
  frame_base_offset h = be_from-eight b.base_offset h

  get_be-frame :
      length payload < 2 ^ 25 → get_be 4 8 (frame c b actual payload) ≡ 23 + length payload
  unfolding frame put_be covered get_be
  get_be-frame h =
      let t : (2 + 1 + 4 + 8 + 8 + length payload) % 2 ^ 32 ≡ 23 + length payload = omega arith in
      be_from-four ((2 + 1 + 4 + 8 + 8 + length payload) % 2 ^ 32) (omega arith) ∙ t

  frame_count : b.record_count < 2 ^ 16 → get_be 2 12 (frame c b actual payload) ≡ b.record_count
  unfolding frame put_be covered get_be
  frame_count h = be_from-two b.record_count h

  frame_compression : actual < 2 ^ 8 → get_be 1 14 (frame c b actual payload) ≡ actual
  unfolding frame put_be covered get_be
  frame_compression h = be_from-one actual h

  frame_crc :
      c.crc (covered b payload) < 2 ^ 32
      → get_be 4 15 (frame c b actual payload) ≡ c.crc (covered b payload)
  unfolding frame put_be covered get_be
  frame_crc h = be_from-four (c.crc (covered b payload)) h

  frame_timestamp :
      InI64 b.timestamp → signed64 (get_be 8 19 (frame c b actual payload)) ≡ b.timestamp
  unfolding frame put_be covered get_be
  frame_timestamp h =
      ap signed64 (be_from-eight (bits64 b.timestamp) (bits64-bound b.timestamp))
      ∙ signed64-bits64 b.timestamp h

  frame_max_timestamp :
      InI64 b.max_timestamp → signed64 (get_be 8 27 (frame c b actual payload)) ≡ b.max_timestamp
  unfolding frame put_be covered get_be
  frame_max_timestamp h =
      ap signed64 (be_from-eight (bits64 b.max_timestamp) (bits64-bound b.max_timestamp))
      ∙ signed64-bits64 b.max_timestamp h

  drop-frame : drop 19 (frame c b actual payload) ≡ covered b payload
  unfolding frame put_be
  drop-frame = refl

  frame_payload : drop 35 (frame c b actual payload) ≡ payload
  unfolding frame put_be covered
  frame_payload = refl

  length-covered : length (covered b payload) ≡ 16 + length payload
  unfolding covered put_be
  length-covered = omega arith

  decode_payload-frame :
      BatchFits b
      → actual < 2 ^ 8
      → decompress c actual payload ≡ ok (append_records [] b.records)
      → decode_payload c (frame c b actual payload) (35 + length payload)
        ≡ ok (record b { compression = actual })
  unfolding decode_payload
  decode_payload-frame fits kind back =
      let bs = frame c b actual payload in
      let all : take (35 + length payload - 35) (drop 35 bs) ≡ payload =
        ap (take (35 + length payload - 35)) frame_payload
        ∙ take_all (35 + length payload - 35) payload (omega arith) in
      let t : ltb (35 + length payload) 35 ≡ false = ground arith in
      let recs : decode_records b.record_count (append_records [] b.records) ≡ ok b.records =
        ap (λ k. decode_records k (append_records [] b.records)) fits.counted
        ∙ ap (decode_records (length b.records)) (append_records-records_bytes [] b.records)
        ∙ decode_records-records_bytes b.records fits.records in
      rw
        (
          t,
          all,
          frame_compression kind,
          back,
          frame_count fits.few,
          recs,
          frame_base_offset fits.base_offset,
          frame_timestamp fits.timestamp,
          frame_max_timestamp fits.max_timestamp,
        )
        refl

  decode_batch-frame :
      CodecLaws c
      → BatchFits b
      → actual < 2 ^ 8
      → length payload < 2 ^ 25
      → decompress c actual payload ≡ ok (append_records [] b.records)
      → decode_batch c (frame c b actual payload) ≡ ok (record b { compression = actual })
  unfolding decode_batch decode_checked
  decode_batch-frame laws fits kind short back =
      let bs = frame c b actual payload in
      let len = length-frame in
      let total : 12 + get_be 4 8 bs ≡ 35 + length payload = omega (arith, get_be-frame short) in
      let t : ltb (length bs) 35 ≡ false = ground (arith, len) in
      let u : ltb (length bs) (35 + length payload) ≡ false = ground (arith, len) in
      let w : ltb (35 + length payload) 19 ≡ false = ground arith in
      let all : take (35 + length payload - 19) (drop 19 bs) ≡ covered b payload =
        ap (take (35 + length payload - 19)) drop-frame
        ∙ take_all (35 + length payload - 19) (covered b payload) (omega (arith, length-covered)) in
      let sum = frame_crc (laws.crc_fits (covered b payload)) in
      let same : (c.crc (covered b payload) == c.crc (covered b payload)) ≡ true = ground arith in
      rw (t, total, u, w, all, sum, same) (decode_payload-frame fits kind back)

-- The encoding of a batch that fits: it fails only if LZ4 does, and what it gives is decoded to the
-- batch, with its compression or with none.
pub decode_batch-encode_batch :
    (c : Codec) (b : RecordBatch)
    → CodecLaws c
    → BatchFits b
    → ((c.compress_block (append_records [] b.records) ≡ none)
        × (encode_batch c b ≡ err BatchError.compress_failed))
      ⊎ ((actual : ℕ) × (bs : List ℕ) × (encode_batch c b ≡ ok bs)
          × (decode_batch c bs ≡ ok (record b { compression = actual }))
          × ((actual ≡ b.compression) ⊎ (actual ≡ 0)))
unfolding encode_batch
decode_batch-encode_batch c b laws fits =
    let t : (b.record_count == 0) ≡ false = ground (arith, fits.not_empty) in
    elim (payload_of-Packing c laws b.compression (append_records [] b.records) fits.short) [
      | failed h e ↦ inl (h, rw (t, e) refl)
      | packed actual payload e back short kind ↦
          let small : actual < 2 ^ 8 = omega (arith, kind, fits.compression) in
          inr (
            actual,
            frame c b actual payload,
            rw (t, e) refl,
            decode_batch-frame c b actual payload laws fits small short back,
            kind,
          )
    ]

length-frame_rest :
    (c : Codec) (b : RecordBatch) (actual : ℕ) (payload rest : List ℕ)
    → length (frame c b actual payload ++ rest) ≡ 35 + length payload + length rest
length-frame_rest c b actual payload rest =
    omega (arith, length-append (frame c b actual payload) rest, length-frame c b actual payload)

-- The header's fields are read in front of `rest` as they are without.
header_base :
    (c : Codec) (b : RecordBatch) (actual : ℕ) (payload rest : List ℕ)
    → get_be 8 0 (frame c b actual payload ++ rest) ≡ be_from 0 (put_be 8 b.base_offset)
unfolding frame put_be get_be covered
header_base c b actual payload rest = refl

header_count :
    (c : Codec) (b : RecordBatch) (actual : ℕ) (payload rest : List ℕ)
    → get_be 2 12 (frame c b actual payload ++ rest) ≡ be_from 0 (put_be 2 b.record_count)
unfolding frame put_be get_be covered
header_count c b actual payload rest = refl

header_size :
    (c : Codec) (b : RecordBatch) (actual : ℕ) (payload rest : List ℕ)
    → get_be 4 8 (frame c b actual payload ++ rest) ≡ get_be 4 8 (frame c b actual payload)
unfolding frame put_be get_be covered
header_size c b actual payload rest = refl

frame_header :
    (c : Codec) (b : RecordBatch) (actual : ℕ) (payload rest : List ℕ)
    → BatchFits b
    → length payload < 2 ^ 25
    → (parse_batch_header (frame c b actual payload ++ rest) ≡ some (b.base_offset, b.record_count))
      × (batch_size (frame c b actual payload ++ rest) ≡ some (length (frame c b actual payload)))
unfolding parse_batch_header batch_size
frame_header c b actual payload rest fits short =
    let bs = frame c b actual payload ++ rest in
    let len = length-frame_rest c b actual payload rest in
    let first : get_be 8 0 bs ≡ b.base_offset =
      header_base c b actual payload rest ∙ be_from-eight b.base_offset fits.base_offset in
    let count : get_be 2 12 bs ≡ b.record_count =
      header_count c b actual payload rest ∙ be_from-two b.record_count fits.few in
    let size : get_be 4 8 bs ≡ 23 + length payload =
      header_size c b actual payload rest ∙ get_be-frame c b actual payload short in
    let whole = length-frame c b actual payload in
    let t : ltb (length bs) 35 ≡ false = ground (arith, len) in
    let u : ltb (length bs) 12 ≡ false = ground (arith, len) in
    let w : ltb (length bs) (12 + get_be 4 8 bs) ≡ false = ground (arith, len, size) in
    (rw (t, first, count) refl, rw (u, w) (ap some (omega (arith, size, whole))))

-- What `ok` holds.
abbrev held : Result (List ℕ) → List ℕ
held (ok bs) = bs
held (err e) = []
held panic = []
held unending = []

-- Whatever follows an encoded batch that fits, `ParseBatchHeader` finds its base offset and its
-- number of records, and `BatchSize` the length of its encoding.
pub batch_size-encode_batch :
    (c : Codec) (b : RecordBatch) (bs rest : List ℕ)
    → CodecLaws c
    → BatchFits b
    → encode_batch c b ≡ ok bs
    → (parse_batch_header (bs ++ rest) ≡ some (b.base_offset, b.record_count))
      × (batch_size (bs ++ rest) ≡ some (length bs))
unfolding encode_batch
batch_size-encode_batch c b bs rest laws fits h =
    let t : (b.record_count == 0) ≡ false = ground (arith, fits.not_empty) in
    elim (payload_of-Packing c laws b.compression (append_records [] b.records) fits.short) [
      | failed _ e ↦
          let e' : encode_batch c b ≡ err BatchError.compress_failed = rw (t, e) refl in
          let clash : err BatchError.compress_failed ≡ ok bs = sym e' ∙ h in absurd (ground arith)
      | packed actual payload e back short kind ↦
          let e' : encode_batch c b ≡ ok (frame c b actual payload) = rw (t, e) refl in
          subst
            (λ f.
              (parse_batch_header (f ++ rest) ≡ some (b.base_offset, b.record_count))
              × (batch_size (f ++ rest) ≡ some (length f)))
            (ap held (sym e' ∙ h)) (frame_header c b actual payload rest fits short)
    ]

batch_size-field : (bs : List ℕ) (n : ℕ) → batch_size bs ≡ some n → n ≡ 12 + get_be 4 8 bs
unfolding batch_size
batch_size-field bs n h = ground arith

-- The encoding of a batch that fits is as long as its length field says.
pub encode_batch-length :
    (c : Codec) (b : RecordBatch) (bs : List ℕ)
    → CodecLaws c
    → BatchFits b
    → encode_batch c b ≡ ok bs
    → length bs ≡ 12 + get_be 4 8 bs
encode_batch-length c b bs laws fits h =
    let size = (batch_size-encode_batch c b bs [] laws fits h).1 in
    batch_size-field bs (length bs) (ap batch_size (sym (append-nil bs)) ∙ size)
