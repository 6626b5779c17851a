-- ===== src/Mq/Forge/Batch/Payload.antt =====
-- The records of a batch and its payload, there and back.
use mathlib.Core.List.{append_assoc, append-nil}
use go_common.Common.{
  ℕ, zero, suc, ◌+◌, ◌*◌, ◌/◌, ◌^◌, ◌≤◌, ◌<◌, ◌≡◌, refl, sym, ap, subst, ◌∙◌, false, Option, none,
  some, List, [], ◌∷◌, ◌++◌, ltb, ◌==◌, if◌then◌else◌, length, arith, dec_lt, Bool-cases, inl, inr,
  ◌⊎◌,
}
use go_common.Common.Int.{InI64}
use go_common.Mq.Forge.Record.{Record, append_record}
use go_common.Mq.Forge.Varint.Fields.{drop-append}
use go_common.Mq.Forge.Record.RoundTrip.{
  RecordFits, append_record-body, decode_record-append_record,
}
use go_common.Mq.Forge.Batch.{
  Codec, ok, err, BatchError, RecordBatch, compression_lz4, max_decompress_size, append_records,
  lz4_payload, payload_of, decompress_loop, decompress, decode_records,
}

-- What CRC32C and LZ4 promise: a checksum of 32 bits; what a block of some bytes was compressed
-- from comes back
-- from a buffer that holds it, and is at most as long as CompressBlockBound says, and a buffer that does not is an error.
pub record CodecLaws (c : Codec) : Type 0 where
  pub crc_fits : (bs : List ℕ) → c.crc bs < 2 ^ 32
  pub comes_back :
      (src packed : List ℕ) (n : ℕ)
      → c.compress_block src ≡ some packed
      → 0 < length packed
      → length src ≤ n
      → c.uncompress_block packed n ≡ some src
  pub bounded :
      (src packed : List ℕ)
      → c.compress_block src ≡ some packed
      → length packed ≤ length src + length src / 255 + 16
  pub too_small :
      (src packed : List ℕ) (n : ℕ)
      → c.compress_block src ≡ some packed
      → 0 < length packed
      → n < length src
      → c.uncompress_block packed n ≡ none

pub data AllFit : List Record → Type 0 where
  all_none : AllFit []
  all_cons : {r : Record} {rs : List Record} → RecordFits r → AllFit rs → AllFit (r ∷ rs)

-- A batch that holds as many records as it says, within the widths of the header, and whose records
-- take at most 8 MB.
pub record BatchFits (b : RecordBatch) : Type 0 where
  pub base_offset : b.base_offset < 2 ^ 64
  pub counted : b.record_count ≡ length b.records
  pub not_empty : 0 < b.record_count
  pub few : b.record_count < 2 ^ 16
  pub compression : b.compression < 2 ^ 8
  pub timestamp : InI64 b.timestamp
  pub max_timestamp : InI64 b.max_timestamp
  pub records : AllFit b.records
  pub short : length (append_records [] b.records) ≤ 2 ^ 23

abbrev pub records_bytes : List Record → List ℕ
records_bytes [] = []
records_bytes (r ∷ rs) = append_record [] r ++ records_bytes rs

append_record-append : (dst : List ℕ) (r : Record) → append_record dst r ≡ dst ++ append_record [] r
append_record-append dst r =
    append_record-body dst r ∙ ap (λ d. dst ++ d) (sym (append_record-body [] r))

pub append_records-records_bytes :
    (dst : List ℕ) (rs : List Record) → append_records dst rs ≡ dst ++ records_bytes rs
unfolding append_records
append_records-records_bytes dst [] = sym (append-nil dst)
append_records-records_bytes dst (r ∷ rs) =
    append_records-records_bytes (append_record dst r) rs
    ∙ ap (λ d. d ++ records_bytes rs) (append_record-append dst r)
    ∙ append_assoc dst (append_record [] r) (records_bytes rs)

pub decode_records-records_bytes :
    (rs : List Record) → AllFit rs → decode_records (length rs) (records_bytes rs) ≡ ok rs
unfolding decode_records
decode_records-records_bytes [] all_none = refl
decode_records-records_bytes (r ∷ rs) (all_cons f fs) =
    let t = drop-append (append_record [] r) (records_bytes rs) in
    rw (decode_record-append_record r (records_bytes rs) f)
      (rw (t, decode_records-records_bytes rs fs) refl)

-- Within `k` doublings the size passes the maximum.
abbrev Passes : ℕ → ℕ → Type 0
Passes zero size = max_decompress_size < size
Passes (suc k) size = Passes k (size * 2)

decompress_loop_lem :
    (c : Codec) (laws : CodecLaws c) (src packed : List ℕ)
    → c.compress_block src ≡ some packed
    → 0 < length packed
    → length src ≤ 2 ^ 23
    → (fuel size : ℕ) → size ≤ max_decompress_size
    → Passes fuel size
    → decompress_loop c fuel packed size ≡ ok src
unfolding decompress_loop
decompress_loop_lem c laws src packed p some_byte short zero size le passes = absurd (omega arith)
decompress_loop_lem c laws src packed p some_byte short (suc fuel) size le passes =
    elim (dec_lt size (length src)) [
      | no h ↦ rw (laws.comes_back src packed size p some_byte (omega arith)) refl
      | yes h ↦
          let t : ltb max_decompress_size (size * 2) ≡ false = ground arith in
          let rest =
            decompress_loop_lem c laws src packed p some_byte short fuel (size * 2) (omega arith)
              passes in
          rw (laws.too_small src packed size p some_byte h) (rw t rest)
    ]

decompress_lz4 :
    (c : Codec) (laws : CodecLaws c) (src : List ℕ) (x : ℕ) (xs : List ℕ)
    → c.compress_block src ≡ some (x ∷ xs)
    → length src ≤ 2 ^ 23
    → decompress c compression_lz4 (x ∷ xs) ≡ ok src
unfolding decompress
decompress_lz4 c laws src x xs p short =
    let size =
      if ltb max_decompress_size (length (x ∷ xs) * 4)
      then max_decompress_size
      else length (x ∷ xs) * 4 in
    let le : size ≤ max_decompress_size = ground arith in
    let some_room : 1 ≤ size = ground arith in
    decompress_loop_lem c laws src (x ∷ xs) p (omega arith) short 25 size le
      (omega (arith, some_room))

-- What `payload_of` answers: an error of LZ4, or a compression and a payload that decompress to the
-- records.
pub data Packing (c : Codec) (compression : ℕ) (recs : List ℕ) : Type 0 where
  failed :
      c.compress_block recs ≡ none
      → payload_of c compression recs ≡ err BatchError.compress_failed
      → Packing c compression recs
  packed :
      (actual : ℕ) (payload : List ℕ)
      → payload_of c compression recs ≡ ok (actual, payload)
      → decompress c actual payload ≡ ok recs
      → length payload < 2 ^ 25
      → (actual ≡ compression) ⊎ (actual ≡ 0)
      → Packing c compression recs

lz4-Packing :
    (c : Codec) (laws : CodecLaws c) (recs : List ℕ) (o : Option (List ℕ))
    → length recs ≤ 2 ^ 23
    → c.compress_block recs ≡ o
    → Packing c compression_lz4 recs
unfolding payload_of lz4_payload decompress
lz4-Packing c laws recs none short p = failed p (rw p refl)
lz4-Packing c laws recs (some []) short p = packed 0 recs (rw p refl) refl (omega arith) (inr refl)
lz4-Packing c laws recs (some (x ∷ xs)) short p =
    packed 1 (x ∷ xs) (rw p refl) (decompress_lz4 c laws recs x xs p short)
      (omega (arith, laws.bounded recs (x ∷ xs) p)) (inl refl)

pub payload_of-Packing :
    (c : Codec) (laws : CodecLaws c) (compression : ℕ) (recs : List ℕ)
    → length recs ≤ 2 ^ 23
    → Packing c compression recs
unfolding payload_of decompress
payload_of-Packing c laws compression recs short =
    elim (Bool-cases (compression == compression_lz4)) [
      | inl t ↦
          let is_lz4 : compression ≡ 1 = ground arith in
          subst (λ k. Packing c k recs) (sym is_lz4) (lz4-Packing c laws recs _ short refl)
      | inr t ↦ packed compression recs (rw t refl) (rw t refl) (omega arith) (inl refl)
    ]
