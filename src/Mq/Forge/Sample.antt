-- ===== src/Mq/Forge/Sample.antt =====
-- A codec that stores its blocks, and a batch of two records, for the tests.
pub mod Log
use go_common.Common.{
  ℕ, suc, ◌+◌, ◌%◌, ◌^◌, ◌≤◌, ◌<◌, ◌≡◌, refl, Option, none, some, List, [], ◌∷◌, ltb, if◌then◌else◌,
  length, arith,
}
use native.Mathlib.Nat.{mod-lt}
use go_common.Common.Int.{pos, negsuc, i64, ◌+ℤ◌}
use go_common.Mq.Forge.Varint.{
  put_varint, put_uvarint, zigzag, append_varint, append_varint_bytes, varint_size,
  varint_bytes_size, size_loop, read_varint, read_varint_bytes, read_slice, varint, uvarint,
  unzigzag,
}
use go_common.Mq.Forge.Record.{
  Record, append_record, append_headers, body_size, headers_size, decode_record, decode_sized,
  decode_within, decode_body, read_counted, read_headers,
}
use go_common.Mq.Forge.Record.RoundTrip.{RecordFits}
use go_common.Mq.Forge.Batch.{
  Codec, ok, RecordBatch, get_be, be_from, put_be, frame, covered, payload_of, lz4_payload,
  encode_batch, decode_batch, decode_checked, decode_payload, decode_records, decompress,
  decompress_loop, append_records,
}
use go_common.Mq.Forge.Batch.Payload.{CodecLaws, BatchFits, all_none, all_cons}
use go_common.Mq.Forge.Batch.RoundTrip.{batch_size-encode_batch}
use go_common.Mq.Forge.Batch.RoundTrip.{encode_batch-length}
use go_common.Mq.Forge.Segment.Stored.{Holds}

abbrev pub total : List ℕ → ℕ
total [] = 0
total (b ∷ bs) = b + total bs

abbrev pub unstore : List ℕ → ℕ → Option (List ℕ)
unstore [] n = none
unstore (_ ∷ src) n = if ltb n (length src) then none else some src

abbrev pub storing : Codec
storing = record {
  crc = λ bs. total bs % 2 ^ 32;
  compress_block = λ src. some (1 ∷ src);
  uncompress_block = unstore;
}

unstore-stored :
    (src packed : List ℕ) (n : ℕ)
    → some (1 ∷ src) ≡ some packed
    → length src ≤ n
    → unstore packed n ≡ some src
unstore-stored src [] n p h = absurd (ground arith)
unstore-stored src (x ∷ xs) n p h = ground arith

unstore-short :
    (src packed : List ℕ) (n : ℕ)
    → some (1 ∷ src) ≡ some packed
    → n < length src
    → unstore packed n ≡ none
unstore-short src [] n p h = absurd (ground arith)
unstore-short src (x ∷ xs) n p h = ground arith

length-stored :
    (src packed : List ℕ) → some (1 ∷ src) ≡ some packed → length packed ≡ suc (length src)
length-stored src [] p = absurd (ground arith)
length-stored src (x ∷ xs) p = ground arith

pub storing-CodecLaws : CodecLaws storing
storing-CodecLaws = record {
  crc_fits = λ bs. mod-lt (total bs) {m = 2 ^ 32} (omega arith);
  comes_back = λ src packed n p _ h. unstore-stored src packed n p h;
  bounded = λ src packed p. omega (arith, length-stored src packed p);
  too_small = λ src packed n p _ h. unstore-short src packed n p h;
}

abbrev pub first_record : Record
first_record = record {
  timestamp_delta = pos 0;
  offset_delta = pos 0;
  key = none;
  value = some (7 ∷ []);
  headers = [];
}

abbrev pub two_records : RecordBatch
two_records = record {
  base_offset = 1000;
  record_count = 2;
  compression = 1;
  timestamp = pos 1700000000000;
  max_timestamp = negsuc 0;
  records = first_record ∷ first_record ∷ [];
}

pub first_record-RecordFits : RecordFits first_record
unfolding put_varint put_uvarint zigzag
first_record-RecordFits = record {
  timestamp_delta = (omega arith, omega arith);
  offset_delta = (omega arith, omega arith);
  few_headers = omega arith;
  short = omega arith;
}

pub two_records-BatchFits : BatchFits two_records
unfolding append_records append_record append_headers append_varint_bytes append_varint put_varint
    put_uvarint zigzag body_size varint_size size_loop varint_bytes_size headers_size
two_records-BatchFits = record {
  base_offset = omega arith;
  counted = refl;
  not_empty = omega arith;
  few = omega arith;
  compression = omega arith;
  timestamp = (omega arith, omega arith);
  max_timestamp = (omega arith, omega arith);
  records = all_cons first_record-RecordFits (all_cons first_record-RecordFits all_none);
  short = omega arith;
}

abbrev pub two_records_bytes : List ℕ
two_records_bytes = frame storing two_records 1 (1 ∷ append_records [] two_records.records)

pub two_records_encoded : encode_batch storing two_records ≡ ok two_records_bytes
unfolding encode_batch payload_of lz4_payload
two_records_encoded = refl

pub two_records_decoded : decode_batch storing two_records_bytes ≡ ok two_records
unfolding append_records append_record append_headers append_varint_bytes append_varint put_varint
    put_uvarint zigzag body_size varint_size size_loop varint_bytes_size headers_size frame covered
    put_be decode_batch decode_checked decode_payload get_be be_from decompress decompress_loop
    decode_records decode_record decode_sized decode_within decode_body read_counted read_headers
    read_varint read_varint_bytes read_slice varint uvarint unzigzag i64 ◌+ℤ◌
two_records_decoded = refl

two_records_length : length two_records_bytes ≡ 12 + get_be 4 8 two_records_bytes
two_records_length =
    encode_batch-length storing two_records two_records_bytes storing-CodecLaws
      two_records-BatchFits two_records_encoded

-- The bytes of the batch stand for it.
pub two_records-Holds : Holds storing two_records two_records_bytes
two_records-Holds = record {
  decoded = two_records_decoded;
  sized = λ rest.
      (batch_size-encode_batch storing two_records two_records_bytes rest storing-CodecLaws
        two_records-BatchFits two_records_encoded).1;
  header = omega (arith, two_records_length);
  field = two_records_length;
}
