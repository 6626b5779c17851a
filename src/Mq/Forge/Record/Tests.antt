-- ===== src/Mq/Forge/Record/Tests.antt =====
-- Runs of the record codec, and its theorems at a concrete record.
use go_common.Common.{◌<◌, ◌≡◌, refl, none, some, [], ◌∷◌, ◌++◌, length, take, arith}
use go_common.Common.Int.{pos, negsuc, i64, ◌+ℤ◌}
use go_common.Mq.Forge.{got, corrupt}
use go_common.Mq.Forge.Varint.{
  put_varint, varint_size, append_varint_bytes, append_varint, put_uvarint, zigzag, size_loop,
  varint_bytes_size, read_varint, read_varint_bytes, read_slice, varint, uvarint, unzigzag,
}
use go_common.Mq.Forge.Record.{
  Record, append_record, decode_record, append_headers, body_size, headers_size, decode_sized,
  decode_within, decode_body, read_counted, read_headers,
}
use go_common.Mq.Forge.Record.RoundTrip.{RecordFits, decode_record-append_record}
use go_common.Mq.Forge.Record.Corrupt.{decode_record-take}

abbrev sample : Record
sample = record {
  timestamp_delta = negsuc 299;
  offset_delta = pos 2;
  key = none;
  value = some (104 ∷ 105 ∷ []);
  headers = record { key = some (97 ∷ []); value = some [] } ∷ [];
}

sample_bytes : append_record [] sample ≡ 22 ∷ 215 ∷ 4 ∷ 4 ∷ 1 ∷ 4 ∷ 104 ∷ 105 ∷ 2 ∷ 2 ∷ 97 ∷ 0 ∷ []
unfolding append_record append_headers append_varint_bytes append_varint put_varint put_uvarint
    zigzag body_size varint_size size_loop varint_bytes_size headers_size
sample_bytes = refl

sample_back : decode_record (append_record [] sample ++ (9 ∷ 9 ∷ [])) ≡ got (sample, 12)
unfolding append_record append_headers append_varint_bytes append_varint put_varint put_uvarint
    zigzag body_size varint_size size_loop varint_bytes_size headers_size decode_record decode_sized
    decode_within decode_body read_counted read_headers read_varint read_varint_bytes read_slice
    varint uvarint unzigzag i64 ◌+ℤ◌
sample_back = refl

negative_length : decode_record (1 ∷ 0 ∷ []) ≡ corrupt
unfolding decode_record decode_sized varint uvarint unzigzag
negative_length = refl

sample-RecordFits : RecordFits sample
unfolding put_varint put_uvarint zigzag
sample-RecordFits = record {
  timestamp_delta = (omega arith, omega arith);
  offset_delta = (omega arith, omega arith);
  few_headers = omega arith;
  short = omega arith;
}

decode_record-append_record_example :
    decode_record (append_record [] sample ++ (1 ∷ 2 ∷ []))
    ≡ got (sample, length (append_record [] sample))
decode_record-append_record_example =
    decode_record-append_record sample (1 ∷ 2 ∷ []) sample-RecordFits

cut_at_seven : 7 < length (append_record [] sample)
unfolding append_record append_headers append_varint_bytes append_varint put_varint put_uvarint
    zigzag body_size varint_size size_loop varint_bytes_size headers_size
cut_at_seven = omega arith

decode_record-take_example : decode_record (take 7 (append_record [] sample)) ≡ corrupt
decode_record-take_example = decode_record-take sample 7 sample-RecordFits cut_at_seven
