-- ===== src/Mq/Forge/Batch/Tests.antt =====
-- The theorems on batches at a codec that stores its blocks, and a batch of two records.
use go_common.Common.{ℕ, ◌+◌, ◌≤◌, ◌<◌, ◌≡◌, none, List, [], length, take, drop, ◌-◌, arith, ◌⊎◌}
use go_common.Mq.Forge.Varint.{
  put_varint, put_uvarint, zigzag, append_varint, append_varint_bytes, varint_size,
  varint_bytes_size, size_loop,
}
use go_common.Mq.Forge.Record.{append_record, append_headers, body_size, headers_size}
use go_common.Mq.Forge.Batch.{
  ok, err, BatchError, get_be, put_be, frame, covered, encode_batch, decode_batch, append_records,
}
use go_common.Mq.Forge.Batch.RoundTrip.{decode_batch-encode_batch}
use go_common.Mq.Forge.Batch.Corrupt.{decode_batch-crc, decode_batch-take}
use go_common.Mq.Forge.Sample.{
  storing, storing-CodecLaws, two_records, two_records-BatchFits, two_records_bytes,
  two_records_encoded, two_records_decoded,
}

decode_batch-encode_batch_example :
    ((storing.compress_block (append_records [] two_records.records) ≡ none)
      × (encode_batch storing two_records ≡ err BatchError.compress_failed))
    ⊎ ((actual : ℕ) × (bs : List ℕ) × (encode_batch storing two_records ≡ ok bs)
        × (decode_batch storing bs ≡ ok (record two_records { compression = actual }))
        × ((actual ≡ two_records.compression) ⊎ (actual ≡ 0)))
decode_batch-encode_batch_example =
    decode_batch-encode_batch storing two_records storing-CodecLaws two_records-BatchFits

cut_at_forty : 40 < length two_records_bytes
unfolding frame covered put_be append_records append_record append_headers append_varint_bytes
    append_varint put_varint put_uvarint zigzag body_size varint_size size_loop varint_bytes_size
    headers_size
cut_at_forty = omega arith

decode_batch-take_example :
    decode_batch storing (take 40 two_records_bytes) ≡ err BatchError.corrupt_batch
decode_batch-take_example =
    decode_batch-take storing two_records two_records_bytes 40 storing-CodecLaws
      two_records-BatchFits two_records_encoded cut_at_forty

decode_batch-crc_example :
    (35 ≤ length two_records_bytes)
    × (35 ≤ 12 + get_be 4 8 two_records_bytes)
    × (12 + get_be 4 8 two_records_bytes ≤ length two_records_bytes)
    × (storing.crc (take (12 + get_be 4 8 two_records_bytes - 19) (drop 19 two_records_bytes))
        ≡ get_be 4 15 two_records_bytes)
decode_batch-crc_example =
    decode_batch-crc storing two_records_bytes two_records two_records_decoded
