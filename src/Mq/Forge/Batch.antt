-- ===== src/Mq/Forge/Batch.antt =====
-- pkg/mq/forge/record.go and compressor.go: a batch of records, its header, checksum and compression.
-- CRC32C and the LZ4 block functions are a parameter. The buffers that the code reuses only save
-- allocations. A payload is shorter than 2^62 bytes.
pub mod Bytes
pub mod Payload
pub mod RoundTrip
pub mod Corrupt
mod Tests
use go_common.Common.{
  ℕ, zero, suc, ◌+◌, ◌-◌, ◌*◌, ◌/◌, ◌%◌, ◌^◌, Bool, Option, none, some, List, [], ◌∷◌, ◌++◌, ltb,
  leb, ◌==◌, if◌then◌else◌, length, take, drop,
}
use go_common.Common.Int.{ℤ, pos, negsuc, bits64, signed64}
use go_common.Mq.Forge.{Decoded, got, corrupt, panics}
use go_common.Mq.Forge.Record.{Record, append_record, decode_record}

-- `compress_block src` is `none` for an error, and no bytes for data that LZ4 cannot make shorter;
-- `uncompress_block src n` is `none` for an error, as when `n` bytes are too few.
pub record Codec : Type 0 where
  pub crc : List ℕ → ℕ
  pub compress_block : List ℕ → Option (List ℕ)
  pub uncompress_block : List ℕ → ℕ → Option (List ℕ)

-- `file_closed` is the error of a read of a closed file, for the segments.
pub data BatchError : Type 0 where
  empty_batch : BatchError
  corrupt_batch : BatchError
  corrupt_record : BatchError
  checksum_mismatch : BatchError
  compress_failed : BatchError
  decompress_failed : BatchError
  file_closed : BatchError

-- `panic` is a slice out of range; `unending` is a loop that the model gave up.
pub data Result {ℓ} (A : Type ℓ) : Type ℓ where
  ok : A → Result A
  err : BatchError → Result A
  panic : Result A
  unending : Result A

infixl 5 ◌>>=◌
abbrev pub ◌>>=◌ {ℓ κ} : {A : Type ℓ} {B : Type κ} → Result A → (A → Result B) → Result B
ok a >>= f = f a
err e >>= f = err e
panic >>= f = panic
unending >>= f = unending

pub record RecordBatch : Type 0 where
  pub base_offset : ℕ
  pub record_count : ℕ
  pub compression : ℕ
  pub timestamp : ℤ
  pub max_timestamp : ℤ
  pub records : List Record

abbrev pub compression_none : ℕ
compression_none = 0

abbrev pub compression_lz4 : ℕ
compression_lz4 = 1

abbrev pub batch_header_size : ℕ
batch_header_size = 35

abbrev pub max_decompress_size : ℕ
max_decompress_size = 16 * 2 ^ 20

-- Big-endian bytes, as encoding/binary puts and reads them.
unfoldable pub put_be : ℕ → ℕ → List ℕ
put_be zero x = []
put_be (suc k) x = (x / 256 ^ k % 256) ∷ put_be k x

unfoldable pub be_from : ℕ → List ℕ → ℕ
be_from acc [] = acc
be_from acc (b ∷ bs) = be_from (acc * 256 + b) bs

unfoldable pub get_be : ℕ → ℕ → List ℕ → ℕ
get_be n off bs = be_from 0 (take n (drop off bs))

unfoldable pub append_records : List ℕ → List Record → List ℕ
append_records dst [] = dst
append_records dst (r ∷ rs) = append_records (append_record dst r) rs

-- `Compress` of the LZ4 compressor, and the fallback for data that it cannot make shorter: the
-- compression that is written, and the payload.
unfoldable pub lz4_payload : List ℕ → Option (List ℕ) → Result (ℕ × List ℕ)
lz4_payload rec_buf none = err BatchError.compress_failed
lz4_payload rec_buf (some []) = ok (compression_none, rec_buf)
lz4_payload rec_buf (some (b ∷ bs)) = ok (compression_lz4, b ∷ bs)

-- `compressorFor` passes the bytes on for all other compressions.
unfoldable pub payload_of : Codec → ℕ → List ℕ → Result (ℕ × List ℕ)
payload_of c compression rec_buf =
    if compression == compression_lz4
    then lz4_payload rec_buf (c.compress_block rec_buf)
    else ok (compression, rec_buf)

-- What the checksum covers.
unfoldable pub covered : RecordBatch → List ℕ → List ℕ
covered b payload = put_be 8 (bits64 b.timestamp) ++ (put_be 8 (bits64 b.max_timestamp) ++ payload)

unfoldable pub frame : Codec → RecordBatch → ℕ → List ℕ → List ℕ
frame c b actual_compression payload =
    let batch_len = (2 + 1 + 4 + 8 + 8 + length payload) % 2 ^ 32 in
    let tail = covered b payload in
    put_be 8 b.base_offset
    ++ (put_be 4 batch_len
        ++ (put_be 2 b.record_count
            ++ (put_be 1 actual_compression ++ (put_be 4 (c.crc tail) ++ tail))))

unfoldable pub encode_batch : Codec → RecordBatch → Result (List ℕ)
encode_batch c b =
    if b.record_count == 0
    then err BatchError.empty_batch
    else (payload_of c b.compression (append_records [] b.records) >>= λ (actual, payload).
        ok (frame c b actual payload))

-- After a failure, again with a buffer of twice the size, within the maximum.
abbrev pub or_again : Option (List ℕ) → ℕ → Result (List ℕ) → Result (List ℕ)
or_again (some bs) new_size again = ok bs
or_again none new_size again =
    if ltb max_decompress_size new_size then err BatchError.decompress_failed else again

-- The loop of `Decompress`.
unfoldable pub decompress_loop : Codec → ℕ → List ℕ → ℕ → Result (List ℕ)
decompress_loop c zero src size = unending
decompress_loop c (suc fuel) src size =
    or_again (c.uncompress_block src size) (size * 2) (decompress_loop c fuel src (size * 2))

-- From one byte on, 25 rounds pass the maximum of 2^24.
unfoldable pub decompress : Codec → ℕ → List ℕ → Result (List ℕ)
decompress c compression src =
    if compression == compression_lz4
    then decompress_loop c 25 src
        (if ltb max_decompress_size (length src * 4) then max_decompress_size else length src * 4)
    else ok src

-- An error in a record is passed on.
abbrev pub passed_on {ℓ} : {A : Type ℓ} → Decoded A → Result A
passed_on (got a) = ok a
passed_on corrupt = err BatchError.corrupt_record
passed_on panics = panic

unfoldable pub decode_records : ℕ → List ℕ → Result (List Record)
decode_records zero rec_data = ok []
decode_records (suc k) rec_data = passed_on (decode_record rec_data) >>= λ (r, n).
    decode_records k (drop n rec_data) >>= λ rs. ok (r ∷ rs)

-- Behind the checksum; `data[off:totalLen]` from the end of the header.
unfoldable pub decode_payload : Codec → List ℕ → ℕ → Result RecordBatch
decode_payload c bs total_len =
    if ltb total_len batch_header_size
    then panic
    else (decompress c (get_be 1 14 bs)
          (take (total_len - batch_header_size) (drop batch_header_size bs))
        >>= λ rec_data. decode_records (get_be 2 12 bs) rec_data >>= λ rs. ok (record {
          base_offset = get_be 8 0 bs;
          record_count = get_be 2 12 bs;
          compression = get_be 1 14 bs;
          timestamp = signed64 (get_be 8 19 bs);
          max_timestamp = signed64 (get_be 8 27 bs);
          records = rs;
        }))

unfoldable pub decode_checked : Codec → List ℕ → ℕ → Result RecordBatch
decode_checked c bs total_len =
    if ltb (length bs) total_len
    then err BatchError.corrupt_batch
    else if ltb total_len 19
    then panic
    else if c.crc (take (total_len - 19) (drop 19 bs)) == get_be 4 15 bs
    then decode_payload c bs total_len
    else err BatchError.checksum_mismatch

unfoldable pub decode_batch : Codec → List ℕ → Result RecordBatch
decode_batch c bs =
    if ltb (length bs) batch_header_size
    then err BatchError.corrupt_batch
    else decode_checked c bs (12 + get_be 4 8 bs)

-- `ParseBatchHeader` and `BatchSize`.
unfoldable pub parse_batch_header : List ℕ → Option (ℕ × ℕ)
parse_batch_header bs =
    if ltb (length bs) batch_header_size then none else some (get_be 8 0 bs, get_be 2 12 bs)

unfoldable pub batch_size : List ℕ → Option ℕ
batch_size bs =
    if ltb (length bs) 12
    then none
    else if ltb (length bs) (12 + get_be 4 8 bs)
    then none
    else some (12 + get_be 4 8 bs)
