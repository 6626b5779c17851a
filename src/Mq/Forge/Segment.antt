-- ===== src/Mq/Forge/Segment.antt =====
-- pkg/mq/forge/segment.go: one segment of the log. Its `.log` file is a list of bytes, and its index
-- that of Index. The file is opened for appending, so a write goes to its end. Sizes and positions are
-- below 2^62; reads of a file that is open do not fail. Times are `int64`s, far from their limits.
pub mod Stored
pub mod Scan
pub mod Cuts
pub mod Chunks
pub mod Valid
pub mod Recover
pub mod Read
mod Tests
use Prim.Native.Nat.{min}
use go_common.Common.{
  ℕ, zero, suc, ◌+◌, ◌-◌, ◌*◌, ◌%◌, ◌^◌, Bool, true, false, not, Option, none, some, List, [], ◌∷◌,
  ◌++◌, ltb, leb, ◌==◌, ◌||◌, ◌&&◌, if◌then◌else◌, length, take, drop,
}
use go_common.Common.Int.{ℤ, ◌-ℤ◌, leb_ℤ, pos}
use go_common.Mq.Forge.Batch.{
  Codec, Result, ok, err, panic, unending, ◌>>=◌, BatchError, RecordBatch, decode_batch, batch_size,
}
use go_common.Mq.Forge.Index.{Index, append, last_entry, lookup, sync}

-- The part of Config that a segment reads. An age of 0 is no limit.
pub record SegmentConfig : Type 0 where
  pub max_segment_bytes : ℕ
  pub max_segment_age : ℕ
  pub index_interval : ℕ
  pub fsync_every : ℕ

-- `file_open` is whether `logFile` is not closed.
pub record Segment : Type 0 where
  pub log : List ℕ
  pub index : Index
  pub base_offset : ℕ
  pub size : ℕ
  pub created : ℤ
  pub next_offset : ℕ
  pub bytes_since_index : ℕ
  pub batches_since_sync : ℕ
  pub mmap : Option (List ℕ)
  pub file_open : Bool

abbrev pub recover_chunk_size : ℕ
recover_chunk_size = 256 * 1024

-- `batch.BaseOffset + uint64(batch.RecordCount)`.
abbrev pub end_offset : RecordBatch → ℕ
end_offset b = (b.base_offset + b.record_count) % 2 ^ 64

-- The rest of a loop over encoded batches: it stops with `a` at a size that is not there or does not
-- fit, and at a batch that is refused.
abbrev pub at_size {ℓ} : {A : Type ℓ} → List ℕ → A → (ℕ → Result A) → Option ℕ → Result A
at_size buf a f none = ok a
at_size buf a f (some n) = if ltb (length buf) n then ok a else f n

abbrev pub at_batch {ℓ} :
    {A : Type ℓ} → A → (RecordBatch → Result A) → Result RecordBatch → Result A
at_batch a f (ok b) = f b
at_batch a f (err e) = ok a
at_batch a f panic = panic
at_batch a f unending = unending

-- `scanBatches` from `buf[off:]`: the next offset and the bytes consumed. A batch takes at least
-- twelve bytes, so one round more than there are bytes is enough.
unfoldable pub scan_from : Codec → ℕ → ℕ → List ℕ → Result (ℕ × ℕ)
scan_from c zero next buf = unending
scan_from c (suc fuel) next buf =
    if length buf == 0
    then ok (next, 0)
    else at_size buf (next, 0)
        (λ n.
          at_batch (next, 0)
            (λ b.
              scan_from c fuel (if ltb next (end_offset b) then end_offset b else next) (drop n buf)
              >>= λ (next', used). ok (next', n + used))
            (decode_batch c (take n buf)))
        (batch_size buf)

unfoldable pub scan_batches : Codec → ℕ → List ℕ → Result (ℕ × ℕ)
scan_batches c next buf = scan_from c (suc (length buf)) next buf

-- The loop of `recover` over chunks, from a position, what was carried over, the valid end and the
-- next offset: the last two at the end of the loop.
unfoldable pub recover_chunks : Codec → ℕ → List ℕ → ℕ → ℕ → List ℕ → ℕ → ℕ → Result (ℕ × ℕ)
recover_chunks c zero log size position carry valid_end next = unending
recover_chunks c (suc fuel) log size position carry valid_end next =
    let held = take recover_chunk_size carry in
    let read_size = min (recover_chunk_size - length held) (size - position) in
    let chunk = take read_size (drop position log) in
    let buf = held ++ chunk in
    if leb size position
    then ok (next, valid_end)
    else (scan_batches c next buf >>= λ (next', used).
        recover_chunks c fuel log size (position + length chunk) (drop used buf) (valid_end + used)
          next')

abbrev pub start_of : Option (ℕ × ℕ) → ℕ
start_of none = 0
start_of (some (offset, position)) = position

-- What the scan finds: the next offset and the valid end.
unfoldable pub recover_scan : Codec → ℕ → Segment → ℕ → Result (ℕ × ℕ)
recover_scan c fuel s start =
    if leb (s.size - start) recover_chunk_size
    then (scan_batches c s.next_offset (take (s.size - start) (drop start s.log))
        >>= λ (next, used). ok (next, start + used))
    else recover_chunks c fuel s.log s.size start [] start s.next_offset

-- `recover`, on fuel for the loop over chunks; the file is cut behind the last valid batch.
unfoldable pub recover : Codec → ℕ → Segment → Result Segment
recover c fuel s =
    if leb s.size (start_of (last_entry s.index))
    then ok s
    else (recover_scan c fuel s (start_of (last_entry s.index)) >>= λ (next, valid_end). ok (
        if ltb valid_end s.size
        then record s { log = take valid_end s.log; size = valid_end; next_offset = next }
        else record s { next_offset = next }))

-- `openSegment` of a log file and an opened index. A new file counts as created now.
unfoldable pub open_segment : Codec → ℕ → List ℕ → Index → ℕ → ℤ → ℤ → Result Segment
open_segment c fuel log index base_offset mod_time now = recover c fuel (record {
  log = log;
  index = index;
  base_offset = base_offset;
  size = length log;
  created = if length log == 0 then now else mod_time;
  next_offset = base_offset;
  bytes_since_index = 0;
  batches_since_sync = 0;
  mmap = none;
  file_open = true;
})

abbrev pub is_some {ℓ} : {A : Type ℓ} → Option A → Bool
is_some none = false
is_some (some a) = true

-- `mapped` is false if the system refuses to map the file.
unfoldable pub seal : Segment → Bool → Segment
seal s mapped =
    if (s.size == 0) || is_some s.mmap || not mapped
    then s
    else record s { mmap = some (take s.size s.log) }

-- What the system does with the calls of one append: the number of bytes of a write that fails, an
-- error of the log's `Sync`, and a failing write of the index.
pub record Outcome : Type 0 where
  pub write_failed : Option ℕ
  pub log_synced : Bool
  pub index_failed : Option ℕ

-- A batch is in the file: the index, the counters and the next offset.
unfoldable pub count_in : SegmentConfig → Segment → List ℕ → RecordBatch → Segment
count_in cfg s encoded b =
    let should_index =
      leb cfg.index_interval s.bytes_since_index || (length s.index.entries == 0) in
    record s {
      log = s.log ++ encoded;
      index = if should_index then append s.index b.base_offset s.size else s.index;
      size = s.size + length encoded;
      bytes_since_index = (if should_index then 0 else s.bytes_since_index) + length encoded;
      next_offset = end_offset b;
      batches_since_sync = s.batches_since_sync + 1;
    }

abbrev pub index_synced : Segment → Index × Bool → Segment × Bool
index_synced s (idx, true) = (record s { index = idx; batches_since_sync = 0 }, true)
index_synced s (idx, false) = (record s { index = idx }, false)

unfoldable pub sync_after : SegmentConfig → Segment → Outcome → Segment × Bool
sync_after cfg s o =
    if ltb 0 cfg.fsync_every && leb cfg.fsync_every s.batches_since_sync
    then (if o.log_synced then index_synced s (sync s.index o.index_failed) else (s, false))
    else (s, true)

abbrev pub if_written : Option ℕ → (ℕ → Segment × Bool) → Segment × Bool → Segment × Bool
if_written none f a = a
if_written (some n) f a = f n

-- `Append`, and whether it answers no error.
unfoldable pub append_batch :
    SegmentConfig → Segment → List ℕ → RecordBatch → Outcome → Segment × Bool
append_batch cfg s encoded b o =
    if_written o.write_failed (λ n. (record s { log = s.log ++ take n encoded }, false))
      (sync_after cfg (count_in cfg s encoded b) o)

abbrev pub or_file : Option (List ℕ) → (List ℕ → List ℕ) → List ℕ → List ℕ
or_file none mapped file = file
or_file (some m) mapped file = mapped m

-- The bytes that `ReadFrom` reads from a position: of the mapped file, or of the file.
unfoldable pub read_window : Segment → ℕ → ℕ → List ℕ
read_window s position max_bytes =
    or_file s.mmap (λ m. take (min (position + max_bytes) (length m) - position) (drop position m))
      (take (min max_bytes (s.size - position)) (drop position s.log))

-- Its loop: the batches that end behind `offset`.
unfoldable pub batches_from : Codec → ℕ → ℕ → List ℕ → Result (List RecordBatch)
batches_from c zero offset buf = unending
batches_from c (suc fuel) offset buf =
    if length buf == 0
    then ok []
    else at_size buf []
        (λ n.
          at_batch []
            (λ b. batches_from c fuel offset (drop n buf) >>= λ rest.
              ok (if ltb offset (end_offset b) then b ∷ rest else rest))
            (decode_batch c (take n buf)))
        (batch_size buf)

-- Whether `ReadFrom` has a file to read bytes of.
abbrev pub can_read : Segment → Bool
can_read s = s.file_open || is_some s.mmap

unfoldable pub read_from : Codec → Segment → ℕ → ℕ → Result (List RecordBatch)
read_from c s offset max_bytes =
    let buf = read_window s (lookup s.index offset).0 max_bytes in
    if can_read s || (length buf == 0)
    then batches_from c (suc (length buf)) offset buf
    else err BatchError.file_closed

unfoldable pub read_raw_bytes : Segment → Result (List ℕ)
read_raw_bytes s =
    let buf = or_file s.mmap (λ m. m) (take s.size s.log) in
    if can_read s || (length buf == 0) then ok buf else err BatchError.file_closed

-- `Close`, whatever errors it meets on the way.
unfoldable pub close_segment : Segment → Segment
close_segment s = record s { mmap = none; file_open = false }

-- `Remove`, and whether it answers no error: a log file that is closed cannot be synced again.
-- `removed` is what the system does with the calls.
unfoldable pub remove_segment : Segment → Bool → Segment × Bool
remove_segment s removed = (close_segment s, s.file_open && removed)

unfoldable pub segment_is_full : SegmentConfig → Segment → ℤ → Bool
segment_is_full cfg s now =
    leb cfg.max_segment_bytes s.size
    || (ltb 0 cfg.max_segment_age && leb_ℤ (pos cfg.max_segment_age) (now -ℤ s.created))
