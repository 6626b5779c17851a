-- ===== src/Mq/Forge/CommitLog/Tests.antt =====
-- The theorems on the log at one of two segments.
use go_common.Common.{
  ℕ, ◌+◌, ◌%◌, ◌^◌, ◌≡◌, refl, Bool, true, false, Option, none, some, List, [], ◌∷◌, ◌++◌, length,
  length-append, arith, ◌⊎◌, inr, if◌then◌else◌, ◌==◌,
}
use go_common.Common.Int.{ℤ, pos}
use go_common.Mq.Forge.Sample.{
  storing, storing-CodecLaws, first_record, first_record-RecordFits, two_records, two_records_bytes,
  two_records-Holds,
}
use go_common.Mq.Forge.Sample.Log.{
  one_batch, cut_off, crashed_log, one_entry, length_bytes, cut_off-Tail, first_entry-Mark, limits,
  one_segment, one_segment-IsSegment, unsynced,
}
use go_common.Mq.Forge.Batch.{
  ok, RecordBatch, covered, frame, append_records, encode_batch, payload_of, lz4_payload,
}
use go_common.Mq.Forge.Batch.Payload.{BatchFits, all_none, all_cons}
use go_common.Mq.Forge.Record.{append_record, append_headers, body_size, headers_size}
use go_common.Mq.Forge.Record.RoundTrip.{RecordFits}
use go_common.Mq.Forge.Varint.{
  put_varint, put_uvarint, zigzag, append_varint, append_varint_bytes, varint_size,
  varint_bytes_size, size_loop,
}
use go_common.Mq.Forge.Batch.{put_be}
use go_common.Mq.Forge.Index.{Index}
use go_common.Mq.Forge.Segment.{Segment, Outcome, count_in, segment_is_full}
use go_common.Mq.Forge.Segment.Stored.{Stored}
use go_common.Mq.Forge.Segment.Cuts.{whole}
use go_common.Mq.Forge.CommitLog.{
  LogConfig, CommitLog, not_written, done, failed, World, assigned, append, new_commit_log,
}
use go_common.Mq.Forge.CommitLog.Chain.{chain_end, IsLog, flatten}
use go_common.Mq.Forge.CommitLog.Append.{append-IsLog}
use go_common.Mq.Forge.CommitLog.Failures.{
  is_done, append-next_offset, failed_sync, append-sync_failed,
}
use go_common.Mq.Forge.CommitLog.Load.{Files, no_file, next_file, new_commit_log-IsLog}

abbrev empty_index : ℕ → Index
empty_index base = record {
  file = [];
  cursor = 0;
  entries = [];
  base_offset = base;
  dirty_from = 0;
}

abbrev all_well : Outcome
all_well = record { write_failed = none; log_synced = true; index_failed = none }

abbrev new_files : World
new_files = record {
  disk = λ base. some ([], empty_index base, pos 9);
  now = pos 9;
  mapped = true;
  outcome = all_well;
}

abbrev small_segments : LogConfig
small_segments = record {
  segment = record {
    max_segment_bytes = 10;
    max_segment_age = 0;
    index_interval = 4096;
    fsync_every = 1;
  };
  retention_time = 100;
  retention_bytes = 60;
}

abbrev one_log : CommitLog
one_log = record { older = []; active = one_segment; next_offset = 1002; closed = false }

one_log-IsLog : IsLog storing one_log [] one_batch
one_log-IsLog = record {
  oldest = 1000;
  older = chain_end;
  active = one_segment-IsSegment;
  next = refl;
  unsealed = refl;
}

abbrev next_batch : RecordBatch
next_batch = assigned 1002 two_records

abbrev next_bytes : List ℕ
next_bytes = frame storing next_batch 1 (1 ∷ append_records [] next_batch.records)

next_encoded : encode_batch storing next_batch ≡ ok next_bytes
unfolding encode_batch payload_of lz4_payload
next_encoded = refl

second_record-RecordFits : RecordFits (record first_record { offset_delta = pos 1 })
unfolding put_varint put_uvarint zigzag
second_record-RecordFits = record {
  timestamp_delta = (omega arith, omega arith);
  offset_delta = (omega arith, omega arith);
  few_headers = omega arith;
  short = omega arith;
}

next_batch-BatchFits : BatchFits next_batch
unfolding append_records append_record append_headers append_varint_bytes append_varint put_varint
    put_uvarint zigzag body_size varint_size size_loop varint_bytes_size headers_size
next_batch-BatchFits = record {
  base_offset = omega arith;
  counted = refl;
  not_empty = omega arith;
  few = omega arith;
  compression = omega arith;
  timestamp = (omega arith, omega arith);
  max_timestamp = (omega arith, omega arith);
  records = all_cons first_record-RecordFits (all_cons second_record-RecordFits all_none);
  short = omega arith;
}

append-IsLog_example :
    (actual : ℕ) × (ess' : List (List Stored)) × (es' : List Stored) × ((append small_segments
        storing new_files one_log two_records).1
      ≡ done 1002)
    × IsLog storing (append small_segments storing new_files one_log two_records).0 ess' es'
    × (flatten ess' ++ es'
        ≡ one_batch ++ ((record next_batch { compression = actual }, next_bytes) ∷ []))
    × ((append small_segments storing new_files one_log two_records).0.next_offset
        ≡ 1002 + length two_records.records)
append-IsLog_example =
    append-IsLog small_segments storing new_files one_log [] one_batch two_records next_bytes
      storing-CodecLaws one_log-IsLog
      (record {
        open_log = refl;
        fits = next_batch-BatchFits;
        encoded = next_encoded;
        few = omega arith;
        in_range = omega arith;
      })
      (refl, refl, refl)
      (inr (record {
        index = empty_index 1002;
        time = pos 9;
        found = refl;
        no_entries = refl;
        index_base = refl;
      }))

append-next_offset_example :
    (((append small_segments storing new_files one_log two_records).1 ≡ done 1002)
      × ((append small_segments storing new_files one_log two_records).0.next_offset
          ≡ (1002 + length two_records.records % 2 ^ 16) % 2 ^ 64))
    ⊎ ((is_done (append small_segments storing new_files one_log two_records).1 ≡ false)
        × ((append small_segments storing new_files one_log two_records).0.next_offset ≡ 1002))
append-next_offset_example = append-next_offset small_segments storing new_files one_log two_records

abbrev large_segments : LogConfig
large_segments = record { segment = limits; retention_time = 100; retention_bytes = 60 }

abbrev failing : World
failing = record new_files { outcome = unsynced }

has_room : segment_is_full limits one_segment (pos 9) ≡ false
unfolding segment_is_full
has_room = ground (arith, length_bytes, length-append two_records_bytes [])

next_length : length next_bytes ≡ 50
unfolding frame covered put_be append_records append_record append_headers append_varint_bytes
    append_varint put_varint put_uvarint zigzag body_size varint_size size_loop varint_bytes_size
    headers_size
next_length = refl

still_room :
    segment_is_full limits
      (append large_segments storing failing one_log two_records).0.active
      (pos 9)
    ≡ false
unfolding segment_is_full
still_room =
    rw
      (failed_sync large_segments storing failing one_log two_records next_bytes refl (omega arith)
        next_encoded has_room refl refl (omega arith) (omega arith))
      (unfold count_in in
        ground (arith, length_bytes, next_length, length-append two_records_bytes []))

append-sync_failed_example :
    ((append large_segments storing failing one_log two_records).1 ≡ failed not_written)
    × ((append large_segments storing failing one_log two_records).0.next_offset ≡ 1002)
    × ((append large_segments storing failing one_log two_records).0.active.next_offset
        ≡ (1002 + length two_records.records % 2 ^ 16) % 2 ^ 64)
    × ((append large_segments storing failing one_log two_records).0.active.log
        ≡ one_segment.log ++ next_bytes)
    × ((append large_segments storing new_files
          (append large_segments storing failing one_log two_records).0
          two_records).1
        ≡ done 1002)
    × ((append large_segments storing new_files
          (append large_segments storing failing one_log two_records).0
          two_records).0.active.log
        ≡ (one_segment.log ++ next_bytes) ++ next_bytes)
append-sync_failed_example =
    append-sync_failed large_segments storing failing new_files one_log two_records two_records
      next_bytes next_bytes refl (omega arith) (omega arith) next_encoded next_encoded has_room
      still_room refl refl (omega arith) (omega arith) (refl, refl, refl)

-- An empty segment behind the one batch.
abbrev next_segment : Segment
next_segment = record {
  log = [];
  index = empty_index 1002;
  base_offset = 1002;
  size = 0;
  created = pos 500;
  next_offset = 1002;
  bytes_since_index = 0;
  batches_since_sync = 0;
  mmap = none;
  file_open = true;
}

abbrev two_segments : CommitLog
two_segments = record {
  older = one_segment ∷ [];
  active = next_segment;
  next_offset = 1002;
  closed = false;
}

abbrev always : Segment → Bool
always s = true

abbrev files_at : ℕ → Option (List ℕ × Index × ℤ)
files_at base =
    if base == 1000
    then some (crashed_log, one_entry, pos 5)
    else some ([], empty_index base, pos 9)

abbrev crashed_files : World
crashed_files = record new_files { disk = files_at }

crashed_log-Files : Files storing crashed_files 1000 (1000 ∷ 1002 ∷ []) (one_batch ∷ [] ∷ []) 1002
crashed_log-Files =
    next_file
      (record {
        log = crashed_log;
        tail = cut_off;
        index = one_entry;
        time = pos 5;
        found = refl;
        bytes = refl;
        hold = (two_records-Holds, tt);
        small = (omega (arith, length_bytes), tt);
        is_tail = cut_off-Tail;
        contiguous = (refl, omega arith, refl);
        marks = (first_entry-Mark, tt);
        index_base = refl;
        few = omega arith;
        in_range = omega arith;
      })
      (next_file
        (record {
          log = [];
          tail = [];
          index = empty_index 1002;
          time = pos 9;
          found = refl;
          bytes = refl;
          hold = tt;
          small = tt;
          is_tail = whole;
          contiguous = refl;
          marks = tt;
          index_base = refl;
          few = omega arith;
          in_range = omega arith;
        })
        no_file)

new_commit_log-IsLog_example :
    (cl : CommitLog) × (ess' : List (List Stored)) × (es' : List Stored) × (new_commit_log storing
        crashed_files
        (1002 ∷ 1000 ∷ [])
      ≡ done cl)
    × IsLog storing cl ess' es'
    × (flatten ess' ++ es' ≡ one_batch ++ [])
    × (cl.next_offset ≡ 1002)
    × (cl.closed ≡ false)
new_commit_log-IsLog_example =
    new_commit_log-IsLog storing crashed_files (1002 ∷ 1000 ∷ []) 1000 (1002 ∷ [])
      (one_batch ∷ [] ∷ []) 1002 refl crashed_log-Files
