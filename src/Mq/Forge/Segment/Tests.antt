-- ===== src/Mq/Forge/Segment/Tests.antt =====
-- The theorems on segments at a log of one batch.
use go_common.Common.{
  ℕ, suc, ◌+◌, ◌<◌, ◌≡◌, refl, true, none, List, [], ◌∷◌, ◌++◌, length, replicate, arith,
  length-replicate, length-append, length-take, inl,
}
use go_common.Common.Int.{pos}
use go_common.Mq.Forge.Sample.{storing, two_records, two_records_bytes, two_records-Holds}
use go_common.Mq.Forge.Batch.{ok, unending, batch_size, get_be, be_from}
use go_common.Mq.Forge.Segment.{
  recover_chunk_size, Segment, scan_batches, recover_chunks, open_segment, append_batch,
}
use go_common.Mq.Forge.Segment.Stored.{Stored, log_bytes}
use go_common.Mq.Forge.Segment.Scan.{reached, scan_batches-log, at_torn}
use go_common.Mq.Forge.Segment.Chunks.{recover_chunks-log, recover_chunks-unending}
use go_common.Mq.Forge.Segment.Valid.{IsSegment, append_batch-IsSegment}
use go_common.Mq.Forge.Segment.Recover.{open_segment-IsSegment}
use go_common.Mq.Forge.Sample.Log.{
  one_batch, cut_off, crashed_log, one_entry, length_bytes, cut_off-Tail, first_entry-Mark, limits,
  unsynced,
}

crashed_length : length crashed_log < 1000
crashed_length = omega (
  arith,
  length_bytes,
  length-append (log_bytes one_batch) cut_off,
  length-append two_records_bytes [],
  length-take 40 two_records_bytes,
)

recover_chunks-log_example :
    recover_chunks storing 1000 crashed_log (length crashed_log) 0 [] 0 1000
    ≡ ok (reached 1000 one_batch, 0 + length (log_bytes one_batch))
recover_chunks-log_example =
    recover_chunks-log storing 1000 one_batch crashed_log cut_off 0 1000 (two_records-Holds, tt)
      (omega (arith, length_bytes), tt) cut_off-Tail (omega arith) refl
      (omega (arith, crashed_length))

open_segment-IsSegment_example :
    (s : Segment) × (open_segment storing 1000 crashed_log one_entry 1000 (pos 5) (pos 9) ≡ ok s)
    × IsSegment storing s one_batch
    × (s.next_offset ≡ 1002)
    × (s.log ≡ log_bytes one_batch)
    × (s.base_offset ≡ 1000)
    × (s.mmap ≡ none)
open_segment-IsSegment_example =
    open_segment-IsSegment storing 1000 crashed_log cut_off one_entry 1000 1002 (pos 5) (pos 9)
      one_batch refl (two_records-Holds, tt) (omega (arith, length_bytes), tt) cut_off-Tail
      (refl, omega arith, refl) (first_entry-Mark, tt) refl (omega arith) (omega arith)
      (omega (arith, crashed_length))

abbrev filled : List ℕ
filled = replicate recover_chunk_size 255

nothing_fits : batch_size filled ≡ none
unfolding batch_size get_be be_from
nothing_fits = refl

filled-scan : scan_batches storing 7 filled ≡ ok (7, 0)
filled-scan = scan_batches-log storing 7 [] filled tt (at_torn nothing_fits)

recover_chunks-unending_example :
    recover_chunks storing 5
      (filled ++ (255 ∷ []))
      (suc recover_chunk_size)
      recover_chunk_size
      filled
      0
      7
    ≡ unending
recover_chunks-unending_example =
    recover_chunks-unending storing 5 (filled ++ (255 ∷ [])) filled (suc recover_chunk_size)
      recover_chunk_size 0 7 (omega arith) (length-replicate {A = ℕ} recover_chunk_size 255)
      filled-scan

abbrev empty_segment : Segment
empty_segment = record {
  log = [];
  index = record { file = []; cursor = 0; entries = []; base_offset = 1000; dirty_from = 0 };
  base_offset = 1000;
  size = 0;
  created = pos 5;
  next_offset = 1000;
  bytes_since_index = 0;
  batches_since_sync = 1;
  mmap = none;
  file_open = true;
}

empty_segment-IsSegment : IsSegment storing empty_segment []
empty_segment-IsSegment = record {
  log = refl;
  size = refl;
  hold = tt;
  contiguous = refl;
  marks = tt;
  index_base = refl;
  few = omega arith;
  in_range = omega arith;
  mapped = inl refl;
  usable = refl;
}

append_batch-IsSegment_example :
    IsSegment storing
      (append_batch limits empty_segment two_records_bytes two_records unsynced).0
      one_batch
append_batch-IsSegment_example =
    append_batch-IsSegment limits storing empty_segment [] two_records two_records_bytes unsynced
      empty_segment-IsSegment
      (record {
        held = two_records-Holds;
        follows = refl;
        some_records = omega arith;
        few = omega arith;
        in_range = omega arith;
        active = refl;
      })
      refl
