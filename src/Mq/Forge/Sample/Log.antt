-- ===== src/Mq/Forge/Sample/Log.antt =====
-- A segment of one batch, for the tests.
use go_common.Common.{true}
use go_common.Common.{ℕ, ◌≡◌, refl, none, List, [], ◌∷◌, ◌++◌, length, take, arith, false, inl}
use go_common.Common.Int.{pos}
use go_common.Mq.Forge.Sample.{storing, two_records, two_records_bytes, two_records-Holds}
use go_common.Mq.Forge.Batch.{put_be, frame, covered, append_records}
use go_common.Mq.Forge.Record.{append_record, append_headers, body_size, headers_size}
use go_common.Mq.Forge.Varint.{
  put_varint, put_uvarint, zigzag, append_varint, append_varint_bytes, varint_size,
  varint_bytes_size, size_loop,
}
use go_common.Mq.Forge.Index.{IndexEntry, Index}
use go_common.Mq.Forge.Segment.{SegmentConfig, Segment, Outcome}
use go_common.Mq.Forge.Segment.Stored.{Stored, log_bytes}
use go_common.Mq.Forge.Segment.Cuts.{Tail, torn}
use go_common.Mq.Forge.Segment.Valid.{Mark, IsSegment}

abbrev pub one_batch : List Stored
one_batch = (two_records, two_records_bytes) ∷ []

abbrev pub cut_off : List ℕ
cut_off = take 40 two_records_bytes

abbrev pub crashed_log : List ℕ
crashed_log = log_bytes one_batch ++ cut_off

abbrev pub first_entry : IndexEntry
first_entry = record { relative_offset = 0; position = 0 }

abbrev pub one_entry : Index
one_entry = record {
  file = [];
  cursor = 0;
  entries = first_entry ∷ [];
  base_offset = 1000;
  dirty_from = 0;
}

pub length_bytes : length two_records_bytes ≡ 50
unfolding frame covered put_be append_records append_record append_headers append_varint_bytes
    append_varint put_varint put_uvarint zigzag body_size varint_size size_loop varint_bytes_size
    headers_size
length_bytes = refl

pub cut_off-Tail : Tail storing cut_off
cut_off-Tail =
    torn two_records two_records_bytes 40 two_records-Holds (omega (arith, length_bytes))
      (omega (arith, length_bytes)) refl

pub first_entry-Mark : Mark 1000 one_batch first_entry
first_entry-Mark = record {
  before = [];
  here = (two_records, two_records_bytes);
  after = [];
  both = refl;
  position = refl;
  offset = refl;
}

abbrev pub limits : SegmentConfig
limits = record {
  max_segment_bytes = 1000;
  max_segment_age = 0;
  index_interval = 4096;
  fsync_every = 2;
}

abbrev pub one_segment : Segment
one_segment = record {
  log = two_records_bytes ++ [];
  index = one_entry;
  base_offset = 1000;
  size = length (two_records_bytes ++ []);
  created = pos 5;
  next_offset = 1002;
  bytes_since_index = 50;
  batches_since_sync = 1;
  mmap = none;
  file_open = true;
}

pub one_segment-IsSegment : IsSegment storing one_segment one_batch
one_segment-IsSegment = record {
  log = refl;
  size = refl;
  hold = (two_records-Holds, tt);
  contiguous = (refl, omega arith, refl);
  marks = (first_entry-Mark, tt);
  index_base = refl;
  few = omega arith;
  in_range = omega arith;
  mapped = inl refl;
  usable = refl;
}

abbrev pub unsynced : Outcome
unsynced = record { write_failed = none; log_synced = false; index_failed = none }
