-- ===== src/Mq/Forge/CommitLog.antt =====
-- pkg/mq/forge/commit_log.go: the log as segments. `activeSegment` is the last of `segments`, as
-- NewCommitLog and newSegment make it and no operation changes; `older` are the others. The directory's
-- files and what the system answers are arguments. Staging files of a merge are left out.
pub mod Chain
pub mod Append
pub mod Failures
pub mod Find
pub mod Retain
pub mod Retention
pub mod Load
mod Tests
use go_common.Common.{
  ℕ, zero, suc, ◌+◌, ◌-◌, ◌%◌, ◌^◌, Bool, true, false, not, Option, none, some, List, [], ◌∷◌, ◌++◌,
  ltb, leb, ◌==◌, ◌||◌, ◌&&◌, if◌then◌else◌, length,
}
use go_common.Common.Int.{ℤ, pos, ◌-ℤ◌, ltb_ℤ}
use go_common.Mq.Forge.Record.{Record}
use go_common.Mq.Forge.Batch.{
  Codec, Result, ok, err, panic, unending, BatchError, RecordBatch, encode_batch,
}
use go_common.Mq.Forge.Index.{Index}
use go_common.Mq.Forge.Segment.{
  SegmentConfig, Segment, Outcome, open_segment, seal, append_batch, read_from, close_segment,
  remove_segment, segment_is_full,
}

pub record LogConfig : Type 0 where
  pub segment : SegmentConfig
  pub retention_time : ℕ
  pub retention_bytes : ℕ

pub record CommitLog : Type 0 where
  pub older : List Segment
  pub active : Segment
  pub next_offset : ℕ
  pub closed : Bool

pub data LogError : Type 0 where
  resource_closed : LogError
  batch_too_large : LogError
  refused : BatchError → LogError
  not_opened : LogError
  not_written : LogError
  not_removed : LogError

-- `crashed` is a panic; `hangs` is a loop that the model gave up.
pub data Reply {ℓ} (A : Type ℓ) : Type ℓ where
  done : A → Reply A
  failed : LogError → Reply A
  crashed : Reply A
  hangs : Reply A

-- What opening the files of a base offset meets: the log's bytes, the index and the time of the last
-- change; `none` is an error.
abbrev pub Disk : Type 0
Disk = ℕ → Option (List ℕ × Index × ℤ)

-- What the system does in one call.
pub record World : Type 0 where
  pub disk : Disk
  pub now : ℤ
  pub mapped : Bool
  pub outcome : Outcome

abbrev pub max_records_per_batch : ℕ
max_records_per_batch = 65535

abbrev pub reply {ℓ} : {A : Type ℓ} → Result A → Reply A
reply (ok a) = done a
reply (err e) = failed (refused e)
reply panic = crashed
reply unending = hangs

-- `openSegment`, with the fuel for its loop.
abbrev pub opened : Codec → ℤ → ℕ → Option (List ℕ × Index × ℤ) → Reply Segment
opened c now base none = failed not_opened
opened c now base (some (log, index, mod_time)) =
    reply (open_segment c (suc (length log)) log index base mod_time now)

-- `newSegment`.
abbrev pub with_segment : CommitLog → Reply Segment → CommitLog × Reply (Unit {0})
with_segment cl (done s) = (record cl { older = cl.older ++ (cl.active ∷ []); active = s }, done tt)
with_segment cl (failed e) = (cl, failed e)
with_segment cl crashed = (cl, crashed)
with_segment cl hangs = (cl, hangs)

unfoldable pub new_segment : Codec → World → CommitLog → ℕ → CommitLog × Reply (Unit {0})
new_segment c w cl base = with_segment cl (opened c w.now base (w.disk base))

-- `Records[i].OffsetDelta = int64(i)`, from `i`.
abbrev pub numbered : ℕ → List Record → List Record
numbered i [] = []
numbered i (r ∷ rs) = record r { offset_delta = pos i } ∷ numbered (suc i) rs

-- The batch with its offsets.
abbrev pub assigned : ℕ → RecordBatch → RecordBatch
assigned base b = record b {
  base_offset = base;
  records = numbered 0 b.records;
  record_count = length b.records % 2 ^ 16;
}

-- A full segment is sealed, and a new one takes its place.
unfoldable pub roll : LogConfig → Codec → World → CommitLog → ℕ → CommitLog × Reply (Unit {0})
roll cfg c w cl base =
    if segment_is_full cfg.segment cl.active w.now
    then new_segment c w (record cl { active = seal cl.active w.mapped }) base
    else (cl, done tt)

abbrev pub count_batch : CommitLog → RecordBatch → Segment × Bool → CommitLog × Reply ℕ
count_batch cl b (s, true) = (
  record cl { active = s; next_offset = (cl.next_offset + b.record_count) % 2 ^ 64 },
  done b.base_offset,
)
count_batch cl b (s, false) = (record cl { active = s }, failed not_written)

abbrev pub append_encoded :
    LogConfig → World → List ℕ → RecordBatch → CommitLog × Reply (Unit {0}) → CommitLog × Reply ℕ
append_encoded cfg w encoded b (cl, done _) =
    count_batch cl b (append_batch cfg.segment cl.active encoded b w.outcome)
append_encoded cfg w encoded b (cl, failed e) = (cl, failed e)
append_encoded cfg w encoded b (cl, crashed) = (cl, crashed)
append_encoded cfg w encoded b (cl, hangs) = (cl, hangs)

abbrev pub append_result :
    LogConfig → Codec → World → CommitLog → RecordBatch → Result (List ℕ) → CommitLog × Reply ℕ
append_result cfg c w cl b (ok encoded) =
    append_encoded cfg w encoded b (roll cfg c w cl b.base_offset)
append_result cfg c w cl b (err e) = (cl, failed (refused e))
append_result cfg c w cl b panic = (cl, crashed)
append_result cfg c w cl b unending = (cl, hangs)

-- `Append`: the base offset of the batch.
unfoldable pub append : LogConfig → Codec → World → CommitLog → RecordBatch → CommitLog × Reply ℕ
append cfg c w cl b =
    let b' = assigned cl.next_offset b in
    if cl.closed
    then (cl, failed resource_closed)
    else if ltb max_records_per_batch (length b.records)
    then (cl, failed batch_too_large)
    else append_result cfg c w cl b' (encode_batch c b')

-- `findSegment`: the segment before the first whose base offset is greater, or the first.
unfoldable pub segment_before : ℕ → Segment → List Segment → Segment
segment_before offset last [] = last
segment_before offset last (s ∷ ss) =
    let later = segment_before offset s ss in if ltb offset s.base_offset then last else later

abbrev pub find_in : ℕ → List Segment → Segment → Segment
find_in offset [] active = active
find_in offset (s ∷ ss) active = segment_before offset s (ss ++ (active ∷ []))

abbrev pub find_segment : CommitLog → ℕ → Segment
find_segment cl offset = find_in offset cl.older cl.active

-- `Read`.
unfoldable pub read : Codec → CommitLog → ℕ → ℕ → Reply (List RecordBatch)
read c cl offset max_bytes =
    if cl.closed
    then failed resource_closed
    else reply (read_from c (find_segment cl offset) offset max_bytes)

abbrev pub first_base : List Segment → Segment → ℕ
first_base [] active = active.base_offset
first_base (s ∷ ss) active = s.base_offset

abbrev pub oldest_offset : CommitLog → ℕ
oldest_offset cl = first_base cl.older cl.active

abbrev pub newest_offset : CommitLog → ℕ
newest_offset cl = cl.next_offset

-- A loop that removes segments: those that it keeps, all of them as it leaves them, and whether one
-- could not be removed, which ends it.
pub record Swept : Type 0 where
  pub kept : List Segment
  pub all : List Segment
  pub stopped : Bool

abbrev pub keep_segment : Segment → Swept → Swept
keep_segment s rest = record { kept = s ∷ rest.kept; all = s ∷ rest.all; stopped = rest.stopped }

-- After a call of `Remove`, with the segments `ss` behind it.
abbrev pub after_remove : List Segment → Segment × Bool → Swept → Swept
after_remove ss (s, true) rest = record {
  kept = rest.kept;
  all = s ∷ rest.all;
  stopped = rest.stopped;
}
after_remove ss (s, false) rest = record { kept = []; all = s ∷ ss; stopped = true }

-- The loop of `DeleteBefore` over the segments but the active one, which it keeps. `removes` is what
-- the system does with the calls of `Remove`.
unfoldable pub delete_older : (Segment → Bool) → ℕ → List Segment → Swept
delete_older removes offset [] = record { kept = []; all = []; stopped = false }
delete_older removes offset (s ∷ ss) =
    let rest = delete_older removes offset ss in
    if leb s.next_offset offset
    then after_remove ss (remove_segment s (removes s)) rest
    else keep_segment s rest

-- On an error `cl.segments` stays as it is, with the segments that were closed.
abbrev pub with_older : CommitLog → Swept → CommitLog × Reply (Unit {0})
with_older cl r =
    if r.stopped
    then (record cl { older = r.all }, failed not_removed)
    else (record cl { older = r.kept }, done tt)

unfoldable pub delete_before : (Segment → Bool) → CommitLog → ℕ → CommitLog × Reply (Unit {0})
delete_before removes cl offset = with_older cl (delete_older removes offset cl.older)

abbrev pub total_size : List Segment → ℕ
total_size [] = 0
total_size (s ∷ ss) = s.size + total_size ss

-- The loop of `EnforceRetention`, likewise, with the total size of what is not removed.
unfoldable pub retain : LogConfig → (Segment → Bool) → ℤ → ℕ → List Segment → Swept
retain cfg removes cutoff total [] = record { kept = []; all = []; stopped = false }
retain cfg removes cutoff total (s ∷ ss) =
    let without = retain cfg removes cutoff (total - s.size) ss in
    let rest = retain cfg removes cutoff total ss in
    if ltb_ℤ s.created cutoff || ltb cfg.retention_bytes total
    then after_remove ss (remove_segment s (removes s)) without
    else keep_segment s rest

unfoldable pub enforce_retention :
    LogConfig → (Segment → Bool) → CommitLog → ℤ → CommitLog × Reply (Unit {0})
enforce_retention cfg removes cl now = with_older cl (
    retain cfg removes (now -ℤ pos cfg.retention_time) (total_size (cl.older ++ (cl.active ∷ [])))
      cl.older)

abbrev pub close_all : List Segment → List Segment
close_all [] = []
close_all (s ∷ ss) = close_segment s ∷ close_all ss

-- `Close`, whatever errors the segments answer.
unfoldable pub close : CommitLog → CommitLog
close cl =
    if cl.closed
    then cl
    else record cl { older = close_all cl.older; active = close_segment cl.active; closed = true }

-- `sort.Slice` of the base offsets.
abbrev pub insert : ℕ → List ℕ → List ℕ
insert n [] = n ∷ []
insert n (m ∷ ms) = if leb n m then n ∷ m ∷ ms else m ∷ insert n ms

abbrev pub sort : List ℕ → List ℕ
sort [] = []
sort (n ∷ ns) = insert n (sort ns)

abbrev pub before_others : Segment → Reply (List Segment) → Reply (List Segment)
before_others s (done ss) = done (s ∷ ss)
before_others s (failed e) = failed e
before_others s crashed = crashed
before_others s hangs = hangs

abbrev pub load_next : Reply Segment → Reply (List Segment) → Reply (List Segment)
load_next (done s) rest = before_others s rest
load_next (failed e) rest = failed e
load_next crashed rest = crashed
load_next hangs rest = hangs

-- The loop of `loadSegments`.
unfoldable pub load_segments : Codec → World → List ℕ → Reply (List Segment)
load_segments c w [] = done []
load_segments c w (base ∷ bases) =
    load_next (opened c w.now base (w.disk base)) (load_segments c w bases)

-- The segments as a log, all but the last sealed.
abbrev pub as_log : World → Segment → List Segment → CommitLog
as_log w s [] = record { older = []; active = s; next_offset = s.next_offset; closed = false }
as_log w s (s' ∷ ss) =
    let rest = as_log w s' ss in record rest { older = seal s w.mapped ∷ rest.older }

abbrev pub first_log : World → Reply Segment → Reply CommitLog
first_log w (done s) = done (as_log w s [])
first_log w (failed e) = failed e
first_log w crashed = crashed
first_log w hangs = hangs

abbrev pub loaded : Codec → World → Reply (List Segment) → Reply CommitLog
loaded c w (done []) = first_log w (opened c w.now 0 (w.disk 0))
loaded c w (done (s ∷ ss)) = done (as_log w s ss)
loaded c w (failed e) = failed e
loaded c w crashed = crashed
loaded c w hangs = hangs

-- `NewCommitLog` of a directory in which the `.log` files have these base offsets.
unfoldable pub new_commit_log : Codec → World → List ℕ → Reply CommitLog
new_commit_log c w bases = loaded c w (load_segments c w (sort bases))
