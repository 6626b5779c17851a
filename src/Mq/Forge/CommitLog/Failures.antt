-- ===== src/Mq/Forge/CommitLog/Failures.antt =====
-- What `Append` leaves behind when it answers an error.
use go_common.Common.{
  ℕ, ◌+◌, ◌%◌, ◌^◌, ◌≤◌, ◌<◌, ◌≡◌, refl, ap, ◌∙◌, Bool, true, false, none, List, ◌++◌, arith,
  length, Bool-cases, inl, inr, ◌⊎◌, ◌&&◌, ltb, leb,
}
use go_common.Mq.Forge.Batch.{Codec, Result, ok, err, panic, unending, RecordBatch, encode_batch}
use go_common.Mq.Forge.Index.{Index, sync}
use go_common.Mq.Forge.Segment.{
  SegmentConfig, Segment, Outcome, count_in, index_synced, sync_after, append_batch,
  segment_is_full,
}
use go_common.Mq.Forge.CommitLog.{
  LogConfig, CommitLog, not_written, Reply, done, failed, crashed, hangs, World,
  max_records_per_batch, opened, with_segment, new_segment, assigned, roll, count_batch,
  append_encoded, append_result, append,
}
use go_common.Mq.Forge.CommitLog.Append.{AllWell, sync_after-true}

abbrev pub is_done {ℓ} : {A : Type ℓ} → Reply A → Bool
is_done (done a) = true
is_done _ = false

-- Either the offset is given and counted on, or nothing is answered and it stays.
Counted : CommitLog → RecordBatch → CommitLog × Reply ℕ → Type 0
Counted cl b r =
    ((r.1 ≡ done b.base_offset) × (r.0.next_offset ≡ (cl.next_offset + b.record_count) % 2 ^ 64))
    ⊎ ((is_done r.1 ≡ false) × (r.0.next_offset ≡ cl.next_offset))

with_segment-next :
    (cl : CommitLog) (r : Reply Segment) → (with_segment cl r).0.next_offset ≡ cl.next_offset
with_segment-next cl (done s) = refl
with_segment-next cl (failed e) = refl
with_segment-next cl crashed = refl
with_segment-next cl hangs = refl

roll-next :
    (cfg : LogConfig) (c : Codec) (w : World) (cl : CommitLog) (base : ℕ)
    → (roll cfg c w cl base).0.next_offset ≡ cl.next_offset
unfolding roll new_segment
roll-next cfg c w cl base = elim (Bool-cases (segment_is_full cfg.segment cl.active w.now)) [
  | inr f ↦ rw f refl
  | inl t ↦ rw t (with_segment-next _ (opened c w.now base (w.disk base)))
]

count_batch-Counted :
    (cl : CommitLog) (b : RecordBatch) (r : Segment × Bool) → Counted cl b (count_batch cl b r)
unfolding Counted
count_batch-Counted cl b (s, true) = inl (refl, refl)
count_batch-Counted cl b (s, false) = inr (refl, refl)

append_encoded-Counted :
    (cfg : LogConfig) (w : World) (cl : CommitLog) (bs : List ℕ) (b : RecordBatch)
    (r : CommitLog × Reply (Unit {0}))
    → r.0.next_offset ≡ cl.next_offset
    → Counted cl b (append_encoded cfg w bs b r)
unfolding Counted
append_encoded-Counted cfg w cl bs b (cl', done u) h =
    elim (count_batch-Counted cl' b (append_batch cfg.segment cl'.active bs b w.outcome)) [
      | inl k ↦ inl (k.0, k.1 ∙ ap (λ n. (n + b.record_count) % 2 ^ 64) h)
      | inr k ↦ inr (k.0, k.1 ∙ h)
    ]
append_encoded-Counted cfg w cl bs b (cl', failed e) h = inr (refl, h)
append_encoded-Counted cfg w cl bs b (cl', crashed) h = inr (refl, h)
append_encoded-Counted cfg w cl bs b (cl', hangs) h = inr (refl, h)

append_result-Counted :
    (cfg : LogConfig) (c : Codec) (w : World) (cl : CommitLog) (b : RecordBatch)
    (r : Result (List ℕ))
    → Counted cl b (append_result cfg c w cl b r)
unfolding Counted
append_result-Counted cfg c w cl b (ok bs) =
    append_encoded-Counted cfg w cl bs b (roll cfg c w cl b.base_offset)
      (roll-next cfg c w cl b.base_offset)
append_result-Counted cfg c w cl b (err e) = inr (refl, refl)
append_result-Counted cfg c w cl b panic = inr (refl, refl)
append_result-Counted cfg c w cl b unending = inr (refl, refl)

-- Appending to any log: either the answer is the log's next offset, which moves on by the number of
-- records, or no offset is answered, be it for an error, a panic or a loop that the model gave up, and
-- the next offset stays where it is.
pub append-next_offset :
    (cfg : LogConfig) (c : Codec) (w : World) (cl : CommitLog) (b : RecordBatch)
    → (((append cfg c w cl b).1 ≡ done cl.next_offset)
        × ((append cfg c w cl b).0.next_offset
            ≡ (cl.next_offset + length b.records % 2 ^ 16) % 2 ^ 64))
      ⊎ ((is_done (append cfg c w cl b).1 ≡ false)
          × ((append cfg c w cl b).0.next_offset ≡ cl.next_offset))
unfolding append Counted
append-next_offset cfg c w cl b = elim (Bool-cases (cl.closed)) [
  | inl t ↦ simp t (inr (refl, refl))
  | inr t ↦ elim (Bool-cases (ltb max_records_per_batch (length b.records))) [
    | inl u ↦ simp (t, u) (inr (refl, refl))
    | inr u ↦
        simp (t, u)
          (append_result-Counted cfg c w cl (assigned cl.next_offset b)
            (encode_batch c (assigned cl.next_offset b)))
  ]
]

sync_after-failed :
    (cfg : SegmentConfig) (s : Segment) (o : Outcome)
    → (ltb 0 cfg.fsync_every && leb cfg.fsync_every s.batches_since_sync) ≡ true
    → o.log_synced ≡ false
    → sync_after cfg s o ≡ (s, false)
unfolding sync_after
sync_after-failed cfg s o t f = simp (t, f) refl

index_synced-log : (s : Segment) (r : Index × Bool) → (index_synced s r).0.log ≡ s.log
index_synced-log s (idx, true) = refl
index_synced-log s (idx, false) = refl

sync_after-log :
    (cfg : SegmentConfig) (s : Segment) (o : Outcome) → (sync_after cfg s o).0.log ≡ s.log
unfolding sync_after
sync_after-log cfg s o =
    elim (Bool-cases (ltb 0 cfg.fsync_every && leb cfg.fsync_every s.batches_since_sync)) [
      | inr f ↦ rw f refl
      | inl t ↦ elim (Bool-cases o.log_synced) [
        | inr f' ↦ rw (t, f') refl
        | inl t' ↦ rw (t, t') (index_synced-log s (sync s.index o.index_failed))
      ]
    ]

-- A segment that has its batch, as the log counts it.
count_batch-done :
    (cl : CommitLog) (b : RecordBatch) (r : Segment × Bool)
    → r.1 ≡ true
    → ((count_batch cl b r).1 ≡ done b.base_offset) × ((count_batch cl b r).0.active ≡ r.0)
count_batch-done cl b (s, true) h = (refl, refl)
count_batch-done cl b (s, false) h = absurd (ground arith)

-- A batch appended to a segment that is not full, when nothing fails.
append_lem :
    (cfg : LogConfig) (c : Codec) (w : World) (cl : CommitLog) (b : RecordBatch) (bs : List ℕ)
    → cl.closed ≡ false
    → length b.records ≤ max_records_per_batch
    → encode_batch c (assigned cl.next_offset b) ≡ ok bs
    → segment_is_full cfg.segment cl.active w.now ≡ false
    → AllWell w.outcome
    → ((append cfg c w cl b).1 ≡ done cl.next_offset)
      × ((append cfg c w cl b).0.active.log ≡ cl.active.log ++ bs)
unfolding append roll append_batch count_in
append_lem cfg c w cl b bs o small enc room well =
    let s = count_in cfg.segment cl.active bs (assigned cl.next_offset b) in
    let few : ltb max_records_per_batch (length b.records) ≡ false = ground arith in
    let k =
      count_batch-done cl (assigned cl.next_offset b) (sync_after cfg.segment s w.outcome)
        (sync_after-true cfg.segment s w.outcome well) in
    let kept = sync_after-log cfg.segment s w.outcome in
    simp (o, few, enc, room, well.0) (k.0, ap (λ s. s.log) k.1 ∙ kept)

pub failed_sync :
    (cfg : LogConfig) (c : Codec) (w : World) (cl : CommitLog) (b : RecordBatch) (bs : List ℕ)
    → cl.closed ≡ false
    → length b.records ≤ max_records_per_batch
    → encode_batch c (assigned cl.next_offset b) ≡ ok bs
    → segment_is_full cfg.segment cl.active w.now ≡ false
    → w.outcome.write_failed ≡ none
    → w.outcome.log_synced ≡ false
    → 0 < cfg.segment.fsync_every
    → cfg.segment.fsync_every ≤ cl.active.batches_since_sync + 1
    → append cfg c w cl b ≡ (
      record cl { active = count_in cfg.segment cl.active bs (assigned cl.next_offset b) },
      failed not_written,
    )
unfolding append roll append_batch count_in
failed_sync cfg c w cl b bs o small enc room written unsynced some_every due =
    let s = count_in cfg.segment cl.active bs (assigned cl.next_offset b) in
    let few : ltb max_records_per_batch (length b.records) ≡ false = ground arith in
    let t : (ltb 0 cfg.segment.fsync_every
          && leb cfg.segment.fsync_every (cl.active.batches_since_sync + 1))
        ≡ true =
      ground arith in
    let sync = sync_after-failed cfg.segment s w.outcome t unsynced in
    simp (o, few, enc, room, written, sync) refl

-- Two batches are appended to an open log of at most 65,535 records each, which both encode, to a
-- segment that is not full before either. The first is written, but the `Sync` of the file fails, which
-- is due: the answer is an error and the log's next offset stays, while the segment's is behind the
-- batch, and the bytes are in the segment. The second meets no failure: it gets the offset that the
-- first had, and its bytes stand behind those of the first, which was encoded with the same offset.
pub append-sync_failed :
    (cfg : LogConfig) (c : Codec) (w w' : World) (cl : CommitLog) (b b' : RecordBatch)
    (bs bs' : List ℕ)
    → cl.closed ≡ false
    → length b.records ≤ max_records_per_batch
    → length b'.records ≤ max_records_per_batch
    → encode_batch c (assigned cl.next_offset b) ≡ ok bs
    → encode_batch c (assigned cl.next_offset b') ≡ ok bs'
    → segment_is_full cfg.segment cl.active w.now ≡ false
    → segment_is_full cfg.segment (append cfg c w cl b).0.active w'.now ≡ false
    → w.outcome.write_failed ≡ none
    → w.outcome.log_synced ≡ false
    → 0 < cfg.segment.fsync_every
    → cfg.segment.fsync_every ≤ cl.active.batches_since_sync + 1
    → AllWell w'.outcome
    → ((append cfg c w cl b).1 ≡ failed not_written)
      × ((append cfg c w cl b).0.next_offset ≡ cl.next_offset)
      × ((append cfg c w cl b).0.active.next_offset
          ≡ (cl.next_offset + length b.records % 2 ^ 16) % 2 ^ 64)
      × ((append cfg c w cl b).0.active.log ≡ cl.active.log ++ bs)
      × ((append cfg c w' (append cfg c w cl b).0 b').1 ≡ done cl.next_offset)
      × ((append cfg c w' (append cfg c w cl b).0 b').0.active.log ≡ (cl.active.log ++ bs) ++ bs')
append-sync_failed cfg c w w' cl b b' bs bs' o small small' enc enc' room room' written unsynced
      some_every due well =
    let e = failed_sync cfg c w cl b bs o small enc room written unsynced some_every due in
    let cl' = record cl {
      active = count_in cfg.segment cl.active bs (assigned cl.next_offset b);
    } in
    let still : segment_is_full cfg.segment cl'.active w'.now ≡ false = rw e at room' in
    let k = append_lem cfg c w' cl' b' bs' o small' enc' still well in
    rw e (unfold count_in in (refl, refl, refl, refl, k.0, k.1))
