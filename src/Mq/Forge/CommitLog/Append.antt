-- ===== src/Mq/Forge/CommitLog/Append.antt =====
-- `Append`: a batch put behind the others, in the active segment or in a new one.
use mathlib.Core.List.{append_assoc, append-nil}
use native.Mathlib.Nat.{mod-eq_of_lt}
use go_common.Common.{
  ℕ, suc, ◌+◌, ◌%◌, ◌^◌, ◌<◌, ◌≡◌, refl, sym, ap, subst, ◌∙◌, Bool, true, false, none, some, List,
  [], ◌∷◌, ◌++◌, arith, length, Bool-cases, inl, inr, ◌⊎◌, ◌&&◌, ltb, leb,
}
use go_common.Common.Int.{ℤ}
use go_common.Mq.Forge.Record.{Record}
use go_common.Mq.Forge.Batch.{Codec, ok, RecordBatch, encode_batch}
use go_common.Mq.Forge.Batch.Payload.{CodecLaws, BatchFits}
use go_common.Mq.Forge.Index.{Index, sync}
use go_common.Mq.Forge.Segment.{
  SegmentConfig, Segment, Outcome, end_offset, count_in, index_synced, sync_after, append_batch,
  segment_is_full, seal,
}
use go_common.Mq.Forge.Segment.Stored.{Stored, encode_batch-Holds}
use go_common.Mq.Forge.Segment.Valid.{AllMark, IsSegment, CanAppend, append_batch-IsSegment}
use go_common.Mq.Forge.Segment.Cuts.{whole}
use go_common.Mq.Forge.Segment.Recover.{open_segment-IsSegment}
use go_common.Mq.Forge.CommitLog.{
  LogConfig, CommitLog, Reply, done, World, max_records_per_batch, reply, with_segment, new_segment,
  numbered, assigned, roll, count_batch, append_encoded, append,
}
use go_common.Mq.Forge.CommitLog.Chain.{
  Chain, Chain-snoc, IsLog, flatten, flatten-snoc, seal-IsSegment, seal-base_offset,
  seal-next_offset,
}

-- The fields of a segment that syncing its files leaves.
record SameBut (s s' : Segment) : Type 0 where
  next : s'.next_offset ≡ s.next_offset
  base : s'.base_offset ≡ s.base_offset
  mmap : s'.mmap ≡ s.mmap

index_synced-SameBut : (s : Segment) (r : Index × Bool) → SameBut s (index_synced s r).0
index_synced-SameBut s (idx, true) = record { next = refl; base = refl; mmap = refl }
index_synced-SameBut s (idx, false) = record { next = refl; base = refl; mmap = refl }

sync_after-SameBut :
    (cfg : SegmentConfig) (s : Segment) (o : Outcome) → SameBut s (sync_after cfg s o).0
unfolding sync_after
sync_after-SameBut cfg s o =
    elim (Bool-cases (ltb 0 cfg.fsync_every && leb cfg.fsync_every s.batches_since_sync)) [
      | inr f ↦ rw f (record { next = refl; base = refl; mmap = refl })
      | inl t ↦ elim (Bool-cases o.log_synced) [
        | inr f' ↦ rw (t, f') (record { next = refl; base = refl; mmap = refl })
        | inl t' ↦ rw (t, t') (index_synced-SameBut s (sync s.index o.index_failed))
      ]
    ]

index_synced-true : (s : Segment) (r : Index × Bool) → r.1 ≡ true → (index_synced s r).1 ≡ true
index_synced-true s (idx, true) h = refl
index_synced-true s (idx, false) h = h

sync-true : (idx : Index) → (sync idx none).1 ≡ true
unfolding sync
sync-true idx = ground arith

-- Nothing fails.
abbrev pub AllWell : Outcome → Type 0
AllWell o = (o.write_failed ≡ none) × (o.log_synced ≡ true) × (o.index_failed ≡ none)

pub sync_after-true :
    (cfg : SegmentConfig) (s : Segment) (o : Outcome) → AllWell o → (sync_after cfg s o).1 ≡ true
unfolding sync_after
sync_after-true cfg s o w =
    elim (Bool-cases (ltb 0 cfg.fsync_every && leb cfg.fsync_every s.batches_since_sync)) [
      | inr f ↦ rw f refl
      | inl t ↦ rw t (
          rw (w.1) (
            index_synced-true s (sync s.index o.index_failed)
              (ap (λ i. (sync s.index i).1) w.2 ∙ sync-true s.index)))
    ]

-- A batch appended to the active segment of a log.
record Grown (c : Codec) (cl : CommitLog) (ess : List (List Stored)) (es : List Stored)
    (r : CommitLog × Reply ℕ) (b : RecordBatch) (bs : List ℕ) : Type 0 where
  answer : r.1 ≡ done b.base_offset
  valid : IsLog c r.0 ess (es ++ ((b, bs) ∷ []))
  next : r.0.next_offset ≡ cl.next_offset + b.record_count

pub append_batch-next :
    (cfg : SegmentConfig) (s : Segment) (bs : List ℕ) (b : RecordBatch) (o : Outcome)
    → o.write_failed ≡ none
    → ((append_batch cfg s bs b o).0.next_offset ≡ end_offset b)
      × ((append_batch cfg s bs b o).0.base_offset ≡ s.base_offset)
      × ((append_batch cfg s bs b o).0.mmap ≡ s.mmap)
      × ((append_batch cfg s bs b o).1 ≡ (sync_after cfg (count_in cfg s bs b) o).1)
unfolding append_batch count_in
append_batch-next cfg s bs b o w =
    let k = sync_after-SameBut cfg (count_in cfg s bs b) o in simp w (k.next, k.base, k.mmap, refl)

count_batch-true :
    (cl : CommitLog) (b : RecordBatch) (r : Segment × Bool)
    → r.1 ≡ true
    → count_batch cl b r ≡ (
      record cl { active = r.0; next_offset = (cl.next_offset + b.record_count) % 2 ^ 64 },
      done b.base_offset,
    )
count_batch-true cl b (s, true) h = refl
count_batch-true cl b (s, false) h = absurd (ground arith)

-- The compression of a batch is nothing that appending its bytes looks at.
append_batch-compression :
    (cfg : SegmentConfig) (s : Segment) (bs : List ℕ) (b : RecordBatch) (o : Outcome) (actual : ℕ)
    → append_batch cfg s bs (record b { compression = actual }) o ≡ append_batch cfg s bs b o
unfolding append_batch count_in
append_batch-compression cfg s bs b o actual = refl

-- What a batch needs to be appended.
pub record Appendable (c : Codec) (cl : CommitLog) (b : RecordBatch) (bs : List ℕ) : Type 0 where
  pub open_log : cl.closed ≡ false
  pub fits : BatchFits (assigned cl.next_offset b)
  pub encoded : encode_batch c (assigned cl.next_offset b) ≡ ok bs
  pub few : cl.next_offset + length b.records < cl.active.base_offset + 2 ^ 32
  pub in_range : cl.next_offset + length b.records < 2 ^ 64

count_batch-IsLog :
    (cfg : LogConfig) (c : Codec) (w : World) (cl : CommitLog) (ess : List (List Stored))
    (es : List Stored) (b : RecordBatch) (bs : List ℕ) (actual : ℕ)
    → IsLog c cl ess es
    → CanAppend c cl.active (record b { compression = actual }) bs
    → AllWell w.outcome
    → Grown c cl ess es
        (count_batch cl b (append_batch cfg.segment cl.active bs b w.outcome))
        (record b { compression = actual })
        bs
count_batch-IsLog cfg c w cl ess es b bs actual h k well =
    let r = append_batch cfg.segment cl.active bs b w.outcome in
    let same = append_batch-compression cfg.segment cl.active bs b w.outcome actual in
    let fields = append_batch-next cfg.segment cl.active bs b w.outcome well.0 in
    let fine : r.1 ≡ true =
      fields.3 ∙ sync_after-true cfg.segment (count_in cfg.segment cl.active bs b) w.outcome well in
    let valid =
      append_batch-IsSegment cfg.segment c cl.active es (record b { compression = actual }) bs
        w.outcome h.active k well.0 in
    let stored = es ++ ((record b { compression = actual }, bs) ∷ []) in
    let valid' : IsSegment c r.0 stored = subst (λ p. IsSegment c p.0 stored) same valid in
    let end : (cl.next_offset + b.record_count) % 2 ^ 64 ≡ cl.next_offset + b.record_count =
      mod-eq_of_lt (omega (arith, h.next, k.in_range)) in
    let next : r.0.next_offset ≡ (cl.next_offset + b.record_count) % 2 ^ 64 =
      fields.0 ∙ ap (λ n. (n + b.record_count) % 2 ^ 64) (k.follows ∙ h.next) in
    let log : IsLog c
        (record cl { active = r.0; next_offset = (cl.next_offset + b.record_count) % 2 ^ 64 }) ess
        stored =
      record {
        oldest = h.oldest;
        older = subst (Chain c h.oldest cl.older ess) (sym fields.1) h.older;
        active = valid';
        next = next;
        unsealed = fields.2 ∙ h.unsealed;
      } in
    subst (λ p. Grown c cl ess es p (record b { compression = actual }) bs)
      (sym (count_batch-true cl b r fine)) (record { answer = refl; valid = log; next = end })

pub length-numbered : (i : ℕ) (rs : List Record) → length (numbered i rs) ≡ length rs
length-numbered i [] = refl
length-numbered i (r ∷ rs) = ap suc (length-numbered (suc i) rs)

-- The file of a new segment's base offset is not there yet.
pub record NewFile (w : World) (base : ℕ) : Type 0 where
  pub index : Index
  pub time : ℤ
  pub found : w.disk base ≡ some ([], index, time)
  pub no_entries : index.entries ≡ []
  pub index_base : index.base_offset ≡ base

-- A full segment sealed and followed by a new one.
sealed : World → CommitLog → CommitLog
sealed w cl = record cl { active = seal cl.active w.mapped }

new_segment-IsLog :
    (c : Codec) (w : World) (cl : CommitLog) (ess : List (List Stored)) (es : List Stored)
    → IsLog c cl ess es
    → NewFile w cl.next_offset
    → (cl' : CommitLog) × (new_segment c w (sealed w cl) cl.next_offset ≡ (cl', done tt))
      × IsLog c cl' (ess ++ (es ∷ [])) []
      × (cl'.next_offset ≡ cl.next_offset)
      × (cl'.active.base_offset ≡ cl.next_offset)
unfolding new_segment sealed
new_segment-IsLog c w cl ess es h file =
    let no_marks = subst (AllMark cl.next_offset []) (sym file.no_entries) tt in
    let new =
      open_segment-IsSegment c 1 [] [] file.index cl.next_offset cl.next_offset file.time w.now []
        refl tt tt whole refl no_marks file.index_base (omega arith)
        (omega (arith, h.next, h.active.in_range)) (omega arith) in
    let old = seal cl.active w.mapped in
    let chain =
      Chain-snoc c h.oldest cl.older ess old es
        (subst (Chain c h.oldest cl.older ess) (sym (seal-base_offset cl.active w.mapped)) h.older)
        (seal-IsSegment c cl.active es w.mapped h.active) in
    (
      record cl { older = cl.older ++ (old ∷ []); active = new.0 },
      rw (file.found) (ap (λ r. with_segment (sealed w cl) (reply r)) new.1),
      record {
        oldest = h.oldest;
        older =
            subst (Chain c h.oldest (cl.older ++ (old ∷ [])) (ess ++ (es ∷ [])))
              (seal-next_offset cl.active w.mapped ∙ h.next ∙ sym new.5) chain;
        active = new.2;
        next = new.3;
        unsealed = new.6;
      },
      refl,
      new.5,
    )

-- The log that a batch is appended to: as it is, or with a new segment.
record Rolled (c : Codec) (cl : CommitLog) (ess : List (List Stored)) (es : List Stored)
    (r : CommitLog × Reply (Unit {0})) (n : ℕ) : Type 0 where
  log : CommitLog
  ess' : List (List Stored)
  es' : List Stored
  answer : r ≡ (log, done tt)
  valid : IsLog c log ess' es'
  batches : flatten ess' ++ es' ≡ flatten ess ++ es
  next : log.next_offset ≡ cl.next_offset
  room : cl.next_offset + n < log.active.base_offset + 2 ^ 32

roll-IsLog :
    (cfg : LogConfig) (c : Codec) (w : World) (cl : CommitLog) (ess : List (List Stored))
    (es : List Stored) (n : ℕ)
    → IsLog c cl ess es
    → ((segment_is_full cfg.segment cl.active w.now ≡ false) ⊎ NewFile w cl.next_offset)
    → n < 2 ^ 32
    → cl.next_offset + n < cl.active.base_offset + 2 ^ 32
    → Rolled c cl ess es (roll cfg c w cl cl.next_offset) n
unfolding roll sealed
roll-IsLog cfg c w cl ess es n h file few room =
    elim (Bool-cases (segment_is_full cfg.segment cl.active w.now)) [
      | inr f ↦ record {
        log = cl;
        ess' = ess;
        es' = es;
        answer = rw f refl;
        valid = h;
        batches = refl;
        next = refl;
        room = room;
      }
      | inl t ↦
          let there : NewFile w cl.next_offset = elim file [
            | inl f ↦ absurd (ground arith)
            | inr k ↦ k
          ] in
          let r = new_segment-IsLog c w cl ess es h there in
          record {
            log = r.0;
            ess' = ess ++ (es ∷ []);
            es' = [];
            answer = rw t (r.1);
            valid = r.2;
            batches = append-nil (flatten (ess ++ (es ∷ []))) ∙ flatten-snoc ess es;
            next = r.3;
            room = omega (arith, r.4);
          }
    ]

-- A batch that fits, with at least one record and at most 65535, and that a codec which keeps its laws
-- encodes, appended to an open and valid log when nothing fails, with room for its offsets and, if the
-- active segment is full, with no file yet for the next offset: the answer is the log's next offset; the
-- log is valid, whether a new segment is made or not; it holds the batches that it held and then this
-- one, at that offset, under the bytes of its encoding and with the compression that was used; and its
-- next offset is that many records further.
pub append-IsLog :
    (cfg : LogConfig) (c : Codec) (w : World) (cl : CommitLog) (ess : List (List Stored))
    (es : List Stored) (b : RecordBatch) (bs : List ℕ)
    → CodecLaws c
    → IsLog c cl ess es
    → Appendable c cl b bs
    → AllWell w.outcome
    → ((segment_is_full cfg.segment cl.active w.now ≡ false) ⊎ NewFile w cl.next_offset)
    → (actual : ℕ) × (ess' : List (List Stored)) × (es' : List Stored) × ((append cfg c w cl b).1
        ≡ done cl.next_offset)
      × IsLog c (append cfg c w cl b).0 ess' es'
      × (flatten ess' ++ es'
          ≡ (flatten ess ++ es)
            ++ ((record (assigned cl.next_offset b) { compression = actual }, bs) ∷ []))
      × ((append cfg c w cl b).0.next_offset ≡ cl.next_offset + length b.records)
unfolding append
append-IsLog cfg c w cl ess es b bs laws h k well file =
    let b' = assigned cl.next_offset b in
    let held = encode_batch-Holds c b' bs laws k.fits k.encoded in
    let count : b'.record_count ≡ length b.records = k.fits.counted ∙ length-numbered 0 b.records in
    let small : ltb max_records_per_batch (length b.records) ≡ false =
      ground (arith, count, k.fits.few) in
    let rolled =
      roll-IsLog cfg c w cl ess es (length b.records) h file (omega (arith, count, k.fits.few))
        k.few in
    let log = rolled.log in
    let can : CanAppend c log.active (record b' { compression = held.0 }) bs = record {
      held = held.1;
      follows = sym (rolled.valid.next ∙ rolled.next);
      some_records = k.fits.not_empty;
      few = omega (arith, rolled.valid.next, rolled.next, rolled.room, count);
      in_range = omega (arith, rolled.valid.next, rolled.next, k.in_range, count);
      active = rolled.valid.unsealed;
    } in
    let g =
      count_batch-IsLog cfg c w log rolled.ess' rolled.es' b' bs held.0 rolled.valid can well in
    let run : append cfg c w cl b
        ≡ count_batch log b' (append_batch cfg.segment log.active bs b' w.outcome) =
      simp (k.open_log, small, k.encoded) (ap (append_encoded cfg w bs b') rolled.answer) in
    (
      held.0,
      rolled.ess',
      rolled.es' ++ ((record b' { compression = held.0 }, bs) ∷ []),
      ap (λ r. r.1) run ∙ g.answer,
      subst
          (λ r.
            IsLog c r.0 rolled.ess' (rolled.es' ++ ((record b' { compression = held.0 }, bs) ∷ [])))
          (sym run) g.valid,
      sym (
            append_assoc (flatten rolled.ess') rolled.es'
              ((record b' { compression = held.0 }, bs) ∷ []))
          ∙ ap (λ x. x ++ ((record b' { compression = held.0 }, bs) ∷ [])) rolled.batches,
      ap (λ r. r.0.next_offset) run ∙ g.next ∙ omega (arith, rolled.next, count),
    )
