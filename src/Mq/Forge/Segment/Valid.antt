-- ===== src/Mq/Forge/Segment/Valid.antt =====
-- The invariant of a segment: its file is a contiguous log, and its index points into it.
use mathlib.Core.List.{append_assoc, append-nil}
use native.Mathlib.Nat.{mod-eq_of_lt}
use go_common.Common.{
  ℕ, ◌+◌, ◌-◌, ◌%◌, ◌^◌, ◌<◌, ◌≡◌, refl, sym, ap, ap₂, subst, ◌∙◌, Bool, true, false, Option, none,
  some, List, [], ◌∷◌, ◌++◌, ltb, leb, ◌==◌, ◌||◌, ◌&&◌, length, arith, length-append, Bool-cases,
  inl, inr, ◌⊎◌,
}
use go_common.Mq.Forge.Batch.{Codec, RecordBatch}
use go_common.Mq.Forge.Index.{IndexEntry, Index, relative, append, sync}
use go_common.Mq.Forge.Index.Nearest.{relative-eq}
use go_common.Mq.Forge.Segment.{
  SegmentConfig, Segment, Outcome, end_offset, count_in, sync_after, index_synced, append_batch,
}
use go_common.Mq.Forge.Segment.Stored.{
  Stored, Holds, AllHold, AllHold-append, log_bytes, log_bytes-append, Contiguous, Contiguous-le,
  Contiguous-append,
}

-- An index entry points to the beginning of a batch.
pub record Mark (base : ℕ) (es : List Stored) (e : IndexEntry) : Type 0 where
  pub before : List Stored
  pub here : Stored
  pub after : List Stored
  pub both : es ≡ before ++ (here ∷ after)
  pub position : e.position ≡ length (log_bytes before)
  pub offset : Contiguous base before (base + e.relative_offset)

abbrev pub AllMark : ℕ → List Stored → List IndexEntry → Type 0
AllMark base es [] = Unit {0}
AllMark base es (m ∷ ms) = Mark base es m × AllMark base es ms

pub record IsSegment (c : Codec) (s : Segment) (es : List Stored) : Type 0 where
  pub log : s.log ≡ log_bytes es
  pub size : s.size ≡ length s.log
  pub hold : AllHold c es
  pub contiguous : Contiguous s.base_offset es s.next_offset
  pub marks : AllMark s.base_offset es s.index.entries
  pub index_base : s.index.base_offset ≡ s.base_offset
  pub few : s.next_offset < s.base_offset + 2 ^ 32
  pub in_range : s.next_offset < 2 ^ 64
  pub mapped : (s.mmap ≡ none) ⊎ (s.mmap ≡ some s.log)
  pub usable : s.file_open ≡ true

AllMark-append :
    (base : ℕ) (es fs : List Stored) (ms : List IndexEntry)
    → AllMark base es ms
    → AllMark base (es ++ fs) ms
AllMark-append base es fs [] h = tt
AllMark-append base es fs (m ∷ ms) h =
    let k = h.0 in
    (
      record {
        before = k.before;
        here = k.here;
        after = k.after ++ fs;
        both = ap (λ x. x ++ fs) k.both ∙ append_assoc k.before (k.here ∷ k.after) fs;
        position = k.position;
        offset = k.offset;
      },
      AllMark-append base es fs ms h.1,
    )

AllMark-snoc :
    (base : ℕ) (es : List Stored) (ms : List IndexEntry) (m : IndexEntry)
    → AllMark base es ms
    → Mark base es m
    → AllMark base es (ms ++ (m ∷ []))
AllMark-snoc base es [] m h k = (k, tt)
AllMark-snoc base es (m' ∷ ms) m h k = (h.0, AllMark-snoc base es ms m h.1 k)

-- `Sync` of the index leaves its entries and its base.
sync-entries :
    (idx : Index) (failed : Option ℕ)
    → ((sync idx failed).0.entries ≡ idx.entries)
      × ((sync idx failed).0.base_offset ≡ idx.base_offset)
unfolding sync
sync-entries idx none = ground arith
sync-entries idx (some n) = ground arith

-- A segment that differs from a valid one in the files of its index and its counters alone.
IsSegment-index :
    (c : Codec) (s : Segment) (es : List Stored) (idx : Index) (n : ℕ)
    → IsSegment c s es
    → idx.entries ≡ s.index.entries
    → idx.base_offset ≡ s.index.base_offset
    → IsSegment c (record s { index = idx; batches_since_sync = n }) es
IsSegment-index c s es idx n h e b = record {
  log = h.log;
  size = h.size;
  hold = h.hold;
  contiguous = h.contiguous;
  marks = subst (AllMark s.base_offset es) (sym e) h.marks;
  index_base = b ∙ h.index_base;
  few = h.few;
  in_range = h.in_range;
  mapped = h.mapped;
  usable = h.usable;
}

index_synced-IsSegment :
    (c : Codec) (s : Segment) (es : List Stored) (r : Index × Bool)
    → IsSegment c s es
    → r.0.entries ≡ s.index.entries
    → r.0.base_offset ≡ s.index.base_offset
    → IsSegment c (index_synced s r).0 es
index_synced-IsSegment c s es (idx, true) h e b = IsSegment-index c s es idx 0 h e b
index_synced-IsSegment c s es (idx, false) h e b =
    IsSegment-index c s es idx s.batches_since_sync h e b

sync_after-IsSegment :
    (cfg : SegmentConfig) (c : Codec) (s : Segment) (es : List Stored) (o : Outcome)
    → IsSegment c s es
    → IsSegment c (sync_after cfg s o).0 es
unfolding sync_after
sync_after-IsSegment cfg c s es o h =
    let kept = sync-entries s.index o.index_failed in
    elim (Bool-cases (ltb 0 cfg.fsync_every && leb cfg.fsync_every s.batches_since_sync)) [
      | inr f ↦ rw f h
      | inl t ↦ elim (Bool-cases o.log_synced) [
        | inr f ↦ rw (t, f) h
        | inl t' ↦
            rw (t, t') (index_synced-IsSegment c s es (sync s.index o.index_failed) h kept.0 kept.1)
      ]
    ]

-- The new batch behind the log of a valid segment.
module _ (cfg : SegmentConfig) (c : Codec) (s : Segment) (es : List Stored) (b : RecordBatch)
    (bs : List ℕ) (h : IsSegment c s es) (held : Holds c b bs)
    (follows : b.base_offset ≡ s.next_offset) (some_records : 0 < b.record_count)
    (few : s.next_offset + b.record_count < s.base_offset + 2 ^ 32)
    (in_range : s.next_offset + b.record_count < 2 ^ 64) (active : s.mmap ≡ none) where
  new_end : end_offset b ≡ s.next_offset + b.record_count
  new_end = ap (λ n. (n + b.record_count) % 2 ^ 64) follows ∙ mod-eq_of_lt in_range

  new-Mark :
      Mark s.base_offset
        (es ++ ((b, bs) ∷ []))
        (record { relative_offset = relative s.index.base_offset b.base_offset; position = s.size })
  new-Mark =
      let up = Contiguous-le s.base_offset s.next_offset es h.contiguous in
      let rel : relative s.index.base_offset b.base_offset ≡ s.next_offset - s.base_offset =
        ap₂ relative h.index_base follows
        ∙ relative-eq s.base_offset s.next_offset up (omega (arith, h.few))
            (omega (arith, h.in_range)) in
      let end : s.next_offset ≡ s.base_offset + relative s.index.base_offset b.base_offset =
        omega (arith, rel, up) in
      record {
        before = es;
        here = (b, bs);
        after = [];
        both = refl;
        position = h.size ∙ ap length h.log;
        offset = subst (Contiguous s.base_offset es) end h.contiguous;
      }

  new_marks : AllMark s.base_offset (es ++ ((b, bs) ∷ [])) (count_in cfg s bs b).index.entries
  unfolding count_in append
  new_marks =
      let old = AllMark-append s.base_offset es ((b, bs) ∷ []) s.index.entries h.marks in
      elim (Bool-cases
        (leb cfg.index_interval s.bytes_since_index || (length s.index.entries == 0))) [
          | inl t ↦
              rw t
                (AllMark-snoc s.base_offset (es ++ ((b, bs) ∷ [])) s.index.entries _ old new-Mark)
          | inr f ↦ rw f old
        ]

  count_in-IsSegment : IsSegment c (count_in cfg s bs b) (es ++ ((b, bs) ∷ []))
  unfolding count_in append
  count_in-IsSegment = record {
    log =
        ap (λ l. l ++ bs) h.log
        ∙ ap (λ r. log_bytes es ++ r) (sym (append-nil bs))
        ∙ sym (log_bytes-append es ((b, bs) ∷ []));
    size = omega (arith, h.size, length-append s.log bs);
    hold = AllHold-append c es ((b, bs) ∷ []) h.hold (held, tt);
    contiguous =
        Contiguous-append s.base_offset s.next_offset (end_offset b) es ((b, bs) ∷ []) h.contiguous
          (follows, some_records, sym new_end);
    marks = new_marks;
    index_base = ground (arith, h.index_base);
    few = omega (arith, new_end);
    in_range = omega (arith, new_end);
    mapped = inl active;
    usable = h.usable;
  }

-- What a batch needs to be appended to a segment: it is encoded, follows the segment's offsets within
-- what 32 bits of a relative offset allow, and the segment is the active one, not sealed.
pub record CanAppend (c : Codec) (s : Segment) (b : RecordBatch) (bs : List ℕ) : Type 0 where
  pub held : Holds c b bs
  pub follows : b.base_offset ≡ s.next_offset
  pub some_records : 0 < b.record_count
  pub few : s.next_offset + b.record_count < s.base_offset + 2 ^ 32
  pub in_range : s.next_offset + b.record_count < 2 ^ 64
  pub active : s.mmap ≡ none

-- A batch with records is appended to a valid segment that is not mapped: it is encoded as these bytes,
-- its base offset is the segment's next offset, and the offset behind it is below the segment's base
-- offset plus 2^32, and below 2^64. If the bytes are written, the file is a contiguous log with the
-- batch at its end, every index entry points to a batch, whether a new one is made or not and whether
-- the files are synced, with or without an error, or not, and the next offset is behind the batch.
pub append_batch-IsSegment :
    (cfg : SegmentConfig) (c : Codec) (s : Segment) (es : List Stored) (b : RecordBatch)
    (bs : List ℕ) (o : Outcome)
    → IsSegment c s es
    → CanAppend c s b bs
    → o.write_failed ≡ none
    → IsSegment c (append_batch cfg s bs b o).0 (es ++ ((b, bs) ∷ []))
unfolding append_batch
append_batch-IsSegment cfg c s es b bs o h k written =
    let counted =
      count_in-IsSegment cfg c s es b bs h k.held k.follows k.some_records k.few k.in_range
        k.active in
    simp written (sync_after-IsSegment cfg c (count_in cfg s bs b) (es ++ ((b, bs) ∷ [])) o counted)
