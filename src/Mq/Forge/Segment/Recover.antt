-- ===== src/Mq/Forge/Segment/Recover.antt =====
-- `recover`: a segment opened after a crash is valid again.
use mathlib.Core.List.{append_assoc, append-nil}
use go_common.Common.{true}
use go_common.Common.{
  ℕ, ◌+◌, ◌-◌, ◌^◌, ◌<◌, ◌≡◌, refl, sym, ap, ap₂, subst, ◌∙◌, none, List, [], ◌∷◌, ◌++◌, ltb, leb,
  leb→le, ltb→ge, ◌==◌, if◌then◌else◌, length, take, drop, arith, length-append, Bool-cases, inl,
  inr,
}
use go_common.Common.Int.{ℤ}
use go_common.Common.Slices.{take_all}
use go_common.Mq.Forge.Varint.Fields.{drop-append, take-append}
use go_common.Mq.Forge.Batch.{Codec, ok}
use go_common.Mq.Forge.Index.{IndexEntry, Index, last_of, at_base, last_entry}
use go_common.Mq.Forge.Segment.{
  recover_chunk_size, Segment, recover_chunks, start_of, recover_scan, recover, open_segment,
}
use go_common.Mq.Forge.Segment.Stored.{
  Stored, AllHold, AllHold-right, log_bytes, log_bytes-append, Contiguous, Contiguous-right,
}
use go_common.Mq.Forge.Segment.Scan.{
  reached, reached-Contiguous, reached-Contiguous_before, scan_batches-log,
}
use go_common.Mq.Forge.Segment.Cuts.{Tail, Tail-Stops, AllSmall}
use go_common.Mq.Forge.Segment.Chunks.{recover_chunks-log}
use go_common.Mq.Forge.Segment.Valid.{Mark, AllMark, IsSegment}

-- Where `recover` starts in a log: in front of batches that lead to its next offset.
record Start (base o' : ℕ) (es : List Stored) (start : ℕ) : Type 0 where
  before : List Stored
  after : List Stored
  both : es ≡ before ++ after
  position : start ≡ length (log_bytes before)
  leads : reached base after ≡ o'

Mark-Start :
    (base o' : ℕ) (es : List Stored) (m : IndexEntry)
    → Contiguous base es o'
    → o' < 2 ^ 64
    → Mark base es m
    → Start base o' es m.position
Mark-Start base o' es m k lt h = record {
  before = h.before;
  after = h.here ∷ h.after;
  both = h.both;
  position = h.position;
  leads =
      let rest =
        Contiguous-right base (base + m.relative_offset) o' h.before (h.here ∷ h.after) h.offset
          (subst (λ x. Contiguous base x o') h.both k) in
      reached-Contiguous_before base (base + m.relative_offset) o' h.here h.after (omega arith) rest
        lt;
}

last_of-Start :
    (base o' : ℕ) (es : List Stored) (ms : List IndexEntry) (idx : Index)
    → Contiguous base es o'
    → o' < 2 ^ 64
    → AllMark base es ms
    → Start base o' es (start_of (at_base idx.base_offset (last_of ms)))
unfolding last_of
last_of-Start base o' es [] idx k lt h = record {
  before = [];
  after = es;
  both = refl;
  position = refl;
  leads = reached-Contiguous base o' es k lt;
}
last_of-Start base o' es (m ∷ []) idx k lt h = Mark-Start base o' es m k lt h.0
last_of-Start base o' es (m ∷ m' ∷ ms) idx k lt h = last_of-Start base o' es (m' ∷ ms) idx k lt h.1

AllSmall-right : (es fs : List Stored) → AllSmall (es ++ fs) → AllSmall fs
AllSmall-right [] fs h = h
AllSmall-right (e ∷ es) fs h = AllSmall-right es fs h.1

-- The scan of either kind finds the end of the log.
recover_scan-log :
    (c : Codec) (fuel o' : ℕ) (s : Segment) (es : List Stored) (t : List ℕ) (start : ℕ)
    → AllHold c es
    → AllSmall es
    → Tail c t
    → s.log ≡ log_bytes es ++ t
    → s.size ≡ length s.log
    → Start s.next_offset o' es start
    → s.size < fuel
    → recover_scan c fuel s start ≡ ok (o', length (log_bytes es))
unfolding recover_scan
recover_scan-log c fuel o' s es t start h small tl log size st enough =
    let rest = log_bytes st.after ++ t in
    let held = AllHold-right c st.before st.after (subst (AllHold c) st.both h) in
    let smalls = AllSmall-right st.before st.after (subst AllSmall st.both small) in
    let split : s.log ≡ log_bytes st.before ++ rest =
      log
      ∙ ap (λ e. log_bytes e ++ t) st.both
      ∙ ap (λ b. b ++ t) (log_bytes-append st.before st.after)
      ∙ append_assoc (log_bytes st.before) (log_bytes st.after) t in
    let behind : drop start s.log ≡ rest =
      ap₂ drop st.position split ∙ drop-append (log_bytes st.before) rest in
    let sizes = ap length split ∙ length-append (log_bytes st.before) rest in
    let whole_end : start + length (log_bytes st.after) ≡ length (log_bytes es) =
      ap (λ n. n + length (log_bytes st.after)) st.position
      ∙ sym (length-append (log_bytes st.before) (log_bytes st.after))
      ∙ ap length (sym (log_bytes-append st.before st.after))
      ∙ ap (λ e. length (log_bytes e)) (sym st.both) in
    elim (Bool-cases (leb (s.size - start) recover_chunk_size)) [
      | inl t₁ ↦
          let all : take (s.size - start) rest ≡ rest =
            take_all (s.size - start) rest (omega (arith, size, sizes, st.position)) in
          let scan = scan_batches-log c s.next_offset st.after t held (Tail-Stops c t tl) in
          rw t₁ (rw behind (rw all (rw scan (ap₂ (λ a n. ok (a, n)) st.leads whole_end))))
      | inr t₂ ↦
          let chunks =
            recover_chunks-log c s.next_offset st.after s.log t start fuel held smalls tl
              (omega (arith, sizes, st.position)) behind (omega (arith, size)) in
          rw t₂ (
            ap (λ n. recover_chunks c fuel s.log n start [] start s.next_offset) size
            ∙ chunks
            ∙ ap₂ (λ a n. ok (a, n)) st.leads whole_end)
    ]

nil_of : (t : List ℕ) → length t ≡ 0 → t ≡ []
nil_of [] h = refl
nil_of (x ∷ t) h = absurd (omega arith)

no_batches : (c : Codec) (es : List Stored) → AllHold c es → length (log_bytes es) ≡ 0 → es ≡ []
no_batches c [] h z = refl
no_batches c ((b, bs) ∷ es) h z =
    absurd (omega (arith, length-append bs (log_bytes es), h.0.header))

-- What recovery is given: the segment as it is opened, over a log with whatever a crash left behind
-- its last whole batch.
pub record Opened (c : Codec) (s : Segment) (es : List Stored) (t : List ℕ) (o' : ℕ) : Type 0 where
  pub log : s.log ≡ log_bytes es ++ t
  pub size : s.size ≡ length s.log
  pub next : s.next_offset ≡ s.base_offset
  pub unmapped : s.mmap ≡ none
  pub usable : s.file_open ≡ true
  pub hold : AllHold c es
  pub small : AllSmall es
  pub is_tail : Tail c t
  pub contiguous : Contiguous s.base_offset es o'
  pub marks : AllMark s.base_offset es s.index.entries
  pub index_base : s.index.base_offset ≡ s.base_offset
  pub few : o' < s.base_offset + 2 ^ 32
  pub in_range : o' < 2 ^ 64

Opened-cut :
    (c : Codec) (s : Segment) (es : List Stored) (t : List ℕ) (o' : ℕ)
    → Opened c s es t o'
    → IsSegment c
        (record s { log = log_bytes es; size = length (log_bytes es); next_offset = o' })
        es
Opened-cut c s es t o' h = record {
  log = refl;
  size = refl;
  hold = h.hold;
  contiguous = h.contiguous;
  marks = h.marks;
  index_base = h.index_base;
  few = h.few;
  in_range = h.in_range;
  mapped = inl h.unmapped;
  usable = h.usable;
}

segment-eq :
    (s : Segment) (log : List ℕ) (size next : ℕ)
    → s.log ≡ log
    → s.size ≡ size
    → s.next_offset ≡ next
    → ok s ≡ ok (record s { log = log; size = size; next_offset = next })
segment-eq s log size next p q r = λ i. ok (record s { log = p i; size = q i; next_offset = r i })

recover-Opened :
    (c : Codec) (fuel : ℕ) (s : Segment) (es : List Stored) (t : List ℕ) (o' : ℕ)
    → Opened c s es t o'
    → s.size < fuel
    → recover c fuel s
      ≡ ok (record s { log = log_bytes es; size = length (log_bytes es); next_offset = o' })
unfolding recover last_entry
recover-Opened c fuel s es t o' h enough =
    let start = start_of (at_base s.index.base_offset (last_of s.index.entries)) in
    let st =
      last_of-Start s.base_offset o' es s.index.entries s.index h.contiguous h.in_range h.marks in
    let lengths = ap length h.log ∙ length-append (log_bytes es) t in
    let keep : length t ≡ 0 → (s.log ≡ log_bytes es) × (s.size ≡ length (log_bytes es)) = λ z. (
      h.log ∙ ap (λ x. log_bytes es ++ x) (nil_of t z) ∙ append-nil (log_bytes es),
      omega (arith, h.size, lengths),
    ) in
    elim (Bool-cases (leb s.size start)) [
      | inl t₁ ↦
          let parts =
            ap (λ e. length (log_bytes e)) st.both
            ∙ ap length (log_bytes-append st.before st.after)
            ∙ length-append (log_bytes st.before) (log_bytes st.after) in
          let le = leb→le s.size start t₁ in
          let none_left =
            no_batches c st.after
              (AllHold-right c st.before st.after (subst (AllHold c) st.both h.hold))
              (omega (arith, h.size, lengths, parts, st.position)) in
          let kept = keep (omega (arith, h.size, lengths, parts, st.position)) in
          let next : s.next_offset ≡ o' =
            h.next ∙ ap (reached s.base_offset) (sym none_left) ∙ st.leads in
          rw t₁ (segment-eq s (log_bytes es) (length (log_bytes es)) o' kept.0 kept.1 next)
      | inr t₂ ↦
          let st' = subst (λ n. Start n o' es start) (sym h.next) st in
          let scan =
            recover_scan-log c fuel o' s es t start h.hold h.small h.is_tail h.log h.size st'
              enough in
          rw t₂ (
            rw scan (elim (Bool-cases (ltb (length (log_bytes es)) s.size)) [
              | inl cut ↦ rw cut (rw h.log (rw (take-append (log_bytes es) t) refl))
              | inr no_cut ↦
                  let kept = keep (
                    omega (arith, h.size, lengths, ltb→ge (length (log_bytes es)) s.size no_cut)) in
                  rw no_cut (
                    segment-eq (record s { next_offset = o' }) (log_bytes es)
                      (length (log_bytes es)) o' kept.0 kept.1 refl)
            ]))
    ]

-- Opening a segment whose file is a contiguous log of batches that each fit in a recovery chunk, with
-- whatever a crash left of one more, and whose index points into it: it succeeds, the file is cut
-- behind the last whole batch, and the segment is valid, with the offset after the last batch as its
-- next, and it is not mapped. One round of the loop over chunks more than there are bytes is enough.
pub open_segment-IsSegment :
    (c : Codec) (fuel : ℕ) (log t : List ℕ) (index : Index) (base_offset o' : ℕ) (mod_time now : ℤ)
    (es : List Stored)
    → log ≡ log_bytes es ++ t
    → AllHold c es
    → AllSmall es
    → Tail c t
    → Contiguous base_offset es o'
    → AllMark base_offset es index.entries
    → index.base_offset ≡ base_offset
    → o' < base_offset + 2 ^ 32
    → o' < 2 ^ 64
    → length log < fuel
    → (s : Segment) × (open_segment c fuel log index base_offset mod_time now ≡ ok s)
      × IsSegment c s es
      × (s.next_offset ≡ o')
      × (s.log ≡ log_bytes es)
      × (s.base_offset ≡ base_offset)
      × (s.mmap ≡ none)
unfolding open_segment
open_segment-IsSegment c fuel log t index base_offset o' mod_time now es at h small tl k marks ib
      few lt enough =
    let s : Segment = record {
      log = log;
      index = index;
      base_offset = base_offset;
      size = length log;
      created = if length log == 0 then now else mod_time;
      next_offset = base_offset;
      bytes_since_index = 0;
      batches_since_sync = 0;
      mmap = none;
      file_open = true;
    } in
    let opened : Opened c s es t o' = record {
      log = at;
      size = refl;
      next = refl;
      unmapped = refl;
      usable = refl;
      hold = h;
      small = small;
      is_tail = tl;
      contiguous = k;
      marks = marks;
      index_base = ib;
      few = few;
      in_range = lt;
    } in
    (
      _,
      recover-Opened c fuel s es t o' opened enough,
      Opened-cut c s es t o' opened,
      refl,
      refl,
      refl,
      refl,
    )
