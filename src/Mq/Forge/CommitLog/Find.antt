-- ===== src/Mq/Forge/CommitLog/Find.antt =====
-- `findSegment` and `Read`: the segment of an offset, and what a reader of the log gets.
use mathlib.Core.List.{append_assoc, append-nil}
use go_common.Common.{
  ℕ, ◌^◌, ◌≤◌, ◌<◌, ◌≡◌, refl, sym, ap, subst, ◌∙◌, false, List, [], ◌∷◌, ◌++◌, arith, Bool-cases,
  inl, inr, ltb, ltb→lt, ltb→ge,
}
use go_common.Mq.Forge.Batch.{Codec}
use go_common.Mq.Forge.Segment.{Segment}
use go_common.Mq.Forge.Segment.Stored.{Stored}
use go_common.Mq.Forge.Segment.Valid.{IsSegment}
use go_common.Mq.Forge.Segment.Read.{wanted, wanted-append-before, read_from-wanted}
use go_common.Mq.Forge.CommitLog.{
  CommitLog, done, reply, segment_before, find_in, find_segment, read,
}
use go_common.Mq.Forge.CommitLog.Chain.{
  Chain, chain_end, chain_next, Chain-snoc, IsLog, flatten, flatten-snoc,
}

-- A segment `s` found from `last` on: no batch before it is wanted, and it covers the offset unless
-- the offset is before `last` or behind the log's end.
record Located (c : Codec) (offset o' : ℕ) (last : Segment) (all : List Stored) (s : Segment)
    : Type 0 where
  before : List Stored
  here : List Stored
  after : List Stored
  whole : all ≡ before ++ (here ++ after)
  valid : IsSegment c s here
  past : wanted offset before ≡ []
  low : last.base_offset ≤ offset → s.base_offset ≤ offset
  high : offset < o' → offset < s.next_offset

segment_before-Located :
    (c : Codec) (offset o' : ℕ) (last : Segment) (es : List Stored) (ss : List Segment)
    (ess : List (List Stored))
    → IsSegment c last es
    → Chain c last.next_offset ss ess o'
    → Located c offset o' last (es ++ flatten ess) (segment_before offset last ss)
unfolding segment_before
segment_before-Located c offset o' last es [] [] h chain_end = record {
  before = [];
  here = es;
  after = [];
  whole = refl;
  valid = h;
  past = refl;
  low = λ le. le;
  high = λ lt. lt;
}
segment_before-Located c offset o' last es [] (fs ∷ ess) h x = elim x [ ]
segment_before-Located c offset o' last es (s ∷ ss) [] h x = elim x [ ]
segment_before-Located c offset o' last es (s ∷ ss) (fs ∷ ess) h (chain_next b h' k) =
    elim (Bool-cases (ltb offset s.base_offset)) [
      | inl t ↦ rw t (record {
        before = [];
        here = es;
        after = fs ++ flatten ess;
        whole = refl;
        valid = h;
        past = refl;
        low = λ le. le;
        high = λ lt. omega (arith, b, ltb→lt offset s.base_offset t);
      })
      | inr t ↦
          let le = ltb→ge offset s.base_offset t in
          let r = segment_before-Located c offset o' s fs ss ess h' k in
          rw t (record {
            before = es ++ r.before;
            here = r.here;
            after = r.after;
            whole = ap (λ x. es ++ x) r.whole ∙ sym (append_assoc es r.before (r.here ++ r.after));
            valid = r.valid;
            past =
                wanted-append-before offset last.base_offset last.next_offset es r.before
                  h.contiguous (omega (arith, b, le))
                ∙ r.past;
            low = λ _. r.low le;
            high = r.high;
          })
    ]

-- The first segment of a log.
abbrev first_of : List Segment → Segment → Segment
first_of [] active = active
first_of (s ∷ ss) active = s

find_in-Located :
    (c : Codec) (offset o : ℕ) (ss : List Segment) (ess : List (List Stored)) (active : Segment)
    (es : List Stored)
    → Chain c o ss ess active.base_offset
    → IsSegment c active es
    → Located c offset active.next_offset
        (first_of ss active)
        (flatten ess ++ es)
        (find_in offset ss active)
find_in-Located c offset o [] [] active es chain_end h = record {
  before = [];
  here = es;
  after = [];
  whole = sym (append-nil es);
  valid = h;
  past = refl;
  low = λ le. le;
  high = λ lt. lt;
}
find_in-Located c offset o [] (fs ∷ ess) active es x h = elim x [ ]
find_in-Located c offset o (s ∷ ss) [] active es x h = elim x [ ]
find_in-Located c offset o (s ∷ ss) (fs ∷ ess) active es (chain_next b h' k) h =
    subst
      (λ all.
        Located c offset active.next_offset s all (segment_before offset s (ss ++ (active ∷ []))))
      (ap (λ x. fs ++ x) (flatten-snoc ess es) ∙ sym (append_assoc fs (flatten ess) es))
      (segment_before-Located c offset active.next_offset s fs (ss ++ (active ∷ []))
        (ess ++ (es ∷ [])) h' (Chain-snoc c s.next_offset ss ess active es k h))

-- Reading an open valid log, from any offset: the answer holds the batches, from some place in the log
-- up to another, with a record at the offset or behind it; no batch before that place has one.
pub read-wanted :
    (c : Codec) (cl : CommitLog) (ess : List (List Stored)) (es : List Stored)
    (offset max_bytes : ℕ)
    → IsLog c cl ess es
    → cl.closed ≡ false
    → offset < 2 ^ 64
    → (before : List Stored) × (first : List Stored) × (after : List Stored) × (flatten ess ++ es
        ≡ before ++ (first ++ after))
      × (wanted offset before ≡ [])
      × (read c cl offset max_bytes ≡ done (wanted offset first))
unfolding read
read-wanted c cl ess es offset max_bytes h o lt =
    let p = find_in-Located c offset h.oldest cl.older ess cl.active es h.older h.active in
    let r = read_from-wanted c (find_segment cl offset) p.here offset max_bytes p.valid lt in
    (
      p.before,
      r.0,
      r.1 ++ p.after,
      p.whole
          ∙ ap (λ x. p.before ++ (x ++ p.after)) r.2
          ∙ ap (λ x. p.before ++ x) (append_assoc r.0 r.1 p.after),
      p.past,
      simp o (ap reply r.3),
    )
