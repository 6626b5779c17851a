-- ===== src/Mq/Forge/CommitLog/Retain.antt =====
-- `DeleteBefore` and `EnforceRetention`: what is removed, and what stays.
use mathlib.Core.List.{append_assoc}
use go_common.Common.{
  ℕ, ◌+◌, ◌≤◌, ◌≡◌, refl, sym, ap, subst, ◌∙◌, Bool, true, false, ◌&&◌, List, [], ◌∷◌, ◌++◌, arith,
  Bool-cases, inl, inr, ◌⊎◌,
}
use go_common.Mq.Forge.Batch.{Codec}
use go_common.Mq.Forge.Segment.{Segment, close_segment, remove_segment}
use go_common.Mq.Forge.Segment.Stored.{Stored, Contiguous, Contiguous-le, Contiguous-append}
use go_common.Mq.Forge.Segment.Valid.{IsSegment}
use go_common.Mq.Forge.Segment.Read.{wanted, wanted-append-before}
use go_common.Mq.Forge.CommitLog.{
  CommitLog, Reply, not_removed, done, failed, Swept, after_remove, with_older,
}
use go_common.Mq.Forge.CommitLog.Chain.{Chain, IsLog, flatten}

-- What is left of a chain: its segments from some place on, and `gone` before them.
pub record Suffix (c : Codec) (o o' : ℕ) (ess : List (List Stored)) (ss' : List Segment)
    : Type 0 where
  pub ess' : List (List Stored)
  pub gone : List Stored
  pub from : ℕ
  pub split : flatten ess ≡ gone ++ flatten ess'
  pub left : Contiguous o gone from
  pub chain : Chain c from ss' ess' o'

abbrev pub Suffix-all :
    (c : Codec) (o o' : ℕ) (ss : List Segment) (ess : List (List Stored))
    → Chain c o ss ess o'
    → Suffix c o o' ess ss
Suffix-all c o o' ss ess k = record {
  ess' = ess;
  gone = [];
  from = o;
  split = refl;
  left = refl;
  chain = k;
}

-- Removing one segment more in front.
abbrev pub Suffix-next :
    (c : Codec) (o o' : ℕ) (s : Segment) (es : List Stored) (ess : List (List Stored))
    (ss' : List Segment)
    → s.base_offset ≡ o
    → IsSegment c s es
    → Suffix c s.next_offset o' ess ss'
    → Suffix c o o' (es ∷ ess) ss'
Suffix-next c o o' s es ess ss' b h r = record {
  ess' = r.ess';
  gone = es ++ r.gone;
  from = r.from;
  split = ap (λ x. es ++ x) r.split ∙ sym (append_assoc es r.gone (flatten r.ess'));
  left =
      Contiguous-append o s.next_offset r.from es r.gone
        (subst (λ x. Contiguous x es s.next_offset) b h.contiguous) r.left;
  chain = r.chain;
}

-- How far a loop came that a failed `Remove` ended: the segments before it were passed over or removed,
-- and those that it called `Remove` of are closed and still in the list, the failing one too.
pub data Sweep (removes : Segment → Bool) (Go Keep : Segment → Type 0)
    : List Segment → List Segment → Type 0 where
  stuck :
      {s : Segment} {ss : List Segment}
      → Go s
      → (s.file_open && removes s) ≡ false
      → Sweep removes Go Keep (s ∷ ss) (close_segment s ∷ ss)
  removed :
      {s : Segment} {ss ss' : List Segment}
      → Go s
      → (s.file_open && removes s) ≡ true
      → Sweep removes Go Keep ss ss'
      → Sweep removes Go Keep (s ∷ ss) (close_segment s ∷ ss')
  passed :
      {s : Segment} {ss ss' : List Segment}
      → Keep s
      → Sweep removes Go Keep ss ss'
      → Sweep removes Go Keep (s ∷ ss) (s ∷ ss')

-- What a failed `Remove` leaves of a log.
pub record StoppedEarly (removes : Segment → Bool) (Go Keep : Segment → Type 0) (cl : CommitLog)
    (r : CommitLog × Reply (Unit {0})) : Type 0 where
  pub answer : r.1 ≡ failed not_removed
  pub swept : Sweep removes Go Keep cl.older r.0.older
  pub others : r.0 ≡ record cl { older = r.0.older }

module _ (removes : Segment → Bool) (Go Keep : Segment → Type 0) where
  pub after_remove-Sweep :
      (s : Segment) (ss : List Segment) (r : Swept)
      → Go s
      → (r.stopped ≡ true → Sweep removes Go Keep ss r.all)
      → (after_remove ss (remove_segment s (removes s)) r).stopped ≡ true
      → Sweep removes Go Keep (s ∷ ss) (after_remove ss (remove_segment s (removes s)) r).all
  unfolding remove_segment
  after_remove-Sweep s ss r go k = elim (Bool-cases (s.file_open && removes s)) [
    | inl t ↦ rw t (λ x. removed go t (k x))
    | inr f ↦ rw f (λ x. stuck go f)
  ]

  pub with_older-cases :
      (P : CommitLog × Reply (Unit {0}) → Type 0) (cl : CommitLog) (r : Swept)
      → (r.stopped ≡ true → Sweep removes Go Keep cl.older r.all)
      → (r.stopped ≡ false → P (record cl { older = r.kept }, done tt))
      → StoppedEarly removes Go Keep cl (with_older cl r) ⊎ P (with_older cl r)
  with_older-cases P cl r early all = elim (Bool-cases r.stopped) [
    | inl t ↦ simp t (inl (record { answer = refl; swept = early t; others = refl }))
    | inr f ↦ simp f (inr (all f))
  ]

-- What a loop that is not ended leaves: the rest of the chain, whose first segment ends behind the offset.
record Deleted (c : Codec) (offset o o' : ℕ) (ess : List (List Stored)) (ss' : List Segment)
    : Type 0 where
  left : Suffix c o o' ess ss'
  past : (left.from ≡ o) ⊎ (left.from ≤ offset)

Contiguous-nil : (o : ℕ) (es : List Stored) → Contiguous o es o → es ≡ []
Contiguous-nil o [] k = refl
Contiguous-nil o ((b, bs) ∷ es) k =
    absurd (omega (arith, k.1, Contiguous-le (o + b.record_count) o es k.2))

pub unwanted :
    (target o m : ℕ) (es fs : List Stored)
    → Contiguous o es m
    → ((m ≡ o) ⊎ (m ≤ target))
    → wanted target (es ++ fs) ≡ wanted target fs
unwanted target o m es fs k (inl same) =
    ap (λ x. wanted target (x ++ fs)) (Contiguous-nil o es (subst (Contiguous o es) same k))
unwanted target o m es fs k (inr le) = wanted-append-before target o m es fs k le

-- The log with the rest of its segments.
pub Suffix-IsLog :
    (c : Codec) (cl : CommitLog) (ess : List (List Stored)) (es : List Stored) (ss' : List Segment)
    → (h : IsLog c cl ess es) → (r : Suffix c h.oldest cl.active.base_offset ess ss')
    → IsLog c (record cl { older = ss' }) r.ess' es
Suffix-IsLog c cl ess es ss' h r = record {
  oldest = r.from;
  older = r.chain;
  active = h.active;
  next = h.next;
  unsealed = h.unsealed;
}

-- The log behind an offset after the loop.
Behind : Codec → List (List Stored) → List Stored → ℕ → CommitLog × Reply (Unit {0}) → Type 0
Behind c ess es offset r =
    (r.1 ≡ done tt)
    × (ess' : List (List Stored)) × IsLog c r.0 ess' es
    × (wanted offset (flatten ess ++ es) ≡ wanted offset (flatten ess' ++ es))
