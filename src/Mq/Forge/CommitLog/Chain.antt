-- ===== src/Mq/Forge/CommitLog/Chain.antt =====
-- The invariant of the log: valid segments whose offsets follow each other.
use mathlib.Core.List.{append_assoc, append-nil}
use go_common.Common.{
  ℕ, ◌≤◌, ◌≡◌, refl, sym, ap, subst, ◌∙◌, Bool, none, some, List, [], ◌∷◌, ◌++◌, arith, Bool-cases,
  inl, inr, ◌==◌, ◌||◌, not,
}
use go_common.Common.Slices.{take_all}
use go_common.Mq.Forge.Batch.{Codec}
use go_common.Mq.Forge.Segment.{Segment, is_some, seal}
use go_common.Mq.Forge.Segment.Stored.{Stored, Contiguous, Contiguous-le, Contiguous-append}
use go_common.Mq.Forge.Segment.Valid.{IsSegment}
use go_common.Mq.Forge.CommitLog.{CommitLog}

-- Segments from the offset `o` to `o'`, and the batches of each.
pub data Chain (c : Codec) : ℕ → List Segment → List (List Stored) → ℕ → Type 0 where
  chain_end : {o : ℕ} → Chain c o [] [] o
  chain_next :
      {o o' : ℕ} {s : Segment} {ss : List Segment} {es : List Stored} {ess : List (List Stored)}
      → s.base_offset ≡ o
      → IsSegment c s es
      → Chain c s.next_offset ss ess o'
      → Chain c o (s ∷ ss) (es ∷ ess) o'

abbrev pub flatten : List (List Stored) → List Stored
flatten [] = []
flatten (es ∷ ess) = es ++ flatten ess

-- The log holds the batches `es` in its active segment, and `ess` in the others.
pub record IsLog (c : Codec) (cl : CommitLog) (ess : List (List Stored)) (es : List Stored)
    : Type 0 where
  pub oldest : ℕ
  pub older : Chain c oldest cl.older ess cl.active.base_offset
  pub active : IsSegment c cl.active es
  pub next : cl.active.next_offset ≡ cl.next_offset
  pub unsealed : cl.active.mmap ≡ none

pub Chain-le :
    (c : Codec) (o o' : ℕ) (ss : List Segment) (ess : List (List Stored))
    → Chain c o ss ess o'
    → o ≤ o'
Chain-le c o o' [] [] chain_end = omega arith
Chain-le c o o' [] (es ∷ ess) x = elim x [ ]
Chain-le c o o' (s ∷ ss) [] x = elim x [ ]
Chain-le c o o' (s ∷ ss) (es ∷ ess) (chain_next b h k) =
    let up = Contiguous-le s.base_offset s.next_offset es h.contiguous in
    omega (arith, b, up, Chain-le c s.next_offset o' ss ess k)

pub Chain-snoc :
    (c : Codec) (o : ℕ) (ss : List Segment) (ess : List (List Stored)) (s : Segment)
    (es : List Stored)
    → Chain c o ss ess s.base_offset
    → IsSegment c s es
    → Chain c o (ss ++ (s ∷ [])) (ess ++ (es ∷ [])) s.next_offset
Chain-snoc c o [] [] s es chain_end h = chain_next refl h chain_end
Chain-snoc c o [] (es' ∷ ess) s es x h = elim x [ ]
Chain-snoc c o (s' ∷ ss) [] s es x h = elim x [ ]
Chain-snoc c o (s' ∷ ss) (es' ∷ ess) s es (chain_next b h k) h' =
    chain_next b h (Chain-snoc c s'.next_offset ss ess s es k h')

-- The batches of a chain are one contiguous log.
pub Chain-Contiguous :
    (c : Codec) (o o' : ℕ) (ss : List Segment) (ess : List (List Stored))
    → Chain c o ss ess o'
    → Contiguous o (flatten ess) o'
Chain-Contiguous c o o' [] [] chain_end = refl
Chain-Contiguous c o o' [] (es ∷ ess) x = elim x [ ]
Chain-Contiguous c o o' (s ∷ ss) [] x = elim x [ ]
Chain-Contiguous c o o' (s ∷ ss) (es ∷ ess) (chain_next b h k) =
    Contiguous-append o s.next_offset o' es (flatten ess)
      (subst (λ x. Contiguous x es s.next_offset) b h.contiguous)
      (Chain-Contiguous c s.next_offset o' ss ess k)

pub flatten-snoc :
    (ess : List (List Stored)) (es : List Stored) → flatten (ess ++ (es ∷ [])) ≡ flatten ess ++ es
flatten-snoc [] es = append-nil es
flatten-snoc (es' ∷ ess) es =
    ap (λ x. es' ++ x) (flatten-snoc ess es) ∙ sym (append_assoc es' (flatten ess) es)

-- Sealing a segment maps its whole file.
pub seal-IsSegment :
    (c : Codec) (s : Segment) (es : List Stored) (mapped : Bool)
    → IsSegment c s es
    → IsSegment c (seal s mapped) es
unfolding seal
seal-IsSegment c s es mapped h = elim (Bool-cases ((s.size == 0) || is_some s.mmap || not mapped)) [
  | inl t ↦ simp t h
  | inr t ↦ simp t (record {
    log = h.log;
    size = h.size;
    hold = h.hold;
    contiguous = h.contiguous;
    marks = h.marks;
    index_base = h.index_base;
    few = h.few;
    in_range = h.in_range;
    usable = h.usable;
    mapped = inr (ap some (take_all s.size s.log (omega (arith, h.size))));
  })
]

pub seal-base_offset : (s : Segment) (mapped : Bool) → (seal s mapped).base_offset ≡ s.base_offset
unfolding seal
seal-base_offset s mapped = ground arith

pub seal-next_offset : (s : Segment) (mapped : Bool) → (seal s mapped).next_offset ≡ s.next_offset
unfolding seal
seal-next_offset s mapped = ground arith
