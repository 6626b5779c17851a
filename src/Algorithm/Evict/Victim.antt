-- ===== src/Algorithm/Evict/Victim.antt =====
-- The victim is an entry of the pool, and no candidate is older, or less frequent, than it.
use go_common.Common.{
  ℕ, zero, suc, ◌+◌, ◌≤◌, ◌<◌, ◌≡◌, refl, true, false, some, List, [], ◌∷◌, ltb, leb, inl, inr, ◌⊎◌,
  length, get_or, arith, Bool-cases, ap, sym, subst,
}
use go_common.Common.Int.{ℤ, ltb_ℤ, ◌≤ℤ◌}
use go_common.Algorithm.Evict.{
  LruEntry, LfuEntry, oldest_from, least_from, draw, sample_of, candidates, select_lru_victim,
  select_lfu_victim, first_oldest, first_least,
}

-- Membership, and a statement of every member, by recursion on the list.
abbrev pub IsIn : {A : Type 0} → A → List A → Type 0
IsIn v [] = ⊥
IsIn v (x ∷ xs) = (v ≡ x) ⊎ IsIn v xs

abbrev pub All : {A : Type 0} → (A → Type 0) → List A → Type 0
All P [] = Unit
All P (x ∷ xs) = P x × All P xs

-- What the choice by a measure promises: a member that no other goes below.
pub record IsOldest (es : List LruEntry) (v : LruEntry) : Type 0 where
  pub member : IsIn v es
  pub least : All (λ e. v.last_access ≤ℤ e.last_access) es

pub record IsLeast (es : List LfuEntry) (v : LfuEntry) : Type 0 where
  pub member : IsIn v es
  pub least : All (λ e. v.counter ≤ e.counter) es

pub oldest_from-IsOldest :
    (es : List LruEntry) (o : LruEntry) → IsOldest (o ∷ es) (oldest_from o es)
unfolding oldest_from
oldest_from-IsOldest [] o = ground arith
oldest_from-IsOldest (x ∷ es) o = elim (Bool-cases (ltb_ℤ x.last_access o.last_access)) [
  | inl t ↦ rw t (ground (arith, oldest_from-IsOldest es x))
  | inr t ↦ rw t (ground (arith, oldest_from-IsOldest es o))
]

pub least_from-IsLeast : (es : List LfuEntry) (o : LfuEntry) → IsLeast (o ∷ es) (least_from o es)
unfolding least_from
least_from-IsLeast [] o = ground arith
least_from-IsLeast (x ∷ es) o = elim (Bool-cases (ltb x.counter o.counter)) [
  | inl t ↦ rw t (ground (arith, least_from-IsLeast es x))
  | inr t ↦ rw t (ground (arith, least_from-IsLeast es o))
]

module _ {A : Type 0} where
  get_or_cases : (es : List A) (i : ℕ) (d : A) → IsIn (get_or es i d) es ⊎ (get_or es i d ≡ d)
  get_or_cases [] i d = inr refl
  get_or_cases (x ∷ xs) zero d = inl (inl refl)
  get_or_cases (x ∷ xs) (suc i) d = elim (get_or_cases xs i d) [
    | inl m ↦ inl (inr m)
    | inr e ↦ inr e
  ]

  drawn : (pool : List A) (i : ℕ) (d : A) → IsIn d pool → IsIn (get_or pool i d) pool
  drawn pool i d m = elim (get_or_cases pool i d) [
    | inl k ↦ k
    | inr e ↦ subst (λ v. IsIn v pool) (sym e) m
  ]

  draw-IsIn :
      (rand : ℕ → ℕ) (pool : List A) (d : A) (i k : ℕ) (v : A)
      → IsIn d pool
      → IsIn v (draw rand pool d i k)
      → IsIn v pool
  unfolding draw
  draw-IsIn rand pool d i zero v m h = absurd h
  draw-IsIn rand pool d i (suc k) v m (inl e) =
      subst (λ w. IsIn w pool) (sym e) (drawn pool (rand i) d m)
  draw-IsIn rand pool d i (suc k) v m (inr h) = draw-IsIn rand pool d (i + 1) k v m h

  -- Every candidate is an entry of the pool; there is one; a large enough sample is the pool itself.
  candidates-IsIn :
      (rand : ℕ → ℕ) (e : A) (es : List A) (s : ℤ) (v : A)
      → IsIn v (candidates rand e es s)
      → IsIn v (e ∷ es)
  unfolding candidates
  candidates-IsIn rand e es s v h = elim (Bool-cases (leb (length (e ∷ es)) (sample_of s))) [
    | inl t ↦ subst (λ l. IsIn v l) (whole t) h
    | inr t ↦
        draw-IsIn rand (e ∷ es) e 0 (sample_of s) v (inl refl) (subst (λ l. IsIn v l) (part t) h)
  ]
    where
      whole : leb (length (e ∷ es)) (sample_of s) ≡ true → candidates rand e es s ≡ e ∷ es
      whole t = rw t

      part :
          leb (length (e ∷ es)) (sample_of s) ≡ false
          → candidates rand e es s ≡ draw rand (e ∷ es) e 0 (sample_of s)
      part t = rw t

  candidates_all :
      (rand : ℕ → ℕ) (e : A) (es : List A) (s : ℤ)
      → length (e ∷ es) ≤ sample_of s
      → candidates rand e es s ≡ e ∷ es
  unfolding candidates
  candidates_all rand e es s le =
      let t : leb (length (e ∷ es)) (sample_of s) ≡ true = ground arith in rw t

  candidates_cons :
      (rand : ℕ → ℕ) (e : A) (es : List A) (s : ℤ)
      → (c : A) × (cs : List A) × (candidates rand e es s ≡ c ∷ cs)
  unfolding candidates
  candidates_cons rand e es s = elim (Bool-cases (leb (length (e ∷ es)) (sample_of s))) [
    | inl t ↦ (e, es, rw t)
    | inr t ↦ rw t (some_drawn (sample_of s) (sample-pos s))
  ]
    where
      sample-pos : (s : ℤ) → 0 < sample_of s
      sample-pos s = unfold sample_of in ground arith

      some_drawn : (k : ℕ) → 0 < k → (c : A) × (cs : List A) × (draw rand (e ∷ es) e 0 k ≡ c ∷ cs)
      some_drawn zero h = absurd (omega arith)
      some_drawn (suc k) h = unfold draw in (_, _, refl)

-- Whatever is drawn, a pool that is not empty has a victim: one of its entries, with no older entry
-- among the candidates, and none in the whole pool where the sample size is at least its length.
pub select_lru_victim_lem :
    (rand : ℕ → ℕ) (e : LruEntry) (es : List LruEntry) (s : ℤ)
    → (v : LruEntry) × (select_lru_victim rand (e ∷ es) s ≡ some v)
      × IsIn v (e ∷ es)
      × IsOldest (candidates rand e es s) v
      × (length (e ∷ es) ≤ sample_of s → IsOldest (e ∷ es) v)
unfolding select_lru_victim
select_lru_victim_lem rand e es s =
    let (c, cs, q) = candidates_cons rand e es s in
    let o = oldest_from-IsOldest cs c in
    let v = oldest_from c cs in
    let best : IsOldest (candidates rand e es s) v = rw q o in
    (
      v,
      ap first_oldest q,
      candidates-IsIn rand e es s v best.member,
      best,
      λ le. subst (λ l. IsOldest l v) (candidates_all rand e es s le) best,
    )

-- Whatever is drawn, a pool that is not empty has an LFU victim: one of its entries, with no lower
-- counter among the candidates, and none in the whole pool where the sample size is at least its
-- length.
pub select_lfu_victim_lem :
    (rand : ℕ → ℕ) (e : LfuEntry) (es : List LfuEntry) (s : ℤ)
    → (v : LfuEntry) × (select_lfu_victim rand (e ∷ es) s ≡ some v)
      × IsIn v (e ∷ es)
      × IsLeast (candidates rand e es s) v
      × (length (e ∷ es) ≤ sample_of s → IsLeast (e ∷ es) v)
unfolding select_lfu_victim
select_lfu_victim_lem rand e es s =
    let (c, cs, q) = candidates_cons rand e es s in
    let o = least_from-IsLeast cs c in
    let v = least_from c cs in
    let best : IsLeast (candidates rand e es s) v = rw q o in
    (
      v,
      ap first_least q,
      candidates-IsIn rand e es s v best.member,
      best,
      λ le. subst (λ l. IsLeast l v) (candidates_all rand e es s le) best,
    )
