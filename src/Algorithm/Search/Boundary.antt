-- ===== src/Algorithm/Search/Boundary.antt =====
-- `binary_search` returns the boundary of a condition that stays true once it is true.
use native.Mathlib.Nat.{pow-suc}
use go_common.Common.{
  ℕ, zero, suc, ◌+◌, ◌*◌, ◌/◌, ◌^◌, ◌<◌, ◌≡◌, Bool, true, false, some, inl, inr, arith, Bool-cases,
}
use go_common.Common.Int.{
  ℤ, pos, pos_part, neg_part, ◌+ℤ◌, ◌-ℤ◌, ◌≤ℤ◌, ◌<ℤ◌, leb_ℤ, i64, InI64, i64-eq, int_laws, +ℤ_parts,
  -ℤ_parts, one_part, InI64-between, leb_ℤ→≤ℤ, leb_ℤ→<ℤ,
}
use go_common.Algorithm.Search.{mid_of, search_loop, binary_search}

-- `b` is where `f` turns true on [l, r]: `r + 1` where it never does.
pub record IsBoundary (l r : ℤ) (f : ℤ → Bool) (b : ℤ) : Type 0 where
  pub lower : l ≤ℤ b
  pub upper : b ≤ℤ r +ℤ pos 1
  pub before : (i : ℤ) → l ≤ℤ i → i <ℤ b → f i ≡ false
  pub from : (i : ℤ) → b ≤ℤ i → i ≤ℤ r → f i ≡ true

abbrev pub IsMonotone : ℤ → ℤ → (ℤ → Bool) → Type 0
IsMonotone l r f = (i j : ℤ) → l ≤ℤ i → i ≤ℤ j → j ≤ℤ r → f i ≡ true → f j ≡ true

-- [l, r] has fewer than `k` members.
abbrev Within : ℤ → ℤ → ℕ → Type 0
Within l r k = pos_part r + neg_part l + 1 < k + pos_part l + neg_part r

-- The least and greatest `int` are no ends, and `r - l` does not overflow.
pub record FitsInt (l r : ℤ) : Type 0 where
  pub left : InI64 (l -ℤ pos 1)
  pub right : InI64 (r +ℤ pos 1)
  pub span : InI64 (r -ℤ l)

pow_two : (k : ℕ) → 2 * 2 ^ k ≡ 2 ^ suc k
pow_two k = rw pow-suc (omega arith)

pos_form : (d : ℤ) → pos 0 ≤ℤ d → d ≡ pos (pos_part d)
pos_form d h = ground arith

-- Nothing wraps in the middle.
mid_of-eq :
    (l r : ℤ)
    → InI64 l
    → InI64 r
    → InI64 (r -ℤ l)
    → l ≤ℤ r
    → mid_of l r ≡ l +ℤ pos (pos_part (r -ℤ l) / 2)
unfolding mid_of
mid_of-eq l r il ir span le =
    rw (i64-eq (r -ℤ l) span, pos_form (r -ℤ l) (omega int_laws))
      (i64-eq (l +ℤ pos (pos_part (r -ℤ l) / 2))
        (omega (arith, +ℤ_parts l (pos (pos_part (r -ℤ l) / 2)), -ℤ_parts r l, one_part _)))

-- What the loop knows at [l, r] inside [a, b].
record IsOpen (a b : ℤ) (f : ℤ → Bool) (l r : ℤ) : Type 0 where
  left : a ≤ℤ l
  right : r ≤ℤ b
  order : l ≤ℤ r +ℤ pos 1
  below : (i : ℤ) → a ≤ℤ i → i <ℤ l → f i ≡ false
  above : (i : ℤ) → r <ℤ i → i ≤ℤ b → f i ≡ true

module _ (a b : ℤ) (f : ℤ → Bool) (mono : IsMonotone a b f) (fits : FitsInt a b) where
  -- The facts about the middle that the rounds share.
  record IsMiddle (l r m : ℤ) : Type 0 where
    eq : mid_of l r ≡ m
    lower : l ≤ℤ m
    upper : m ≤ℤ r
    pred : i64 (m -ℤ pos 1) ≡ m -ℤ pos 1
    next : i64 (m +ℤ pos 1) ≡ m +ℤ pos 1
    left_half : (k : ℕ) → Within l r (2 * k) → Within l (m -ℤ pos 1) k
    right_half : (k : ℕ) → Within l r (2 * k) → Within (m +ℤ pos 1) r k

  middle : (l r : ℤ) → IsOpen a b f l r → l ≤ℤ r → (m : ℤ) × IsMiddle l r m
  middle l r o le =
      let h = pos_part (r -ℤ l) / 2 in
      let m = l +ℤ pos h in
      let il =
        InI64-between (a -ℤ pos 1) l (b +ℤ pos 1) fits.left fits.right (omega int_laws)
          (omega int_laws) in
      let ir =
        InI64-between (a -ℤ pos 1) r (b +ℤ pos 1) fits.left fits.right (omega int_laws)
          (omega int_laws) in
      let up : m ≤ℤ r = omega (int_laws, one_part (r -ℤ l)) in
      (
        m,
        record {
          eq =
              mid_of-eq l r il ir
                (InI64-between (pos 0) (r -ℤ l) (b -ℤ a) (omega arith) fits.span (omega int_laws)
                  (omega int_laws))
                le;
          lower = omega int_laws;
          upper = up;
          pred = i64-eq _ (
              InI64-between (a -ℤ pos 1) (m -ℤ pos 1) (b +ℤ pos 1) fits.left fits.right
                (omega int_laws) (omega int_laws));
          next = i64-eq _ (
              InI64-between (a -ℤ pos 1) (m +ℤ pos 1) (b +ℤ pos 1) fits.left fits.right
                (omega int_laws) (omega int_laws));
          left_half = λ k w. omega (int_laws, one_part (r -ℤ l));
          right_half = λ k w. omega (int_laws, one_part (r -ℤ l));
        },
      )

  IsOpen-left :
      (l r m : ℤ) → IsOpen a b f l r → IsMiddle l r m → f m ≡ true → IsOpen a b f l (m -ℤ pos 1)
  IsOpen-left l r m o h t = record {
    left = o.left;
    right = omega (int_laws, o, h);
    order = omega (int_laws, h);
    below = o.below;
    above = λ i lo hi. mono m i (omega (int_laws, o, h)) (omega (int_laws)) hi t;
  }

  IsOpen-right :
      (l r m : ℤ) → IsOpen a b f l r → IsMiddle l r m → f m ≡ false → IsOpen a b f (m +ℤ pos 1) r
  IsOpen-right l r m o h t = record {
    left = omega (int_laws, o, h);
    right = o.right;
    order = omega (int_laws, h);
    below = λ i lo hi. elim (Bool-cases (f i)) [
      | inl e ↦ cc (mono i m lo (omega int_laws) (omega (int_laws, o, h)) e)
      | inr e ↦ e
    ];
    above = o.above;
  }

  closed : (l r : ℤ) → IsOpen a b f l r → r <ℤ l → IsBoundary a b f l
  closed l r o h = record {
    lower = o.left;
    upper = omega (int_laws, o);
    before = o.below;
    from = λ i lo hi. o.above i (omega int_laws) hi;
  }

  loop-IsBoundary :
      (k : ℕ) (l r : ℤ)
      → Within l r (2 ^ k)
      → IsOpen a b f l r
      → (c : ℤ) × (search_loop (suc k) l r f ≡ some c) × IsBoundary a b f c
  unfolding search_loop
  loop-IsBoundary zero l r w o = elim (Bool-cases (leb_ℤ l r)) [
    | inr gt ↦ (l, rw gt, closed l r o (leb_ℤ→<ℤ l r gt))
    | inl le ↦ absurd (omega (arith, leb_ℤ→≤ℤ l r le))
  ]
  loop-IsBoundary (suc k) l r w o = elim (Bool-cases (leb_ℤ l r)) [
    | inr gt ↦ (l, rw gt, closed l r o (leb_ℤ→<ℤ l r gt))
    | inl le ↦
        let (m, h) = middle l r o (leb_ℤ→≤ℤ l r le) in
        let w' : Within l r (2 * 2 ^ k) = rw (pow_two k) w in
        elim (Bool-cases (f m)) [
          | inl t ↦
              rw (le, h.eq, t, h.pred)
                (loop-IsBoundary k l (m -ℤ pos 1) (h.left_half (2 ^ k) w')
                  (IsOpen-left l r m o h t))
          | inr t ↦
              rw (le, h.eq, t, h.next)
                (loop-IsBoundary k (m +ℤ pos 1) r (h.right_half (2 ^ k) w')
                  (IsOpen-right l r m o h t))
        ]
  ]

-- On an interval whose ends are neither the least nor the greatest `int`, and whose length an
-- `int` holds, a condition that stays true once it is true has its boundary found: the search
-- ends, everything before the result fails the condition and everything from it on meets it.
pub binary_search-IsBoundary :
    (l r : ℤ) (f : ℤ → Bool)
    → FitsInt l r
    → l ≤ℤ r +ℤ pos 1
    → IsMonotone l r f
    → (b : ℤ) × (binary_search l r f ≡ some b) × IsBoundary l r f b
unfolding binary_search
binary_search-IsBoundary l r f fits le mono =
    loop-IsBoundary l r f mono fits 64 l r (omega (int_laws, fits)) (record {
      left = omega arith;
      right = omega arith;
      order = le;
      below = λ i lo hi. absurd (omega arith);
      above = λ i lo hi. absurd (omega arith);
    })
