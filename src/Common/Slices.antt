-- ===== src/Common/Slices.antt =====
-- Go's slices as lists: `s[a:b]`, `copy`, and the circular view of a slice.
use native.Mathlib.Nat.{
  mod-add-mod, mod-eq_of_lt, mod-eq-sub-mod, mod-lt, add-zero, zero-add, sub-zero,
}
use mathlib.Core.List.{append-nil, append_assoc}
use go_common.Common.Lists.{length, get_or, set, take, drop, length-set}
use Prim.Native.Nat.{ℕ, zero, suc, ◌+◌, ◌-◌, ◌%◌, ◌≤◌, ◌<◌}
use mathlib.Core.Path.{◌≡◌, refl, sym, ap, ap₂, subst, ◌∙◌}
use mathlib.Core.Logic.{◌≢◌}
use mathlib.Core.List.{List, [], ◌∷◌, ◌++◌}
use native.Mathlib.Omega.{arith}
use native.Mathlib.Decide.{dec_lt}

-- `copy(dst[i:], src)`: as many items as both sides have.
abbrev pub copy_at {ℓ} : {A : Type ℓ} → List A → ℕ → List A → List A
copy_at [] i src = []
copy_at (x ∷ xs) zero [] = x ∷ xs
copy_at (x ∷ xs) zero (y ∷ ys) = y ∷ copy_at xs zero ys
copy_at (x ∷ xs) (suc i) src = x ∷ copy_at xs i src

-- `s[a:b]`
abbrev pub slice {ℓ} : {A : Type ℓ} → List A → ℕ → ℕ → List A
slice s a b = take (b - a) (drop a s)

pub length-copy_at {ℓ} :
    {A : Type ℓ} (xs : List A) (i : ℕ) (src : List A) → length (copy_at xs i src) ≡ length xs
length-copy_at [] i src = refl
length-copy_at (x ∷ xs) zero [] = refl
length-copy_at (x ∷ xs) zero (y ∷ ys) = ap suc (length-copy_at xs zero ys)
length-copy_at (x ∷ xs) (suc i) src = ap suc (length-copy_at xs i src)

pub copy_at-nil {ℓ} : {A : Type ℓ} (xs : List A) (i : ℕ) → copy_at xs i [] ≡ xs
copy_at-nil [] i = refl
copy_at-nil (x ∷ xs) zero = refl
copy_at-nil (x ∷ xs) (suc i) = ap (◌∷◌ x) (copy_at-nil xs i)

pub take-drop-suc :
    (xs : List ℕ) (h n : ℕ)
    → h < length xs
    → take (suc n) (drop h xs) ≡ get_or xs h 0 ∷ take n (drop (suc h) xs)
take-drop-suc [] h n lt = absurd (omega arith)
take-drop-suc (x ∷ xs) zero n lt = refl
take-drop-suc (x ∷ xs) (suc h) n lt = take-drop-suc xs h n (omega arith)

get_or-set_self : (xs : List ℕ) (i v d : ℕ) → i < length xs → get_or (set xs i v) i d ≡ v
get_or-set_self [] i v d h = absurd (omega arith)
get_or-set_self (x ∷ xs) zero v d h = refl
get_or-set_self (x ∷ xs) (suc i) v d h = get_or-set_self xs i v d (omega arith)

get_or-set_ne : (xs : List ℕ) (i j v d : ℕ) → i ≢ j → get_or (set xs i v) j d ≡ get_or xs j d
get_or-set_ne [] i j v d h = refl
get_or-set_ne (x ∷ xs) zero zero v d h = absurd (h refl)
get_or-set_ne (x ∷ xs) zero (suc j) v d h = refl
get_or-set_ne (x ∷ xs) (suc i) zero v d h = refl
get_or-set_ne (x ∷ xs) (suc i) (suc j) v d h = get_or-set_ne xs i j v d (λ e. h (ap suc e))

pub take_all {ℓ} : {A : Type ℓ} (n : ℕ) (xs : List A) → length xs ≤ n → take n xs ≡ xs
take_all zero [] h = refl
take_all zero (x ∷ xs) h = absurd (omega arith)
take_all (suc n) [] h = refl
take_all (suc n) (x ∷ xs) h = ap (◌∷◌ x) (take_all n xs (omega arith))

pub take-nil {ℓ} : (A : Type ℓ) (n : ℕ) → take {A = A} n [] ≡ []
take-nil A zero = refl
take-nil A (suc n) = refl

pub drop_all {ℓ} : {A : Type ℓ} (n : ℕ) (xs : List A) → length xs ≤ n → drop n xs ≡ []
drop_all zero [] h = refl
drop_all zero (x ∷ xs) h = absurd (omega arith)
drop_all (suc n) [] h = refl
drop_all (suc n) (x ∷ xs) h = drop_all n xs (omega arith)

-- Item by item.
copy_at-cons {ℓ} :
    {A : Type ℓ} (xs : List A) (i : ℕ) (y : A) (ys : List A)
    → copy_at xs i (y ∷ ys) ≡ copy_at (set xs i y) (suc i) ys
copy_at-cons [] i y ys = refl
copy_at-cons (x ∷ xs) zero y ys = refl
copy_at-cons (x ∷ xs) (suc i) y ys = ap (◌∷◌ x) (copy_at-cons xs i y ys)

pub copy_at_one {ℓ} :
    {A : Type ℓ} (xs : List A) (i : ℕ) (y : A) → copy_at xs i (y ∷ []) ≡ set xs i y
copy_at_one xs i y = copy_at-cons xs i y [] ∙ copy_at-nil (set xs i y) (suc i)

pub suc-mod : (h size : ℕ) → suc h % size ≡ (h % size + 1) % size
suc-mod h size = let e : suc h ≡ h + 1 = omega arith in rw e (sym (mod-add-mod h size 1))

-- The `n` items from position `h` on of a buffer that goes round at `cap`.
abbrev pub window : List ℕ → ℕ → ℕ → ℕ → List ℕ
window buf size h zero = []
window buf size h (suc n) = get_or buf (h % size) 0 ∷ window buf size (suc h) n

module _ (buf : List ℕ) (size : ℕ) where
  pub length-window : (h n : ℕ) → length (window buf size h n) ≡ n
  length-window h zero = refl
  length-window h (suc n) = ap suc (length-window (suc h) n)

  -- Only the start's remainder counts.
  pub window-mod : (h h' n : ℕ) → h % size ≡ h' % size → window buf size h n ≡ window buf size h' n
  window-mod h h' zero e = refl
  window-mod h h' (suc n) e =
      ap₂ ◌∷◌ (ap (λ k. get_or buf k 0) e)
        (window-mod (suc h) (suc h') n (suc-mod h size ∙ rw e (sym (suc-mod h' size))))

  pub window-add :
      (h a b : ℕ) → window buf size h (a + b) ≡ window buf size h a ++ window buf size (h + a) b
  window-add h zero b = rw (zero-add, add-zero)
  window-add h (suc a) b =
      let e : suc a + b ≡ suc (a + b) = omega arith in
      let e' : h + suc a ≡ suc h + a = omega arith in
      rw (e, e') (ap (◌∷◌ (get_or buf (h % size) 0)) (window-add (suc h) a b))

  -- The first items of a window, and what is left.
  pub take-window : (h n k : ℕ) → k ≤ n → take k (window buf size h n) ≡ window buf size h k
  take-window h n zero le = refl
  take-window h zero (suc k) le = absurd (omega arith)
  take-window h (suc n) (suc k) le =
      ap (◌∷◌ (get_or buf (h % size) 0)) (take-window (suc h) n k (omega arith))

  pub drop-window :
      (h n k : ℕ) → k ≤ n → drop k (window buf size h n) ≡ window buf size (h + k) (n - k)
  drop-window h n zero le = rw (add-zero, sub-zero)
  drop-window h zero (suc k) le = absurd (omega arith)
  drop-window h (suc n) (suc k) le =
      let e : h + suc k ≡ suc h + k = omega arith in
      let e' : suc n - suc k ≡ n - k = omega arith in
      rw (e, e') (drop-window (suc h) n k (omega arith))

  -- A window that does not go round is a slice.
  pub window-slice :
      (h n : ℕ) → h + n ≤ size → size ≤ length buf → window buf size h n ≡ take n (drop h buf)
  window-slice h zero le fits = refl
  window-slice h (suc n) le fits =
      rw (mod-eq_of_lt {n = h} {m = size} (omega arith), take-drop-suc buf h n (omega arith))
        (ap (◌∷◌ (get_or buf h 0)) (window-slice (suc h) n (omega arith) fits))

-- Fewer than `cap` steps round do not come back.
add-mod-ne : (size r k : ℕ) → r < size → 0 < k → k < size → (r + k) % size ≢ r
add-mod-ne size r k hr pos hk e = elim (dec_lt (r + k) size) [
  | yes p ↦ omega (arith, mod-eq_of_lt p)
  | no p ↦ omega (
    arith,
    mod-eq-sub-mod {n = r + k} {m = size} (omega arith),
    mod-eq_of_lt {n = r + k - size} {m = size} (omega arith),
  )
]

mod-ne : (size h k : ℕ) → 0 < k → k < size → (h + k) % size ≢ h % size
mod-ne size h k pos hk =
    rw (← mod-add-mod) (add-mod-ne size (h % size) k (mod-lt h (omega arith)) pos hk)

window-set_ne :
    (buf : List ℕ) (size x h n : ℕ)
    → n < size
    → window (set buf ((h + n) % size) x) size h n ≡ window buf size h n
window-set_ne buf size x h zero lt = refl
window-set_ne buf size x h (suc n) lt =
    let e : h + suc n ≡ suc h + n = omega arith in
    ap₂ ◌∷◌ (get_or-set_ne buf _ (h % size) x 0 (mod-ne size h (suc n) (omega arith) lt)) (
      subst (λ j. window (set buf (j % size) x) size (suc h) n ≡ window buf size (suc h) n) (sym e)
        (window-set_ne buf size x (suc h) n (omega arith)))

-- A write just past a window extends it.
window-set :
    (buf : List ℕ) (size x h n : ℕ)
    → length buf ≡ size
    → n < size
    → window (set buf ((h + n) % size) x) size h (n + 1) ≡ window buf size h n ++ (x ∷ [])
window-set buf size x h n hl lt =
    window-add (set buf ((h + n) % size) x) size h n 1
    ∙ ap₂ ◌++◌ (window-set_ne buf size x h n lt) (
        ap (λ v. v ∷ [])
          (get_or-set_self buf ((h + n) % size) x 0 (rw hl (mod-lt (h + n) (omega arith)))))

-- So does a copy that does not go round.
pub window-copy_at :
    (p buf : List ℕ) (size h n w : ℕ)
    → length buf ≡ size
    → n + length p ≤ size
    → w + length p ≤ size
    → w % size ≡ (h + n) % size
    → window (copy_at buf w p) size h (n + length p) ≡ window buf size h n ++ p
window-copy_at [] buf size h n w hl fits room e = rw (copy_at-nil, add-zero, append-nil)
window-copy_at (x ∷ xs) buf size h n w hl fits room e =
    let at : w ≡ (h + n) % size = sym (mod-eq_of_lt {n = w} {m = size} (omega arith)) ∙ e in
    let e' : n + suc (length xs) ≡ n + 1 + length xs = omega arith in
    rw (copy_at-cons buf w x xs, e')
      (window-copy_at xs (set buf w x) size h (n + 1) (suc w) (length-set buf w x ∙ hl)
          (omega arith) (omega arith) (next (h + n) (h + (n + 1)) e (omega arith))
        ∙ rw at (ap (λ l. l ++ xs) (window-set buf size x h n hl (omega arith)))
        ∙ append_assoc (window buf size h n) (x ∷ []) xs)
  where
    next : (j k : ℕ) → w % size ≡ j % size → k ≡ suc j → suc w % size ≡ k % size
    next j k e q = rw q (suc-mod w size ∙ rw e (sym (suc-mod j size)))

zero_less : (n : ℕ) → 0 ≡ 0 - n
zero_less n = omega arith

suc_less : (n m : ℕ) → n - m ≡ suc n - suc m
suc_less n m = omega arith

-- Taking and dropping across two lists.
pub take-append_both {ℓ} :
    {A : Type ℓ} (n : ℕ) (xs ys : List A) → take n (xs ++ ys) ≡ take n xs ++ take (n - length xs) ys
take-append_both zero xs ys = ap (λ k. take k ys) (zero_less (length xs))
take-append_both (suc n) [] ys = ap (λ k. take k ys) (sym (sub-zero (suc n)))
take-append_both (suc n) (x ∷ xs) ys =
    ap (◌∷◌ x)
      (take-append_both n xs ys ∙ ap (λ k. take n xs ++ take k ys) (suc_less n (length xs)))

pub drop-append_both {ℓ} :
    {A : Type ℓ} (n : ℕ) (xs ys : List A) → drop n (xs ++ ys) ≡ drop n xs ++ drop (n - length xs) ys
drop-append_both zero xs ys = ap (λ k. xs ++ drop k ys) (zero_less (length xs))
drop-append_both (suc n) [] ys = ap (λ k. drop k ys) (sym (sub-zero (suc n)))
drop-append_both (suc n) (x ∷ xs) ys =
    drop-append_both n xs ys ∙ ap (λ k. drop n xs ++ drop k ys) (suc_less n (length xs))

none_over : (n m : ℕ) → n ≤ m → n - m ≡ 0
none_over n m h = omega arith

pub take-append_within {ℓ} :
    {A : Type ℓ} (n : ℕ) (xs ys : List A) → n ≤ length xs → take n (xs ++ ys) ≡ take n xs
take-append_within n xs ys h =
    take-append_both n xs ys
    ∙ ap (λ k. take n xs ++ take k ys) (none_over n (length xs) h)
    ∙ append-nil (take n xs)

pub take-append_beyond {ℓ} :
    {A : Type ℓ} (n : ℕ) (xs ys : List A)
    → length xs ≤ n
    → take n (xs ++ ys) ≡ xs ++ take (n - length xs) ys
take-append_beyond n xs ys h =
    take-append_both n xs ys ∙ ap (λ k. k ++ take (n - length xs) ys) (take_all n xs h)

pub drop-append_within {ℓ} :
    {A : Type ℓ} (n : ℕ) (xs ys : List A) → n ≤ length xs → drop n (xs ++ ys) ≡ drop n xs ++ ys
drop-append_within n xs ys h =
    drop-append_both n xs ys ∙ ap (λ k. drop n xs ++ drop k ys) (none_over n (length xs) h)

pub drop-append_beyond {ℓ} :
    {A : Type ℓ} (n : ℕ) (xs ys : List A)
    → length xs ≤ n
    → drop n (xs ++ ys) ≡ drop (n - length xs) ys
drop-append_beyond n xs ys h =
    drop-append_both n xs ys ∙ ap (λ k. k ++ drop (n - length xs) ys) (drop_all n xs h)
