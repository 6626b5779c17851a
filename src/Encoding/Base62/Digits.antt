-- ===== src/Encoding/Base62/Digits.antt =====
-- The digits of a number, and the characters that stand for them.
use go_common.Common.{
  ℕ, zero, suc, ◌+◌, ◌*◌, ◌/◌, ◌%◌, ◌≤◌, ◌<◌, ◌≡◌, refl, ap, ap₂, ◌∙◌, Bool, true, false, Option,
  none, some, List, [], ◌∷◌, ◌++◌, ltb, ◌==◌, ◌&&◌, arith, Bool-cases, inl, inr, ltb→lt,
}
use go_common.Encoding.Base62.{
  char_of, index_of, append_digits, turned_onto, value_from, digits_onto,
}

abbrev all_below : (ℕ → Bool) → ℕ → Bool
all_below p zero = true
all_below p (suc n) = p n && all_below p n

and-true : (a b : Bool) → (a && b) ≡ true → (a ≡ true) × (b ≡ true)
and-true true b h = (refl, h)
and-true false b h = absurd (ground arith)

all_below-true : (p : ℕ → Bool) (n d : ℕ) → all_below p n ≡ true → d < n → p d ≡ true
all_below-true p zero d h lt = absurd (omega arith)
all_below-true p (suc n) d h lt =
    let both = and-true (p n) (all_below p n) h in
    elim (Bool-cases (d == n)) [
      | inl t ↦ ap p (ground arith) ∙ both.0
      | inr t ↦ all_below-true p n d both.1 (ground arith)
    ]

abbrev is_digit : Option ℕ → ℕ → Bool
is_digit none d = false
is_digit (some n) d = n == d

is_digit-some : (o : Option ℕ) (d : ℕ) → is_digit o d ≡ true → o ≡ some d
is_digit-some none d h = absurd (ground arith)
is_digit-some (some n) d h = ap some (ground arith)

abbrev good : ℕ → Bool
good d = is_digit (index_of (char_of d)) d && ltb (char_of d) 128

all_good : all_below good 62 ≡ true
unfolding index_of char_of
all_good = refl

-- Each of the 62 characters is found again.
pub index_of-char_of : (d : ℕ) → d < 62 → (index_of (char_of d) ≡ some d) × (char_of d < 128)
index_of-char_of d h =
    let both =
      and-true (is_digit (index_of (char_of d)) d) (ltb (char_of d) 128)
        (all_below-true good 62 d all_good h) in
    (is_digit-some (index_of (char_of d)) d both.0, ltb→lt (char_of d) 128 both.1)

-- The digits that are appended, turned round in front of other characters.
pub append_digits-cons :
    (fuel n : ℕ) (acc : List ℕ)
    → 0 < n
    → turned_onto (append_digits (suc fuel) n) acc
      ≡ turned_onto (append_digits fuel (n / 62)) (char_of (n % 62) ∷ acc)
unfolding append_digits
append_digits-cons fuel n acc h = let t : (n == 0) ≡ false = ground arith in rw t refl

pub append_digits-zero : (fuel : ℕ) (acc : List ℕ) → turned_onto (append_digits fuel 0) acc ≡ acc
unfolding append_digits
append_digits-zero zero acc = refl
append_digits-zero (suc fuel) acc = refl

-- The bytes of a number do not hang on the fuel, if it is enough.
pub digits_onto-fuel :
    (f g n : ℕ) (acc : List ℕ) → n ≤ f → n ≤ g → digits_onto 256 f n acc ≡ digits_onto 256 g n acc
unfolding digits_onto
digits_onto-fuel zero zero n acc h k = refl
digits_onto-fuel zero (suc g) n acc h k = let t : (n == 0) ≡ true = ground arith in rw t refl
digits_onto-fuel (suc f) zero n acc h k = let t : (n == 0) ≡ true = ground arith in rw t refl
digits_onto-fuel (suc f) (suc g) n acc h k = elim (Bool-cases (n == 0)) [
  | inl t ↦ rw t refl
  | inr t ↦
      let pos_n : 0 < n = ground arith in
      rw t (digits_onto-fuel f g (n / 256) (n % 256 ∷ acc) (omega arith) (omega arith))
]

pub digits_onto-step :
    (m n : ℕ) (acc : List ℕ)
    → 0 < n
    → digits_onto 256 (suc m) n acc ≡ digits_onto 256 m (n / 256) (n % 256 ∷ acc)
unfolding digits_onto
digits_onto-step m n acc h = let t : (n == 0) ≡ false = ground arith in rw t refl

-- One more digit.
pub digits_onto-snoc :
    (v d : ℕ) (acc : List ℕ)
    → 0 < v * 256 + d
    → d < 256
    → digits_onto 256 (v * 256 + d) (v * 256 + d) acc ≡ digits_onto 256 v v (d ∷ acc)
digits_onto-snoc v d acc h k = go (v * 256 + d) h refl
  where
    go : (m : ℕ) → 0 < m → m ≡ v * 256 + d → digits_onto 256 m m acc ≡ digits_onto 256 v v (d ∷ acc)
    go zero p e = absurd (omega arith)
    go (suc m) p e =
        digits_onto-step m (suc m) acc p
        ∙ ap₂ (λ q r. digits_onto 256 m q (r ∷ acc)) (omega arith) (omega arith)
        ∙ digits_onto-fuel m v v (d ∷ acc) (omega arith) (omega arith)

abbrev pub AllBytes : List ℕ → Type 0
AllBytes [] = Unit {0}
AllBytes (b ∷ bs) = (b < 256) × AllBytes bs

-- The bytes of a number made of bytes after `v` are those of `v` and then these.
pub digits_onto-value_from :
    (v : ℕ) (ds acc : List ℕ)
    → 0 < v
    → AllBytes ds
    → digits_onto 256 (value_from 256 v ds) (value_from 256 v ds) acc
      ≡ digits_onto 256 v v (ds ++ acc)
digits_onto-value_from v [] acc h k = refl
digits_onto-value_from v (d ∷ ds) acc h k =
    digits_onto-value_from (v * 256 + d) ds acc (omega arith) k.1
    ∙ digits_onto-snoc v d (ds ++ acc) (omega arith) k.0
