-- ===== src/Encoding/Base62/Bytes.antt =====
-- `Encode` and `Decode` of bytes.
use mathlib.Core.List.{append-nil}
use native.Mathlib.Nat.{zero-add}
use go_common.Common.{
  ℕ, zero, suc, ◌+◌, ◌*◌, ◌/◌, ◌%◌, ◌≤◌, ◌<◌, ◌≡◌, refl, sym, ap, ap₂, ◌∙◌, true, false, Option,
  none, some, List, [], ◌∷◌, ◌++◌, leb-false, ◌==◌, drop, replicate, arith, Bool-cases, inl, inr,
  ◌⊎◌,
}
use go_common.Encoding.Base62.{
  char_of, index_of, append_digits, turned_onto, leading, value_from, digits_onto, encode,
  number_from, with_zeros, decode,
}
use go_common.Encoding.Base62.Digits.{
  index_of-char_of, append_digits-cons, append_digits-zero, digits_onto-value_from,
  digits_onto-step, digits_onto-fuel, AllBytes,
}

number_from-cons :
    (n d : ℕ) (cs : List ℕ) → d < 62 → number_from n (char_of d ∷ cs) ≡ number_from (n * 62 + d) cs
unfolding number_from
number_from-cons n d cs h =
    let k = index_of-char_of d h in rw (leb-false 128 (char_of d) k.1) (rw (k.0) refl)

-- Reading the digits of a number gives it back.
number_from-digits :
    (fuel n : ℕ) (acc : List ℕ)
    → n ≤ fuel
    → number_from 0 (turned_onto (append_digits fuel n) acc) ≡ number_from n acc
number_from-digits zero n acc h =
    ap (λ m. number_from 0 (turned_onto (append_digits zero m) acc)) (omega arith)
    ∙ ap (number_from 0) (append_digits-zero zero acc)
    ∙ ap (λ m. number_from m acc) (omega arith)
number_from-digits (suc fuel) zero acc h = ap (number_from 0) (append_digits-zero (suc fuel) acc)
number_from-digits (suc fuel) (suc n) acc h =
    ap (number_from 0) (append_digits-cons fuel (suc n) acc (omega arith))
    ∙ number_from-digits fuel (suc n / 62) (char_of (suc n % 62) ∷ acc) (omega arith)
    ∙ number_from-cons (suc n / 62) (suc n % 62) acc (omega arith)
    ∙ ap (λ m. number_from m acc) (omega arith)

index_value : Option ℕ → ℕ
index_value none = 0
index_value (some d) = d

-- A digit that is not 0 is not written as 0 is.
char_of-zero : (d : ℕ) → 0 < d → d < 62 → (char_of d == char_of 0) ≡ false
unfolding index_value
char_of-zero d h k = elim (Bool-cases (char_of d == char_of 0)) [
  | inr f ↦ f
  | inl t ↦
      let same : char_of d ≡ char_of 0 = ground arith in
      let e =
        sym (index_of-char_of d k).0 ∙ ap index_of same ∙ (index_of-char_of 0 (omega arith)).0 in
      let z : d ≡ 0 = ap index_value e in absurd (omega arith)
]

leading-digits :
    (fuel n : ℕ) (acc : List ℕ)
    → n ≤ fuel
    → ((0 < n) ⊎ (leading (char_of 0) acc ≡ 0))
    → leading (char_of 0) (turned_onto (append_digits fuel n) acc) ≡ 0
leading-digits zero n acc h (inl p) = absurd (omega arith)
leading-digits zero n acc h (inr e) =
    ap (λ m. leading (char_of 0) (turned_onto (append_digits zero m) acc)) (omega arith)
    ∙ ap (leading (char_of 0)) (append_digits-zero zero acc)
    ∙ e
leading-digits (suc fuel) zero acc h (inl p) = absurd (omega arith)
leading-digits (suc fuel) zero acc h (inr e) =
    ap (leading (char_of 0)) (append_digits-zero (suc fuel) acc) ∙ e
leading-digits (suc fuel) (suc n) acc h p =
    ap (leading (char_of 0)) (append_digits-cons fuel (suc n) acc (omega arith))
    ∙ leading-digits fuel (suc n / 62) (char_of (suc n % 62) ∷ acc) (omega arith)
        (elim (Bool-cases (suc n / 62 == 0)) [
          | inr more ↦ inl (ground arith)
          | inl first ↦
              let small : 0 < suc n % 62 = ground arith in
              inr (rw (char_of-zero (suc n % 62) small (omega arith)) refl)
        ])

turned_onto-append :
    (xs ys acc : List ℕ) → turned_onto (xs ++ ys) acc ≡ turned_onto ys (turned_onto xs acc)
turned_onto-append [] ys acc = refl
turned_onto-append (x ∷ xs) ys acc = turned_onto-append xs ys (x ∷ acc)

replicate-snoc : (n c : ℕ) (acc : List ℕ) → replicate n c ++ (c ∷ acc) ≡ c ∷ (replicate n c ++ acc)
replicate-snoc zero c acc = refl
replicate-snoc (suc n) c acc = ap (◌∷◌ c) (replicate-snoc n c acc)

turned_onto-replicate :
    (n c : ℕ) (acc : List ℕ) → turned_onto (replicate n c) acc ≡ replicate n c ++ acc
turned_onto-replicate zero c acc = refl
turned_onto-replicate (suc n) c acc = turned_onto-replicate n c (c ∷ acc) ∙ replicate-snoc n c acc

leading-replicate : (n c : ℕ) (xs : List ℕ) → leading c xs ≡ 0 → leading c (replicate n c ++ xs) ≡ n
leading-replicate zero c xs h = h
leading-replicate (suc n) c xs h =
    let t : (c == c) ≡ true = ground arith in rw t (ap suc (leading-replicate n c xs h))

drop-replicate : (n c : ℕ) (xs : List ℕ) → drop n (replicate n c ++ xs) ≡ xs
drop-replicate zero c xs = refl
drop-replicate (suc n) c xs = drop-replicate n c xs

-- Bytes are zeros and then nothing or a byte that is none.
leading-split : (bs : List ℕ) → bs ≡ replicate (leading 0 bs) 0 ++ drop (leading 0 bs) bs
leading-split [] = refl
leading-split (b ∷ bs) = elim (Bool-cases (b == 0)) [
  | inr f ↦ rw f refl
  | inl t ↦ let z : b ≡ 0 = ground arith in rw t (ap₂ ◌∷◌ z (leading-split bs))
]

one_byte : (b : ℕ) (acc : List ℕ) → 0 < b → b < 256 → digits_onto 256 b b acc ≡ b ∷ acc
unfolding digits_onto
one_byte zero acc h k = absurd (omega arith)
one_byte (suc b) acc h k =
    digits_onto-step b (suc b) acc h
    ∙ ap₂ (λ q r. digits_onto 256 b q (r ∷ acc)) (omega arith) (omega arith)
    ∙ digits_onto-fuel b 0 0 (suc b ∷ acc) (omega arith) (omega arith)

drop-leading :
    (bs : List ℕ)
    → AllBytes bs
    → digits_onto 256
        (value_from 256 0 (drop (leading 0 bs) bs))
        (value_from 256 0 (drop (leading 0 bs) bs))
        []
      ≡ drop (leading 0 bs) bs
unfolding digits_onto
drop-leading [] h = refl
drop-leading (b ∷ bs) h = elim (Bool-cases (b == 0)) [
  | inl t ↦ rw t (drop-leading bs h.1)
  | inr f ↦
      let b_pos : 0 < b = ground arith in
      rw f (
        ap (λ v. digits_onto 256 (value_from 256 v bs) (value_from 256 v bs) []) (zero-add b)
        ∙ digits_onto-value_from b bs [] b_pos h.1
        ∙ one_byte b (bs ++ []) b_pos h.0
        ∙ ap (◌∷◌ b) (append-nil bs))
]

number_from-nil : (n : ℕ) → number_from n [] ≡ some n
unfolding number_from
number_from-nil n = refl

-- Any bytes come back from their encoding, zeros in front and no bytes at all included.
pub decode-encode : (bs : List ℕ) → AllBytes bs → decode (encode bs) ≡ some bs
unfolding decode encode
decode-encode bs h =
    let z = leading 0 bs in
    let n = value_from 256 0 (drop z bs) in
    let text = turned_onto (append_digits n n) [] in
    let out : turned_onto (append_digits n n ++ replicate z (char_of 0)) []
        ≡ replicate z (char_of 0) ++ text =
      turned_onto-append (append_digits n n) (replicate z (char_of 0)) []
      ∙ turned_onto-replicate z (char_of 0) text in
    let first =
      leading-replicate z (char_of 0) text (leading-digits n n [] (omega arith) (inr refl)) in
    let number = number_from-digits n n [] (omega arith) in
    rw (out, first, drop-replicate z (char_of 0) text)
      (ap (with_zeros z) (number ∙ number_from-nil n)
        ∙ ap some (ap (λ x. replicate z 0 ++ x) (drop-leading bs h) ∙ sym (leading-split bs)))
