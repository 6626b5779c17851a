-- ===== src/Encoding/Base62/Ids.antt =====
-- `Base62Encode` and `Base62Decode` of identifiers.
use go_common.Common.{
  ℕ, zero, suc, ◌+◌, ◌*◌, ◌/◌, ◌%◌, ◌^◌, ◌≤◌, ◌<◌, ◌≡◌, refl, sym, ap, ◌∙◌, true, false, some, List,
  [], ◌∷◌, ltb, ◌==◌, length, arith, Bool-cases, inl, inr,
}
use go_common.Common.Int.{pos, negsuc, i64, ◌+ℤ◌, ◌-ℤ◌, ◌*ℤ◌}
use go_common.Encoding.Base62.{char_of, fill_chars, base62_encode, id_from, base62_decode}
use go_common.Encoding.Base62.Digits.{index_of-char_of}

-- How many numbers fit into some digits.
abbrev capacity : ℕ → ℕ
capacity zero = 1
capacity (suc room) = 62 * capacity room

i64-next :
    (a d : ℕ)
    → d < 62
    → a * 62 + d < 2 ^ 63
    → i64 (i64 (pos a *ℤ pos 62) +ℤ pos d) ≡ pos (a * 62 + d)
unfolding i64 ◌*ℤ◌ ◌+ℤ◌
i64-next a d h k = ground arith

id_from-cons :
    (a d : ℕ) (cs : List ℕ)
    → d < 62
    → a * 62 + d < 2 ^ 63
    → id_from (pos a) (char_of d ∷ cs) ≡ id_from (pos (a * 62 + d)) cs
unfolding id_from
id_from-cons a d cs h k = rw ((index_of-char_of d h).0) (ap (λ x. id_from x cs) (i64-next a d h k))

-- What the loop writes in front of `acc` stands for `n`.
fill_chars-id_from :
    (room n : ℕ) (acc : List ℕ)
    → n < capacity room
    → n < 2 ^ 63
    → (s : List ℕ) × (fill_chars room n acc ≡ some s)
      × (id_from (pos 0) s ≡ id_from (pos n) acc)
      × (length s ≤ room + length acc)
unfolding fill_chars
fill_chars-id_from zero n acc h k =
    let t : (n == 0) ≡ true = ground arith in
    (acc, rw t refl, ap (λ m. id_from (pos m) acc) (omega arith), omega arith)
fill_chars-id_from (suc room) n acc h k = elim (Bool-cases (n == 0)) [
  | inl t ↦ (acc, rw t refl, ap (λ m. id_from (pos m) acc) (ground arith), omega arith)
  | inr t ↦
      let r =
        fill_chars-id_from room (n / 62) (char_of (n % 62) ∷ acc) (omega arith) (omega arith) in
      (
        r.0,
        rw t (r.1),
        r.2
            ∙ id_from-cons (n / 62) (n % 62) acc (omega arith) (omega arith)
            ∙ ap (λ m. id_from (pos m) acc) (omega arith),
        omega (arith, r.3),
      )
]

id_from-nil : (n : ℕ) → id_from (pos n) [] ≡ some (pos n)
unfolding id_from
id_from-nil n = refl

-- An identifier that is not negative has an encoding of at most eleven characters, which is decoded to
-- it again.
pub base62_decode-base62_encode :
    (n : ℕ)
    → n < 2 ^ 63
    → (s : List ℕ) × (base62_encode (pos n) ≡ some s)
      × (base62_decode s ≡ some (pos n))
      × (length s ≤ 11)
unfolding base62_encode base62_decode
base62_decode-base62_encode n h = elim (Bool-cases (n + 0 == 0)) [
  | inl t ↦
      let z : n ≡ 0 = ground arith in
      (
        char_of 0 ∷ [],
        rw t refl,
        id_from-cons 0 0 [] (omega arith) (omega arith)
            ∙ id_from-nil 0
            ∙ ap (λ m. some (pos m)) (sym z),
        omega arith,
      )
  | inr t ↦
      let r = fill_chars-id_from 11 n [] (omega arith) h in
      let up : ltb (n + 0) 0 ≡ false = ground arith in
      (r.0, rw (t, up) (r.1), r.2 ∙ id_from-nil n, omega (arith, r.3))
]

i64-negated : (m : ℕ) → suc m < 2 ^ 63 → i64 (pos 0 -ℤ negsuc m) ≡ pos (suc m)
unfolding i64 ◌-ℤ◌
i64-negated m h = ground arith

-- A negative identifier, but for the least, is encoded as its absolute value, and so not decoded to
-- itself.
pub base62_encode-negsuc :
    (m : ℕ) → suc m < 2 ^ 63 → base62_encode (negsuc m) ≡ base62_encode (pos (suc m))
unfolding base62_encode
base62_encode-negsuc m h =
    let down : ltb 0 (0 + suc m) ≡ true = ground arith in
    let t : (0 + suc m == 0) ≡ false = ground arith in
    let t' : (suc m + 0 == 0) ≡ false = ground arith in
    let up : ltb (suc m + 0) 0 ≡ false = ground arith in
    rw (down, t, t', up) (rw (i64-negated m h) refl)
