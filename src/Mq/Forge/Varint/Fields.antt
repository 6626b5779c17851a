-- ===== src/Mq/Forge/Varint/Fields.antt =====
-- A field read where it was written, and the offset behind it.
use mathlib.Core.List.{append_assoc}
use go_common.Common.{
  ℕ, zero, suc, ◌+◌, ◌-◌, ◌^◌, ◌≤◌, ◌<◌, ◌≡◌, refl, sym, ap, ◌∙◌, false, Option, none, some, List,
  [], ◌∷◌, ◌++◌, leb, length, arith, take, drop, length-append, length-drop,
}
use native.Mathlib.Nat.{zero-add}
use go_common.Common.Slices.{drop_all}
use go_common.Common.Int.{ℤ, pos, negsuc, ltb_ℤ, InI64, ◌+ℤ◌, i64}
use go_common.Mq.Forge.{got}
use go_common.Mq.Forge.Varint.{
  put_varint, varint, append_varint, append_varint_bytes, read_varint, read_varint_bytes,
  read_slice, varint_bytes_size,
}
use go_common.Mq.Forge.Varint.Groups.{varint-put_varint, varint_size-put_varint, put_varint-pos}

pub drop-append : (xs ys : List ℕ) → drop (length xs) (xs ++ ys) ≡ ys
drop-append [] ys = refl
drop-append (x ∷ xs) ys = drop-append xs ys

pub take-append : (xs ys : List ℕ) → take (length xs) (xs ++ ys) ≡ xs
take-append [] ys = refl
take-append (x ∷ xs) ys = ap (◌∷◌ x) (take-append xs ys)

pub add_sub : (n m : ℕ) → n + m - n ≡ m
add_sub n m = omega arith

pub suc_add : (n m : ℕ) → suc n + m ≡ suc (n + m)
suc_add n m = omega arith

pub drop-drop : (n m : ℕ) (xs : List ℕ) → drop (n + m) xs ≡ drop m (drop n xs)
drop-drop zero m xs = ap (λ k. drop k xs) (zero-add m)
drop-drop (suc n) m [] = drop_all (suc n + m) [] (omega arith) ∙ sym (drop_all m [] (omega arith))
drop-drop (suc n) m (x ∷ xs) = ap (λ k. drop k (x ∷ xs)) (suc_add n m) ∙ drop-drop n m xs

-- What is left behind `a`.
pub drop_behind :
    (bs : List ℕ) (off : ℕ) (a rest : List ℕ)
    → drop off bs ≡ a ++ rest
    → drop (off + length a) bs ≡ rest
drop_behind bs off a rest at =
    drop-drop off (length a) bs ∙ ap (drop (length a)) at ∙ drop-append a rest

pub read_varint-put_varint :
    (bs : List ℕ) (off : ℕ) (v : ℤ) (rest : List ℕ)
    → drop off bs ≡ put_varint v ++ rest
    → InI64 v
    → read_varint bs off ≡ got (v, off + length (put_varint v))
unfolding read_varint
read_varint-put_varint bs off v rest at h =
    let len : length (drop off bs) ≡ length (put_varint v ++ rest) = ap length at in
    let t : leb (length bs) off ≡ false =
      ground
        (arith, len, length-drop off bs, length-append (put_varint v) rest, put_varint-pos v) in
    let u : varint (drop off bs) ≡ some (v, length (put_varint v)) =
      ap varint at ∙ varint-put_varint v rest h in
    rw (t, u) refl

-- What `appendVarintBytes` adds.
abbrev pub field_of : Option (List ℕ) → List ℕ
field_of none = put_varint (negsuc 0)
field_of (some b) = put_varint (pos (length b)) ++ b

pub append_varint_bytes-field_of :
    (dst : List ℕ) (b : Option (List ℕ)) → append_varint_bytes dst b ≡ dst ++ field_of b
unfolding append_varint_bytes append_varint
append_varint_bytes-field_of dst none = refl
append_varint_bytes-field_of dst (some b) = append_assoc dst (put_varint (pos (length b))) b

pub varint_bytes_size-field_of : (b : Option (List ℕ)) → varint_bytes_size b ≡ length (field_of b)
unfolding varint_bytes_size
varint_bytes_size-field_of none = varint_size-put_varint (negsuc 0)
varint_bytes_size-field_of (some b) =
    omega (
      arith,
      varint_size-put_varint (pos (length b)),
      length-append (put_varint (pos (length b))) b,
    )

length-at :
    (bs : List ℕ) (off : ℕ) (a rest : List ℕ)
    → drop off bs ≡ a ++ rest
    → 0 < length a + length rest
    → off + (length a + length rest) ≡ length bs
length-at bs off a rest at h =
    let len : length (drop off bs) ≡ length (a ++ rest) = ap length at in
    omega (arith, len, length-drop off bs, length-append a rest)

pub sum-i64 : (a b : ℕ) → a + b < 2 ^ 62 → i64 (pos a +ℤ pos b) ≡ pos (a + b)
unfolding i64 ◌+ℤ◌
sum-i64 a b h = ground arith

read_slice_in :
    (bs : List ℕ) (off n : ℕ)
    → off + n ≤ length bs
    → read_slice bs off (pos (off + n)) ≡ got (some (take (off + n - off) (drop off bs)), off + n)
unfolding read_slice
read_slice_in bs off n lo = ground arith

-- The slice of a field that lies within the bytes.
read_slice-at :
    (bs : List ℕ) (off : ℕ) (b rest : List ℕ)
    → drop off bs ≡ b ++ rest
    → off + length b ≤ length bs
    → length bs < 2 ^ 62
    → read_slice bs off (i64 (pos off +ℤ pos (length b))) ≡ got (some b, off + length b)
read_slice-at bs off b rest at lo h =
    let t : take (off + length b - off) (drop off bs) ≡ b =
      ap (λ n. take n (drop off bs)) (add_sub off (length b))
      ∙ ap (take (length b)) at
      ∙ take-append b rest in
    ap (read_slice bs off) (sum-i64 off (length b) (omega arith))
    ∙ read_slice_in bs off (length b) lo
    ∙ ap (λ c. got (some c, off + length b)) t

pub read_varint_bytes-field_of :
    (bs : List ℕ) (off : ℕ) (b : Option (List ℕ)) (rest : List ℕ)
    → drop off bs ≡ field_of b ++ rest
    → length bs < 2 ^ 62
    → read_varint_bytes bs off ≡ got (b, off + length (field_of b))
unfolding read_varint_bytes
read_varint_bytes-field_of bs off none rest at h =
    rw (read_varint-put_varint bs off (negsuc 0) rest at (omega arith, omega arith)) refl
read_varint_bytes-field_of bs off (some b) rest at h =
    let head = put_varint (pos (length b)) in
    let at' : drop off bs ≡ head ++ (b ++ rest) = at ∙ append_assoc head b rest in
    let all =
      length-at bs off head (b ++ rest) at' (omega (arith, put_varint-pos (pos (length b)))) in
    let fits : off + length head + length b ≤ length bs =
      omega (arith, all, length-append b rest) in
    let next =
      read_varint-put_varint bs off (pos (length b)) (b ++ rest) at' (omega arith, omega arith) in
    let z : ltb_ℤ (pos (length b)) (pos 0) ≡ false = ground arith in
    let inside =
      read_slice-at bs (off + length head) b rest (drop_behind bs off head (b ++ rest) at') fits
        h in
    let same : off + length head + length b ≡ off + length (head ++ b) =
      omega (arith, length-append head b) in
    rw next (rw z (inside ∙ ap (λ n. got (some b, n)) same))

pub take-append_short : (m : ℕ) (xs ys : List ℕ) → m < length xs → take m (xs ++ ys) ≡ take m xs
take-append_short m [] ys h = absurd (omega arith)
take-append_short zero (x ∷ xs) ys h = refl
take-append_short (suc m) (x ∷ xs) ys h = ap (◌∷◌ x) (take-append_short m xs ys (omega arith))

pub take-append_long : (m : ℕ) (xs ys : List ℕ) → take (length xs + m) (xs ++ ys) ≡ xs ++ take m ys
take-append_long m [] ys = ap (λ k. take k ys) (zero-add m)
take-append_long m (x ∷ xs) ys =
    ap (λ k. take k (x ∷ (xs ++ ys))) (suc_add (length xs) m)
    ∙ ap (◌∷◌ x) (take-append_long m xs ys)
