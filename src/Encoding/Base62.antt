-- ===== src/Encoding/Base62.antt =====
-- pkg/encoding/base62.go, for identifiers of 64 bits, and pkg/encoding/base62/base62.go, for bytes. A
-- string is the list of its characters, and a big.Int a number.
pub mod Digits
pub mod Bytes
pub mod Ids
mod Tests
use go_common.Common.{
  ℕ, zero, suc, ◌+◌, ◌-◌, ◌*◌, ◌/◌, ◌%◌, ◌^◌, Bool, true, false, Option, none, some, List, [], ◌∷◌,
  ◌++◌, ltb, leb, ◌==◌, ◌||◌, if◌then◌else◌, length, take, drop, replicate, get_or,
}
use go_common.Common.Int.{ℤ, pos, pos_part, neg_part, i64, ◌+ℤ◌, ◌-ℤ◌, ◌*ℤ◌, ltb_ℤ}

-- The characters from `c` on.
abbrev pub run_of : ℕ → ℕ → List ℕ
run_of zero c = []
run_of (suc n) c = c ∷ run_of n (suc c)

-- "0123456789ABCDEFGHIJKLMNOPQRSTUVWXYZabcdefghijklmnopqrstuvwxyz"
abbrev pub alphabet : List ℕ
alphabet = run_of 10 48 ++ (run_of 26 65 ++ run_of 26 97)

abbrev pub base : ℕ
base = 62

unfoldable pub char_of : ℕ → ℕ
char_of d = get_or alphabet d 0

-- The first place of a character in a list, from `i`.
abbrev pub find_from : ℕ → ℕ → List ℕ → Option ℕ
find_from c i [] = none
find_from c i (x ∷ xs) = if x == c then some i else find_from c (suc i) xs

-- `strings.IndexRune(alphabet, c)`, and `decodeMap[c]` for a byte below 128.
unfoldable pub index_of : ℕ → Option ℕ
index_of c = find_from c 0 alphabet

-- The loop that appends the digits of `n`, the least one first; a number has fewer digits than its value.
unfoldable pub append_digits : ℕ → ℕ → List ℕ
append_digits zero n = []
append_digits (suc fuel) n =
    if n == 0 then [] else char_of (n % base) ∷ append_digits fuel (n / base)

-- Swapping the ends of a slice inwards turns it round.
abbrev pub turned_onto : List ℕ → List ℕ → List ℕ
turned_onto [] acc = acc
turned_onto (x ∷ xs) acc = turned_onto xs (x ∷ acc)

-- How often `c` stands in front.
abbrev pub leading : ℕ → List ℕ → ℕ
leading c [] = 0
leading c (x ∷ xs) = if x == c then suc (leading c xs) else 0

-- `big.Int.SetBytes`: the bytes as the digits of a number, after `v`.
abbrev pub value_from : ℕ → ℕ → List ℕ → ℕ
value_from b v [] = v
value_from b v (d ∷ ds) = value_from b (v * b + d) ds

-- `big.Int.Bytes`: the digits of a number to the base 256, the first of them not 0.
unfoldable pub digits_onto : ℕ → ℕ → ℕ → List ℕ → List ℕ
digits_onto b zero n acc = acc
digits_onto b (suc fuel) n acc = if n == 0 then acc else digits_onto b fuel (n / b) ((n % b) ∷ acc)

-- `Encode` of bytes.
unfoldable pub encode : List ℕ → List ℕ
encode bs =
    let ahead = leading 0 bs in
    let n = value_from 256 0 (drop ahead bs) in
    turned_onto (append_digits n n ++ replicate ahead (char_of 0)) []

abbrev pub with_digit {ℓ} : {A : Type ℓ} → (ℕ → Option A) → Option ℕ → Option A
with_digit f none = none
with_digit f (some d) = f d

-- The loop of `Decode`, from `n`.
unfoldable pub number_from : ℕ → List ℕ → Option ℕ
number_from n [] = some n
number_from n (c ∷ cs) =
    if leb 128 c then none else with_digit (λ d. number_from (n * base + d) cs) (index_of c)

abbrev pub with_zeros : ℕ → Option ℕ → Option (List ℕ)
with_zeros ahead none = none
with_zeros ahead (some n) = some (replicate ahead 0 ++ digits_onto 256 n n [])

-- `Decode`: `none` is the error.
unfoldable pub decode : List ℕ → Option (List ℕ)
decode cs = let ahead = leading (char_of 0) cs in with_zeros ahead (number_from 0 (drop ahead cs))

abbrev pub max_len : ℕ
max_len = 11

-- The loop of `Base62Encode` with `room` places of `chars` left; `none` is an index out of range.
unfoldable pub fill_chars : ℕ → ℕ → List ℕ → Option (List ℕ)
fill_chars zero n acc = if n == 0 then some acc else none
fill_chars (suc room) n acc =
    if n == 0 then some acc else fill_chars room (n / base) (char_of (n % base) ∷ acc)

-- `Base62Encode`: a negative number is negated first, and stays negative if that overflows.
unfoldable pub base62_encode : ℤ → Option (List ℕ)
base62_encode id =
    let n = if ltb_ℤ id (pos 0) then i64 (pos 0 -ℤ id) else id in
    if pos_part id + neg_part id == 0
    then some (char_of 0 ∷ [])
    else fill_chars max_len (pos_part n) []

-- The loop of `Base62Decode`, from `id`.
unfoldable pub id_from : ℤ → List ℕ → Option ℤ
id_from id [] = some id
id_from id (c ∷ cs) =
    with_digit (λ d. id_from (i64 (i64 (id *ℤ pos base) +ℤ pos d)) cs) (index_of c)

unfoldable pub base62_decode : List ℕ → Option ℤ
base62_decode cs = id_from (pos 0) cs
