-- ===== src/Encoding/Base62/Tests.antt =====
-- The theorems on base62 at concrete bytes and identifiers.
use go_common.Common.{ℕ, ◌≡◌, ◌≤◌, refl, some, List, [], ◌∷◌, length, arith}
use go_common.Common.Int.{pos}
use go_common.Encoding.Base62.{char_of, append_digits, encode, decode, base62_encode, base62_decode}
use go_common.Encoding.Base62.Bytes.{decode-encode}
use go_common.Encoding.Base62.Ids.{base62_decode-base62_encode}

abbrev some_bytes : List ℕ
some_bytes = 0 ∷ 0 ∷ 7 ∷ 255 ∷ 0 ∷ []

decode-encode_example : decode (encode some_bytes) ≡ some some_bytes
decode-encode_example =
    decode-encode some_bytes
      (omega arith, (omega arith, (omega arith, (omega arith, (omega arith, tt)))))

base62_decode-base62_encode_example :
    (s : List ℕ) × (base62_encode (pos 12345) ≡ some s)
    × (base62_decode s ≡ some (pos 12345))
    × (length s ≤ 11)
base62_decode-base62_encode_example = base62_decode-base62_encode 12345 (omega arith)

-- "3D7" is 12345.
digits_of_12345 : append_digits 12345 12345 ≡ 55 ∷ 68 ∷ 51 ∷ []
unfolding append_digits char_of
digits_of_12345 = refl
