-- ===== src/Mq/Forge.antt =====
-- pkg/mq/forge: the format of the log. What a decoder answers, and how decoders follow each other.
pub mod Varint
pub mod Record
pub mod Batch
pub mod Index
pub mod Segment
pub mod CommitLog
pub mod Sample

-- `corrupt` is an error such as ErrCorruptRecord; `panics` is a slice out of range.
pub data Decoded {ℓ} (A : Type ℓ) : Type ℓ where
  got : A → Decoded A
  corrupt : Decoded A
  panics : Decoded A

infixl 5 ◌>>=◌
abbrev pub ◌>>=◌ {ℓ κ} : {A : Type ℓ} {B : Type κ} → Decoded A → (A → Decoded B) → Decoded B
got a >>= f = f a
corrupt >>= f = corrupt
panics >>= f = panics
