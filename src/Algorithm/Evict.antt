-- ===== src/Algorithm/Evict.antt =====
-- pkg/algorithm/lru.go and lfu.go: the victim of an approximated LRU or LFU cache. `rand i` is the
-- draw of `rand.Intn(n)` in round `i`.
pub mod Victim
mod Tests
use go_common.Common.{
  ℕ, zero, suc, ◌+◌, Bool, true, false, Option, none, some, List, [], ◌∷◌, ltb, leb, if◌then◌else◌,
  length, get_or,
}
use go_common.Common.Int.{ℤ, pos, negsuc, pos_part, leb_ℤ, ltb_ℤ}

pub record LruEntry : Type 0 where
  pub key : ℕ
  pub last_access : ℤ

pub record LfuEntry : Type 0 where
  pub key : ℕ
  pub counter : ℕ

abbrev pub default_sample_size : ℕ
default_sample_size = 5

-- `findOldest`: the loop over the entries behind the first.
pub oldest_from : LruEntry → List LruEntry → LruEntry
oldest_from oldest [] = oldest
oldest_from oldest (e ∷ es) =
    oldest_from (if ltb_ℤ e.last_access oldest.last_access then e else oldest) es

-- `findLeastFrequent`.
pub least_from : LfuEntry → List LfuEntry → LfuEntry
least_from least [] = least
least_from least (e ∷ es) = least_from (if ltb e.counter least.counter then e else least) es

-- `sample[i] = pool[rand.Intn(n)]` for the `k` rounds from `i` on.
pub draw {ℓ} : {A : Type ℓ} → (ℕ → ℕ) → List A → A → ℕ → ℕ → List A
draw rand pool d i zero = []
draw rand pool d i (suc k) = get_or pool (rand i) d ∷ draw rand pool d (i + 1) k

-- A sample size that is not positive is 5.
pub sample_of : ℤ → ℕ
sample_of s = if leb_ℤ s (pos 0) then default_sample_size else pos_part s

-- The entries that the victim is chosen from: all, or a sample.
pub candidates {ℓ} : {A : Type ℓ} → (ℕ → ℕ) → A → List A → ℤ → List A
unfolding draw
candidates rand e es s =
    if leb (length (e ∷ es)) (sample_of s) then e ∷ es else draw rand (e ∷ es) e 0 (sample_of s)

first_oldest : List LruEntry → Option LruEntry
first_oldest [] = none
first_oldest (e ∷ es) = some (oldest_from e es)

first_least : List LfuEntry → Option LfuEntry
first_least [] = none
first_least (e ∷ es) = some (least_from e es)

-- `none` is the answer `false` for an empty pool. A sample is never empty.
pub select_lru_victim : (ℕ → ℕ) → List LruEntry → ℤ → Option LruEntry
unfolding first_oldest
select_lru_victim rand [] s = none
select_lru_victim rand (e ∷ es) s = first_oldest (candidates rand e es s)

pub select_lfu_victim : (ℕ → ℕ) → List LfuEntry → ℤ → Option LfuEntry
unfolding first_least
select_lfu_victim rand [] s = none
select_lfu_victim rand (e ∷ es) s = first_least (candidates rand e es s)
