-- ===== src/Algorithm/Evict/Tests.antt =====
-- Runs of the victim selection, and its theorems at a concrete pool.
use go_common.Common.{ℕ, ◌≡◌, refl, none, some, List, [], ◌∷◌}
use go_common.Common.Int.{ℤ, pos, negsuc}
use go_common.Algorithm.Evict.{
  LruEntry, LfuEntry, oldest_from, least_from, draw, sample_of, candidates, select_lru_victim,
  select_lfu_victim,
}

abbrev at_time : ℕ → ℤ → LruEntry
at_time k t = record { key = k; last_access = t }

abbrev lru_pool : List LruEntry
lru_pool = at_time 1 (pos 30) ∷ at_time 2 (negsuc 4) ∷ at_time 3 (pos 20) ∷ []

abbrev counted : ℕ → ℕ → LfuEntry
counted k c = record { key = k; counter = c }

abbrev lfu_pool : List LfuEntry
lfu_pool = counted 1 9 ∷ counted 2 4 ∷ counted 3 7 ∷ []

oldest_of_all : select_lru_victim (λ i. 0) lru_pool (pos 0) ≡ some (at_time 2 (negsuc 4))
unfolding select_lru_victim candidates sample_of oldest_from
oldest_of_all = refl

sampled : select_lfu_victim (λ i. 2) lfu_pool (pos 2) ≡ some (counted 3 7)
unfolding select_lfu_victim candidates draw sample_of least_from
sampled = refl

no_pool : select_lru_victim (λ i. 0) [] (pos 3) ≡ none
unfolding select_lru_victim
no_pool = refl
