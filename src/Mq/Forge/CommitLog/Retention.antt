-- ===== src/Mq/Forge/CommitLog/Retention.antt =====
-- `EnforceRetention`: how much is left, and when the log stays whole.
use go_common.Common.{ℕ, ◌+◌, ◌≤◌, ◌≡◌, List, [], ◌∷◌, ◌++◌, ◌⊎◌}
use go_common.Common.Int.{ℤ, ◌≤ℤ◌}
use go_common.Mq.Forge.Batch.{Codec}
use go_common.Mq.Forge.Segment.{Segment}
use go_common.Mq.Forge.Segment.Stored.{Stored}
use go_common.Mq.Forge.CommitLog.{LogConfig, CommitLog, Reply, done, total_size}
use go_common.Mq.Forge.CommitLog.Chain.{Chain, IsLog, flatten}

-- No segment was made before the cutoff.
abbrev pub AllFresh : ℤ → List Segment → Type 0
AllFresh cutoff [] = Unit {0}
AllFresh cutoff (s ∷ ss) = (cutoff ≤ℤ s.created) × AllFresh cutoff ss

record Retained (cfg : LogConfig) (cutoff : ℤ) (x : ℕ) (ss : List Segment) : Type 0 where
  fresh : AllFresh cutoff ss
  few : (ss ≡ []) ⊎ (total_size ss + x ≤ cfg.retention_bytes)

Enforced : LogConfig → ℤ → CommitLog × Reply (Unit {0}) → Type 0
Enforced cfg cutoff r =
    (r.1 ≡ done tt)
    × AllFresh cutoff r.0.older
    × ((r.0.older ≡ []) ⊎ (total_size (r.0.older ++ (r.0.active ∷ [])) ≤ cfg.retention_bytes))

-- Each segment is not made before `t`, nor before the one in front of it.
abbrev pub InOrder : ℤ → List Segment → Type 0
InOrder t [] = Unit {0}
InOrder t (s ∷ ss) = (t ≤ℤ s.created) × InOrder s.created ss

NoGap : Codec → List (List Stored) → List Stored → CommitLog × Reply (Unit {0}) → Type 0
NoGap c ess es r =
    (r.1 ≡ done tt)
    × (ess' : List (List Stored)) × (gone : List Stored) × IsLog c r.0 ess' es
    × (flatten ess ≡ gone ++ flatten ess')
