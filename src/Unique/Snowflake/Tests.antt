-- ===== src/Unique/Snowflake/Tests.antt =====
-- Runs of a node of 10 and 12 bits, and the theorems at it.
use go_common.Common.{ℕ, ◌+◌, ◌-◌, ◌*◌, ◌^◌, ◌<◌, ◌≡◌, refl, some, List, [], ◌∷◌, ◌++◌, arith}
use go_common.Common.Int.{ℤ, pos, ◌-ℤ◌, ◌*ℤ◌, i64}
use go_common.Unique.Snowflake.{
  SnowflakeConfig, SnowflakeNode, ones, limit_of, new_snowflake_node, time_of, and64, or64, shl64,
  advance, id_of, generate,
}
use go_common.Unique.Snowflake.Order.{IsNode, After, generate-After, generate-returns}

abbrev settings : SnowflakeConfig
settings = record {
  epoch = pos 1000;
  node_bits = 10;
  step_bits = 12;
  total_bits = 0;
  worker_id = pos 5;
}

abbrev fresh : SnowflakeNode
fresh = record {
  timestamp = 0;
  node = pos 5;
  step = pos 0;
  epoch = pos 1000;
  node_bits = 10;
  step_bits = 12;
  total_bits = 63;
  node_max = pos 1023;
  step_max = pos 4095;
  time_shift = 22;
  node_shift = 12;
  limit_mask = pos (2 ^ 63 - 1);
}

settings_made : new_snowflake_node settings ≡ some fresh
unfolding new_snowflake_node ones limit_of
settings_made = refl

fresh-IsNode : IsNode fresh
fresh-IsNode = record {
  bits = omega arith;
  mask = refl;
  count = 0;
  step = refl;
  count_below = omega arith;
}

-- At 2 seconds the time is 2000, that is 1000 after the epoch.
abbrev used : SnowflakeNode
used = record fresh { timestamp = 2000; step = pos 0 }

first_call : generate fresh (2 * 10 ^ 9 ∷ []) ≡ some (pos (1000 * 2 ^ 22 + 5 * 2 ^ 12), used, [])
unfolding generate advance time_of id_of and64 or64 shl64 i64 ◌-ℤ◌ ◌*ℤ◌
first_call = refl

generate-After_example :
    IsNode used × After used fresh × (pos (1000 * 2 ^ 22 + 5 * 2 ^ 12) ≡ id_of used)
generate-After_example =
    generate-After fresh used (2 * 10 ^ 9 ∷ []) [] (pos (1000 * 2 ^ 22 + 5 * 2 ^ 12)) fresh-IsNode
      first_call

later_reading : used.timestamp < time_of used (3 * 10 ^ 9)
unfolding time_of
later_reading = omega arith

generate-returns_example :
    (r : ℤ × SnowflakeNode × List ℕ) × (generate used (1 ∷ ((2 * 10 ^ 9 ∷ []) ++ (3 * 10 ^ 9 ∷ [])))
      ≡ some r)
generate-returns_example = generate-returns used 1 (3 * 10 ^ 9) (2 * 10 ^ 9 ∷ []) [] later_reading
