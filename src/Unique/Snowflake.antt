-- ===== src/Unique/Snowflake.antt =====
-- pkg/unique/snowflake.go: identifiers from a clock, a node number and a sequence number. The clock is
-- a list of readings in nanoseconds since 1970, of which each call of `clock.Now()` takes one; they
-- are not negative, and below 2^63. `none` of `generate` is a wait that the readings do not end.
pub mod Order
mod Tests
use Prim.Native.Nat.{bit_and, bit_or}
use go_common.Common.{
  ℕ, zero, suc, ◌+◌, ◌-◌, ◌*◌, ◌/◌, ◌%◌, ◌^◌, Bool, Option, none, some, List, [], ◌∷◌, ltb, leb,
  ◌==◌, ◌||◌, if◌then◌else◌,
}
use go_common.Common.Int.{
  ℤ, pos, negsuc, ◌+ℤ◌, ◌-ℤ◌, ◌*ℤ◌, eqb_ℤ, leb_ℤ, ltb_ℤ, i64, bits64, signed64,
}

-- settings.SnowflakeNode with its settings.Snowflake.
pub record SnowflakeConfig : Type 0 where
  pub epoch : ℤ
  pub node_bits : ℕ
  pub step_bits : ℕ
  pub total_bits : ℕ
  pub worker_id : ℤ

pub record SnowflakeNode : Type 0 where
  pub timestamp : ℕ
  pub node : ℤ
  pub step : ℤ
  pub epoch : ℤ
  pub node_bits : ℕ
  pub step_bits : ℕ
  pub total_bits : ℕ
  pub node_max : ℤ
  pub step_max : ℤ
  pub time_shift : ℕ
  pub node_shift : ℕ
  pub limit_mask : ℤ

-- `-1 ^ (-1 << k)`: a shift by 64 or more gives 0.
unfoldable pub ones : ℕ → ℤ
ones k = if ltb k 64 then pos (2 ^ k - 1) else negsuc 0

unfoldable pub limit_of : ℕ → ℤ
limit_of total_bits =
    if (total_bits == 63) || (total_bits == 64)
    then pos (2 ^ 63 - 1)
    else if ltb total_bits 63
    then pos (2 ^ total_bits - 1)
    else negsuc 0

-- `none` is an error. The sum of the two widths is a `uint8`.
unfoldable pub new_snowflake_node : SnowflakeConfig → Option SnowflakeNode
new_snowflake_node config =
    let shift = (config.node_bits + config.step_bits) % 256 in
    let total = if config.total_bits == 0 then 63 else config.total_bits in
    if ltb_ℤ config.worker_id (pos 0) || ltb_ℤ (ones config.node_bits) config.worker_id
    then none
    else if leb total shift
    then none
    else some (record {
      timestamp = 0;
      node = config.worker_id;
      step = pos 0;
      epoch = config.epoch;
      node_bits = config.node_bits;
      step_bits = config.step_bits;
      total_bits = total;
      node_max = ones config.node_bits;
      step_max = ones config.step_bits;
      time_shift = shift;
      node_shift = config.step_bits;
      limit_mask = limit_of total;
    })

-- Seconds if an identifier has fewer than 50 bits, else milliseconds.
unfoldable pub time_of : SnowflakeNode → ℕ → ℕ
time_of n nanos = if ltb n.total_bits 50 then nanos / 10 ^ 9 else nanos / 10 ^ 6

-- Go's `&`, `|` and `<<` of two `int64`s.
unfoldable pub and64 : ℤ → ℤ → ℤ
and64 a b = signed64 (bit_and (bits64 a) (bits64 b))

unfoldable pub or64 : ℤ → ℤ → ℤ
or64 a b = signed64 (bit_or (bits64 a) (bits64 b))

unfoldable pub shl64 : ℤ → ℕ → ℤ
shl64 a k = i64 (a *ℤ pos (2 ^ k))

unfoldable pub id_of : SnowflakeNode → ℤ
id_of n =
    and64
      (or64
        (or64 (shl64 (i64 (pos n.timestamp -ℤ n.epoch)) n.time_shift) (shl64 n.node n.node_shift))
        n.step)
      n.limit_mask

-- The loop that waits for a later time: the time and the readings that are left.
unfoldable pub wait : SnowflakeNode → List ℕ → Option (ℕ × List ℕ)
wait n [] = none
wait n (nanos ∷ clock) =
    let later = wait n clock in
    if leb (time_of n nanos) n.timestamp then later else some (time_of n nanos, clock)

unfoldable pub next_step : SnowflakeNode → ℤ
next_step n = and64 (i64 (n.step +ℤ pos 1)) n.step_max

-- The loop's time for a step that went round.
abbrev pub go_on : SnowflakeNode → Option (ℕ × List ℕ) → Option (SnowflakeNode × List ℕ)
go_on n none = none
go_on n (some (now, rest)) = some (record n { timestamp = now; step = next_step n }, rest)

-- The node once its first reading says `now`, which is not before its timestamp.
unfoldable pub advance : SnowflakeNode → ℕ → List ℕ → Option (SnowflakeNode × List ℕ)
advance n now clock =
    if now == n.timestamp
    then (if eqb_ℤ (next_step n) (pos 0)
        then go_on n (wait n clock)
        else some (record n { step = next_step n }, clock))
    else some (record n { timestamp = now; step = pos 0 }, clock)

abbrev pub with_id : Option (SnowflakeNode × List ℕ) → Option (ℤ × SnowflakeNode × List ℕ)
with_id none = none
with_id (some (n, clock)) = some (id_of n, n, clock)

-- The identifier, the node after it, and the readings that are left.
unfoldable pub generate : SnowflakeNode → List ℕ → Option (ℤ × SnowflakeNode × List ℕ)
generate n [] = none
generate n (nanos ∷ clock) =
    let now = if ltb (time_of n nanos) n.timestamp then n.timestamp else time_of n nanos in
    with_id (advance n now clock)
