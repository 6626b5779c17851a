-- ===== src/Unique/Snowflake/Order.antt =====
-- A node's pairs of a time and a step grow from call to call, so that none comes twice.
use Prim.Native.Nat.{bit_and}
use native.Mathlib.Nat.{mod-lt, mod-eq_of_lt, mod_self}
use go_common.Common.{
  ℕ, ◌+◌, ◌-◌, ◌%◌, ◌^◌, ◌≤◌, ◌<◌, ◌≡◌, refl, sym, ap, ap₂, subst, ◌∙◌, false, Option, none, some,
  List, [], ◌∷◌, ◌++◌, ltb, leb, ◌==◌, if◌then◌else◌, arith, ◌⊎◌, inl, inr, Bool-cases, dec_lt,
}
use go_common.Common.Bits.{bit_and_mask, pow_two-pos}
use go_common.Common.Int.{ℤ, pos, ◌+ℤ◌, eqb_ℤ, ◌<ℤ◌, ◌≤ℤ◌, i64, signed64}
use go_common.Unique.Snowflake.{
  SnowflakeConfig, SnowflakeNode, ones, new_snowflake_node, time_of, and64, wait, next_step, go_on,
  advance, with_id, id_of, generate,
}

-- A step within a width of at most 62 bits.
pub record IsNode (n : SnowflakeNode) : Type 0 where
  pub bits : 2 ^ n.step_bits ≤ 2 ^ 62
  pub mask : n.step_max ≡ pos (2 ^ n.step_bits - 1)
  pub count : ℕ
  pub step : n.step ≡ pos count
  pub count_below : count < 2 ^ n.step_bits

-- The pair of time and step of `m` comes after that of `n`.
abbrev pub After : SnowflakeNode → SnowflakeNode → Type 0
After m n = (n.timestamp < m.timestamp) ⊎ ((n.timestamp ≡ m.timestamp) × (n.step <ℤ m.step))

and64_mask :
    (a k : ℕ) → 2 ^ k ≤ 2 ^ 62 → a < 2 ^ 63 → and64 (pos a) (pos (2 ^ k - 1)) ≡ pos (a % 2 ^ k)
unfolding and64
and64_mask a k h lt =
    let p = pow_two-pos k in
    let e : a % 2 ^ 64 ≡ a = mod-eq_of_lt (omega arith) in
    let f : (2 ^ k - 1) % 2 ^ 64 ≡ 2 ^ k - 1 = mod-eq_of_lt (omega arith) in
    let small : a % 2 ^ k < 2 ^ 63 = omega (arith, mod-lt a p) in
    ap signed64 (ap₂ bit_and e f ∙ bit_and_mask k a) ∙ ground arith

one_more : (a : ℕ) → a < 2 ^ 62 → i64 (pos a +ℤ pos 1) ≡ pos (a + 1)
unfolding i64 ◌+ℤ◌
one_more a h = ground arith

next_step-mod :
    (n : SnowflakeNode) (h : IsNode n) → next_step n ≡ pos ((h.count + 1) % 2 ^ n.step_bits)
unfolding next_step
next_step-mod n h =
    let sum : i64 (n.step +ℤ pos 1) ≡ pos (h.count + 1) =
      ap (λ s. i64 (s +ℤ pos 1)) h.step ∙ one_more h.count (omega (arith, h.count_below, h.bits)) in
    ap₂ and64 sum h.mask
    ∙ and64_mask (h.count + 1) n.step_bits h.bits (omega (arith, h.count_below, h.bits))

-- The loop ends with a later time.
wait-later :
    (n : SnowflakeNode) (clock rest : List ℕ) (now : ℕ)
    → wait n clock ≡ some (now, rest)
    → n.timestamp < now
unfolding wait
wait-later n [] rest now h = ground arith
wait-later n (nanos ∷ clock) rest now h = ground (arith, wait-later n clock rest now)

-- What a call leaves, if it returns.
data Advanced (n : SnowflakeNode) : Option (SnowflakeNode × List ℕ) → Type 0 where
  waits : Advanced n none
  moved : {m : SnowflakeNode} {rest : List ℕ} → IsNode m → After m n → Advanced n (some (m, rest))

at_time :
    (n : SnowflakeNode) → IsNode n → (now : ℕ) → IsNode (record n { timestamp = now; step = pos 0 })
at_time n h now = record {
  bits = h.bits;
  mask = h.mask;
  count = 0;
  step = refl;
  count_below = pow_two-pos n.step_bits;
}

after_wait :
    (n : SnowflakeNode) (h : IsNode n) (clock : List ℕ) (o : Option (ℕ × List ℕ))
    → wait n clock ≡ o
    → next_step n ≡ pos 0
    → Advanced n (go_on n o)
after_wait n h clock none w z = waits
after_wait n h clock (some (now, rest)) w z =
    moved (subst (λ s. IsNode (record n { timestamp = now; step = s })) (sym z) (at_time n h now))
      (inl (wait-later n clock rest now w))

mod_one_up : (a m : ℕ) → a < m → 0 < (a + 1) % m → (a + 1) % m ≡ a + 1
mod_one_up a m lt p = elim (dec_lt (a + 1) m) [
  | yes h ↦ mod-eq_of_lt h
  | no h ↦
      let e : a + 1 ≡ m = omega arith in
      let z : (a + 1) % m ≡ 0 = ap (λ k. k % m) e ∙ mod_self m in absurd (omega arith)
]

same_time :
    (n : SnowflakeNode) (h : IsNode n) (clock : List ℕ)
    → eqb_ℤ (next_step n) (pos 0) ≡ false
    → Advanced n (some (record n { step = next_step n }, clock))
same_time n h clock f =
    let e = next_step-mod n h in
    let s = (h.count + 1) % 2 ^ n.step_bits in
    let nonzero : 0 < s = ground (arith, subst (λ z. eqb_ℤ z (pos 0) ≡ false) e f) in
    let one_up : s ≡ h.count + 1 = mod_one_up h.count (2 ^ n.step_bits) h.count_below nonzero in
    let step_up : n.step <ℤ next_step n =
      subst (λ z. z <ℤ next_step n) (sym h.step)
        (subst (λ z. pos h.count <ℤ z) (sym e) (omega (arith, one_up))) in
    moved
      (record {
        bits = h.bits;
        mask = h.mask;
        count = s;
        step = e;
        count_below = mod-lt (h.count + 1) (pow_two-pos n.step_bits);
      })
      (inr (refl, step_up))

advance-Advanced :
    (n : SnowflakeNode) (h : IsNode n) (now : ℕ) (clock : List ℕ)
    → n.timestamp ≤ now
    → Advanced n (advance n now clock)
unfolding advance
advance-Advanced n h now clock le = elim (Bool-cases (now == n.timestamp)) [
  | inl t ↦ elim (Bool-cases (eqb_ℤ (next_step n) (pos 0))) [
    | inl z ↦
        let zero_step : next_step n ≡ pos 0 = ground arith in
        rw (t, z) (after_wait n h clock (wait n clock) refl zero_step)
    | inr f ↦ rw (t, f) (same_time n h clock f)
  ]
  | inr f ↦ rw f (moved (at_time n h now) (inl (ground arith)))
]

abbrev answer_or {ℓ} : {A : Type ℓ} → A → Option A → A
answer_or a none = a
answer_or a (some b) = b

-- What `generate` answers for a node it leaves.
answered :
    (n m : SnowflakeNode) (o : Option (SnowflakeNode × List ℕ)) (id : ℤ) (rest : List ℕ)
    → Advanced n o
    → with_id o ≡ some (id, m, rest)
    → IsNode m × After m n × (id ≡ id_of m)
answered n m o id rest waits e = absurd (ground arith)
answered n m o id rest (moved {m = m'} ok after) e =
    subst (λ (p : ℤ × SnowflakeNode × List ℕ). IsNode p.1 × After p.1 n × (p.0 ≡ id_of p.1))
      (ap (λ o'. answer_or (id_of m', m', rest) o') e) (ok, after, refl)

-- Whatever the clock shows, even a time in the past: if a node whose step has at most 62 bits and
-- lies in its width generates an identifier, the identifier is that of the node after the call, whose
-- step lies in its width again, and whose time and step come after those before the call.
pub generate-After :
    (n m : SnowflakeNode) (clock rest : List ℕ) (id : ℤ)
    → IsNode n
    → generate n clock ≡ some (id, m, rest)
    → IsNode m × After m n × (id ≡ id_of m)
unfolding generate
generate-After n m [] rest id h e = absurd (ground arith)
generate-After n m (nanos ∷ clock) rest id h e =
    let now = if ltb (time_of n nanos) n.timestamp then n.timestamp else time_of n nanos in
    let le : n.timestamp ≤ now = ground arith in
    answered n m (advance n now clock) id rest (advance-Advanced n h now clock le) e

-- A later reading ends the loop.
wait-returns :
    (n : SnowflakeNode) (early : List ℕ) (late : ℕ) (rest : List ℕ)
    → n.timestamp < time_of n late
    → (r : ℕ × List ℕ) × (wait n (early ++ (late ∷ rest)) ≡ some r)
unfolding wait
wait-returns n [] late rest h =
    let t : leb (time_of n late) n.timestamp ≡ false = ground arith in
    ((time_of n late, rest), rw t refl)
wait-returns n (nanos ∷ early) late rest h = elim (Bool-cases (leb (time_of n nanos) n.timestamp)) [
  | inl t ↦ let (r, e) = wait-returns n early late rest h in (r, rw t e)
  | inr f ↦ ((time_of n nanos, early ++ (late ∷ rest)), rw f refl)
]

-- `generate` returns an identifier as soon as any reading of the clock behind the first is later than
-- the node's time, whatever the readings before it show.
pub generate-returns :
    (n : SnowflakeNode) (first late : ℕ) (early rest : List ℕ)
    → n.timestamp < time_of n late
    → (r : ℤ × SnowflakeNode × List ℕ) × (generate n (first ∷ (early ++ (late ∷ rest))) ≡ some r)
unfolding generate advance
generate-returns n first late early rest h =
    let clock = early ++ (late ∷ rest) in
    let now = if ltb (time_of n first) n.timestamp then n.timestamp else time_of n first in
    elim (Bool-cases (now == n.timestamp)) [
      | inr f ↦
          let m : SnowflakeNode = record n { timestamp = now; step = pos 0 } in
          ((id_of m, m, clock), rw f refl)
      | inl t ↦ elim (Bool-cases (eqb_ℤ (next_step n) (pos 0))) [
        | inr f ↦
            let m : SnowflakeNode = record n { step = next_step n } in
            ((id_of m, m, clock), rw (t, f) refl)
        | inl z ↦
            let (r, e) = wait-returns n early late rest h in
            let m : SnowflakeNode = record n { timestamp = r.0; step = next_step n } in
            ((id_of m, m, r.1), rw (t, z, e) refl)
      ]
    ]

new_snowflake_node-fields :
    (config : SnowflakeConfig) (n : SnowflakeNode)
    → new_snowflake_node config ≡ some n
    → (n.step ≡ pos 0)
      × (n.step_bits ≡ config.step_bits)
      × (n.step_max ≡ ones config.step_bits)
      × (n.node_max ≡ ones config.node_bits)
      × (n.node ≡ config.worker_id)
      × (pos 0 ≤ℤ config.worker_id)
      × (config.worker_id ≤ℤ ones config.node_bits)
      × (n.timestamp ≡ 0)
unfolding new_snowflake_node
new_snowflake_node-fields config n e = ground arith

-- The constructor, for a step of at most 62 bits: a node that it makes has a step in its width, its
-- worker's number lies between 0 and the largest of its width, and its time is 0.
pub new_snowflake_node-IsNode :
    (config : SnowflakeConfig) (n : SnowflakeNode)
    → 2 ^ config.step_bits ≤ 2 ^ 62
    → config.step_bits < 64
    → new_snowflake_node config ≡ some n
    → IsNode n
      × (n.node ≡ config.worker_id)
      × (pos 0 ≤ℤ n.node)
      × (n.node ≤ℤ n.node_max)
      × (n.timestamp ≡ 0)
unfolding ones
new_snowflake_node-IsNode config n small bits e =
    let (step, width, mask, node_max, node, low, high, start) =
      new_snowflake_node-fields config n e in
    let t : ones config.step_bits ≡ pos (2 ^ config.step_bits - 1) = ground arith in
    let full : 2 ^ n.step_bits ≡ 2 ^ config.step_bits = ap (λ k. 2 ^ k) width in
    (
      record {
        bits = omega (arith, full);
        mask = mask ∙ t ∙ ap (λ k. pos (k - 1)) (sym full);
        count = 0;
        step = step;
        count_below = pow_two-pos n.step_bits;
      },
      node,
      subst (λ k. pos 0 ≤ℤ k) (sym node) low,
      subst (λ k. n.node ≤ℤ k) (sym node_max)
          (subst (λ k. k ≤ℤ ones config.node_bits) (sym node) high),
      start,
    )
