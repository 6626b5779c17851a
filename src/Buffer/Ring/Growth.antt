-- ===== src/Buffer/Ring/Growth.antt =====
-- How far the storage grows, and that growing keeps what it holds.
use native.Mathlib.Nat.{zero-add}
use go_common.Common.{
  ℕ, zero, suc, ◌+◌, ◌*◌, ◌/◌, ◌^◌, ◌≤◌, ◌<◌, ◌≡◌, refl, Bool, true, false, List, length, arith,
  ◌==◌, ltb, leb, ap, ◌∙◌, Bool-cases, inl, inr, dec_lt, if◌then◌else◌, some,
}
use go_common.Common.Slices.{window, window-copy_at, length-copy_at, copy_at, take_all}
use go_common.Utils.Math.Powers.{ceil_to_power_of_two_lem}
use go_common.Buffer.Ring.{RingBuffer, buffered, read}
use go_common.Buffer.Ring.Grow.{growth_loop, calculate_growth, grow}
use go_common.Buffer.Ring.Valid.{IsValid, contents, length-contents}
use go_common.Buffer.Ring.Read.{out-read, buffered_bounds}

loop_step : (f c m : ℕ) → 0 < c → c < m → growth_loop (suc f) c m ≡ growth_loop f (c + c / 4) m
unfolding growth_loop
loop_step f c m h lt = ground arith

loop_done : (f c m : ℕ) → m ≤ c → growth_loop (suc f) c m ≡ some c
unfolding growth_loop
loop_done f c m le = ground arith

-- Rounds that add `q` at least reach what `f` of them add.
loop_reaches :
    (f q c m : ℕ)
    → 0 < c
    → 4 * q ≤ c
    → m ≤ c + f * q
    → (r : ℕ) × (growth_loop (suc f) c m ≡ some r) × (m ≤ r)
loop_reaches zero q c m h hq le = (c, loop_done zero c m (omega arith), omega arith)
loop_reaches (suc f) q c m h hq le = elim (dec_lt c m) [
  | yes p ↦
      rw (loop_step (suc f) c m h p)
        (loop_reaches f q (c + c / 4) m (omega arith) (omega arith) (omega arith))
  | no p ↦ (c, loop_done (suc f) c m (omega arith), omega arith)
]

-- The loop's five rounds are enough from a capacity of 4096 on.
loop_suffices : (c m : ℕ) → 4096 ≤ c → m ≤ c * 2 → (r : ℕ) × (growth_loop 5 c m ≡ some r) × (m ≤ r)
loop_suffices c m big le = elim (dec_lt c m) [
  | yes p ↦
      rw (loop_step 4 c m (omega arith) p)
        (loop_reaches 3 ((c + c / 4) / 4) (c + c / 4) m (omega arith) (omega arith) (omega arith))
  | no p ↦ (c, loop_done 4 c m (omega arith), omega arith)
]

-- The new capacity is at least what was asked for.
pub calculate_growth_lem :
    (old m : ℕ) → m ≤ 2 ^ 62 → (c : ℕ) × (calculate_growth old m ≡ some c) × (m ≤ c)
unfolding calculate_growth
calculate_growth_lem old m small = elim (Bool-cases (old == 0)) [
  | inl z ↦ rw z (elim (Bool-cases (leb m 1024)) [
    | inl t ↦ rw t (1024, refl, ground arith)
    | inr t ↦ rw t (let (k, e, le, least) = ceil_to_power_of_two_lem m small in (2 ^ suc k, e, le))
  ])
  | inr nz ↦ rw nz (elim (Bool-cases (leb m (old * 2))) [
    | inr t ↦ rw t (m, refl, omega arith)
    | inl t ↦ rw t (elim (Bool-cases (ltb old 4096)) [
      | inl u ↦ rw u (old * 2, refl, ground arith)
      | inr u ↦ rw u (
          let (r, e, le) = loop_suffices old m (ground arith) (ground arith) in
          elim (Bool-cases (ltb 0 r)) [
            | inl w ↦ (r, rw e (rw w), le)
            | inr w ↦ (m, rw e (rw w), omega arith)
          ])
    ])
  ])
]

-- The record that `grow` leaves at the new capacity `c`.
abbrev moved : (ℕ → List ℕ) → RingBuffer → ℕ → RingBuffer
moved pool rb c =
    let (r, rb') = read rb (length (pool c)) in
    record rb' {
      buf = copy_at (pool c) 0 r.out;
      read_pos = 0;
      write_pos = buffered rb;
      capacity = c;
      empty = if ltb 0 (buffered rb) then false else rb'.empty;
    }

state-read_empty : (rb : RingBuffer) (room : ℕ) → rb.empty ≡ true → (read rb room).1.empty ≡ true
unfolding read
state-read_empty rb room e = ground arith

start_state :
    (buf : List ℕ) (c b : ℕ) (em : Bool)
    → length buf ≡ c
    → b < c
    → (b ≡ 0 → em ≡ true)
    → let rb' : RingBuffer = record {
      buf = buf;
      capacity = c;
      read_pos = 0;
      write_pos = b;
      empty = if ltb 0 b then false else em;
    } in
      IsValid rb' × (buffered rb' ≡ b)
unfolding buffered
start_state buf c b em hl lt h = ground arith

pub emptied : {rb : RingBuffer} → IsValid rb → buffered rb ≡ 0 → rb.empty ≡ true
emptied {rb} v z = elim (Bool-cases rb.empty) [
  | inl e ↦ e
  | inr e ↦ absurd (omega (arith, buffered_bounds v e))
]

module _ (pool : ℕ → List ℕ) {rb : RingBuffer} (c : ℕ) (sized : (n : ℕ) → length (pool n) ≡ n)
    (v : IsValid rb) (lt : buffered rb < c) where
  moved_state : IsValid (moved pool rb c) × (buffered (moved pool rb c) ≡ buffered rb)
  moved_state =
      start_state (copy_at (pool c) 0 (read rb (length (pool c))).0.out) c (buffered rb)
        (read rb (length (pool c))).1.empty
        (length-copy_at (pool c) 0 (read rb (length (pool c))).0.out ∙ sized c) lt
        (λ z. state-read_empty rb (length (pool c)) (emptied v z))

  moved-contents : contents (moved pool rb c) ≡ contents rb
  moved-contents =
      ap (window (copy_at (pool c) 0 (read rb (length (pool c))).0.out) c 0) moved_state.1
      ∙ ap (λ p. window (copy_at (pool c) 0 p) c 0 (buffered rb)) copied
      ∙ rw (length-contents, zero-add) at
          (window-copy_at (contents rb) (pool c) c 0 0 0 (sized c)
            (omega (arith, length-contents rb)) (omega (arith, length-contents rb)) refl)
    where
      copied : (read rb (length (pool c))).0.out ≡ contents rb
      copied =
          out-read (length (pool c)) v
          ∙ take_all (length (pool c)) (contents rb)
              (rw (sized c) (omega (arith, length-contents rb)))

-- What is left of a buffer that has moved into a larger storage.
pub record Moved (rb : RingBuffer) (c : ℕ) (rb' : RingBuffer) : Type 0 where
  pub valid : IsValid rb'
  pub bytes : contents rb' ≡ contents rb
  pub count : buffered rb' ≡ buffered rb
  pub size : rb'.capacity ≡ c
  pub start : rb'.read_pos ≡ 0

pub grow_to :
    (pool : ℕ → List ℕ) {rb : RingBuffer} (m c : ℕ)
    → ((n : ℕ) → length (pool n) ≡ n)
    → IsValid rb
    → calculate_growth rb.capacity m ≡ some c
    → buffered rb < c
    → (rb' : RingBuffer) × (grow pool rb m ≡ some rb') × Moved rb c rb'
unfolding grow
grow_to pool {rb} m c sized v e lt = (
  moved pool rb c,
  rw e,
  record {
    valid = (moved_state pool c sized v lt).0;
    bytes = moved-contents pool c sized v lt;
    count = (moved_state pool c sized v lt).1;
    size = refl;
    start = refl;
  },
)

-- `grow` to more than is buffered, by what `byteslice.Get` hands out, does not panic, keeps the bytes
-- in order, moves them to the start of the storage, and makes the room that was asked for.
pub grow_lem :
    (pool : ℕ → List ℕ) {rb : RingBuffer} (m : ℕ)
    → ((n : ℕ) → length (pool n) ≡ n)
    → IsValid rb
    → buffered rb < m
    → m ≤ 2 ^ 62
    → (rb' : RingBuffer) × (grow pool rb m ≡ some rb')
      × IsValid rb'
      × (contents rb' ≡ contents rb)
      × (buffered rb' ≡ buffered rb)
      × (m ≤ rb'.capacity)
      × (rb'.read_pos ≡ 0)
grow_lem pool {rb} m sized v lt small =
    let (c, e, le) = calculate_growth_lem rb.capacity m small in
    let (rb', g, h) = grow_to pool m c sized v e (omega arith) in
    (rb', g, h.valid, h.bytes, h.count, rw h.size le, h.start)

-- At a full capacity of 4096 or more, asking for one byte gets the old capacity.
pub calculate_growth_one :
    (c : ℕ)
    → (0 < c → c < 4096 → calculate_growth c 1 ≡ some (c * 2))
      × (4096 ≤ c → calculate_growth c 1 ≡ some c)
unfolding calculate_growth
calculate_growth_one c =
    (λ a b. ground arith, λ a. rw (loop_done 4 c 1 (omega arith)) (ground arith))

pub calculate_growth_zero : (c : ℕ) → c ≡ 0 → calculate_growth c 1 ≡ some 1024
unfolding calculate_growth
calculate_growth_zero c z = rw z refl

-- A full buffer that "grows" to its own capacity is written past its end.
pub grow_same :
    (pool : ℕ → List ℕ) (rb : RingBuffer)
    → ((n : ℕ) → length (pool n) ≡ n)
    → 4096 ≤ rb.capacity
    → buffered rb ≡ rb.capacity
    → (rb' : RingBuffer) × (grow pool rb 1 ≡ some rb')
      × (rb'.write_pos ≡ rb.capacity)
      × (length rb'.buf ≡ rb.capacity)
unfolding grow
grow_same pool rb sized big full = (
  moved pool rb rb.capacity,
  rw ((calculate_growth_one rb.capacity).1 big),
  full,
  length-copy_at (pool rb.capacity) 0 (read rb (length (pool rb.capacity))).0.out
      ∙ sized rb.capacity,
)
