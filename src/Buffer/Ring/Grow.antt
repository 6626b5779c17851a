-- ===== src/Buffer/Ring/Grow.antt =====
-- ring.go: the methods that write, and the growth of the storage. `pool n` is what
-- `byteslice.Get(n)` returns: `n` bytes, left over from earlier uses.
use go_common.Common.{
  ℕ, zero, suc, ◌+◌, ◌-◌, ◌*◌, ◌/◌, true, false, ◌&&◌, Option, none, some, List, [], ltb, leb, ◌==◌,
  if◌then◌else◌, length, take, drop, set,
}
use go_common.Common.Int.{ℤ, pos}
use go_common.Common.Slices.{copy_at}
use go_common.Utils.Math.{ceil_to_power_of_two}
use go_common.Buffer.Ring.{RingBuffer, buffered, available, read}

infixl 5 ◌>>=◌
abbrev pub ◌>>=◌ {ℓ κ} : {A : Type ℓ} {B : Type κ} → Option A → (A → Option B) → Option B
none >>= f = none
some a >>= f = f a

abbrev pub default_ring_cap : ℕ
default_ring_cap = 1024

abbrev pub ring_grow_threshold : ℕ
ring_grow_threshold = 4096

-- `for newCap > 0 && newCap < minCap { newCap += newCap / 4 }`, on fuel.
unfoldable pub growth_loop : ℕ → ℕ → ℕ → Option ℕ
growth_loop zero new_cap min_cap = none
growth_loop (suc f) new_cap min_cap =
    let rest = growth_loop f (new_cap + new_cap / 4) min_cap in
    if ltb 0 new_cap && ltb new_cap min_cap then rest else some new_cap

-- Up to twice the old capacity of 4096 or more, the loop makes at most four rounds.
unfoldable pub calculate_growth : ℕ → ℕ → Option ℕ
calculate_growth old_cap min_cap =
    if old_cap == 0
    then (if leb min_cap default_ring_cap
        then some default_ring_cap
        else ceil_to_power_of_two (pos min_cap))
    else if leb min_cap (old_cap * 2)
    then (if ltb old_cap ring_grow_threshold then some (old_cap * 2) else do
      new_cap ← growth_loop 5 old_cap min_cap
      if ltb 0 new_cap then some new_cap else some min_cap)
    else some min_cap

-- `Write` once there is room.
unfoldable pub write_into : RingBuffer → List ℕ → RingBuffer
write_into rb p =
    let n = length p in
    let head_space = rb.capacity - rb.write_pos in
    let rb' =
      if leb rb.read_pos rb.write_pos
      then (if leb n head_space
          then record rb { buf = copy_at rb.buf rb.write_pos p; write_pos = rb.write_pos + n }
          else record rb {
            buf = copy_at (copy_at rb.buf rb.write_pos (take head_space p)) 0 (drop head_space p);
            write_pos = n - head_space;
          })
      else record rb { buf = copy_at rb.buf rb.write_pos p; write_pos = rb.write_pos + n } in
    record rb' {
      write_pos = if rb'.write_pos == rb'.capacity then 0 else rb'.write_pos;
      empty = false;
    }

-- `rb.buf[rb.writePos] = c` is out of range at `len(buf)`.
unfoldable pub put_byte : RingBuffer → ℕ → Option RingBuffer
put_byte rb c =
    if ltb rb.write_pos (length rb.buf)
    then some (record rb {
      buf = set rb.buf rb.write_pos c;
      write_pos = if rb.write_pos + 1 == rb.capacity then 0 else rb.write_pos + 1;
      empty = false;
    })
    else none

module _ (pool : ℕ → List ℕ) where
  unfoldable pub new_ring : ℤ → Option RingBuffer
  new_ring (pos zero) =
      some (record { buf = []; capacity = 0; read_pos = 0; write_pos = 0; empty = true })
  new_ring n = do
    capacity ← ceil_to_power_of_two n
    some (record {
      buf = pool capacity;
      capacity = capacity;
      read_pos = 0;
      write_pos = 0;
      empty = true;
    })

  unfoldable pub grow : RingBuffer → ℕ → Option RingBuffer
  grow rb min_cap = do
    new_cap ← calculate_growth rb.capacity min_cap
    let new_buf = pool new_cap
    let (r, rb') = read rb (length new_buf)
    some (record rb' {
      buf = copy_at new_buf 0 r.out;
      read_pos = 0;
      write_pos = buffered rb;
      capacity = new_cap;
      empty = if ltb 0 (buffered rb) then false else rb'.empty;
    })

  unfoldable pub write : RingBuffer → List ℕ → Option (ℕ × RingBuffer)
  write rb p = if length p == 0 then some (0, rb) else do
    rb' ←
        if ltb (available rb) (length p)
        then grow rb (rb.capacity + length p - available rb)
        else some rb
    some (length p, write_into rb' p)

  unfoldable pub write_byte : RingBuffer → ℕ → Option RingBuffer
  write_byte rb c = do rb' ← if ltb (available rb) 1 then grow rb 1 else some rb; put_byte rb' c
