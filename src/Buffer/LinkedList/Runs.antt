-- ===== src/Buffer/LinkedList/Runs.antt =====
-- Runs of calls of the buffer, and those of a queue of bytes.
use Prim.Native.Nat.{min}
use go_common.Common.{
  ℕ, ◌≡◌, refl, Bool, true, ◌&&◌, leb, Option, none, some, List, [], ◌∷◌, ◌++◌, ◌==◌, if◌then◌else◌,
  length, take, drop, arith,
}
use go_common.Common.Int.{ℤ, pos_part}
use go_common.Buffer.LinkedList.{
  LinkedListBuffer, BufferError, end_of_file, append, push_back, push_front, read, discard, reset,
}
use go_common.Buffer.LinkedList.Queue.{contents, buffer}

-- The calls that add and take bytes; those that copy come with the capacity of the slice that the pool
-- hands out.
pub data Call : Type 0 where
  read_bytes : ℕ → Call
  discard_bytes : ℤ → Call
  append_slice : List ℕ → Call
  copy_back : List ℕ → ℕ → Call
  copy_front : List ℕ → ℕ → Call
  forget : Call

pub data Answer : Type 0 where
  got : List ℕ → Option BufferError → Answer
  dropped : ℕ → Answer
  no_answer : Answer

abbrev read_call : (List ℕ × Option BufferError) × LinkedListBuffer → LinkedListBuffer × Answer
read_call ((bs, e), ll) = (ll, got bs e)

abbrev discard_call : ℕ × LinkedListBuffer → LinkedListBuffer × Answer
discard_call (n, ll) = (ll, dropped n)

abbrev pushed : Option LinkedListBuffer → Option (LinkedListBuffer × Answer)
pushed none = none
pushed (some ll) = some (ll, no_answer)

-- `none` is a panic.
abbrev pub perform : LinkedListBuffer → Call → Option (LinkedListBuffer × Answer)
perform ll (read_bytes n) = some (read_call (read ll n))
perform ll (discard_bytes n) = some (discard_call (discard ll n))
perform ll (append_slice p) = some (append ll p, no_answer)
perform ll (copy_back p capacity) = pushed (push_back ll p capacity)
perform ll (copy_front p capacity) = pushed (push_front ll p capacity)
perform ll forget = some (reset ll, no_answer)

-- The slice of the pool has room for what is copied.
abbrev pub served : Call → Bool
served (copy_back p capacity) = leb (length p) capacity
served (copy_front p capacity) = leb (length p) capacity
served _ = true

-- The same on a queue of bytes.
abbrev pub queue_perform : List ℕ → Call → List ℕ × Answer
queue_perform q (read_bytes n) = (
  drop n q,
  got (take n q) (if n == 0 then none else if length q == 0 then some end_of_file else none),
)
queue_perform q (discard_bytes n) = (drop (pos_part n) q, dropped (min (pos_part n) (length q)))
queue_perform q (append_slice p) = (q ++ p, no_answer)
queue_perform q (copy_back p capacity) = (q ++ p, no_answer)
queue_perform q (copy_front p capacity) = (p ++ q, no_answer)
queue_perform q forget = ([], no_answer)

-- The buffer holds these bytes, and its counts are right.
pub record IsBuffer (ll : LinkedListBuffer) (q : List ℕ) : Type 0 where
  pub nodes : List (List ℕ)
  pub canonical : ll ≡ buffer nodes
  pub bytes : contents nodes ≡ q

-- A call answers what the queue answers.
record Agrees (r : LinkedListBuffer × Answer) (s : List ℕ × Answer) : Type 0 where
  answer : r.1 ≡ s.1
  holds : IsBuffer r.0 s.0

pub nil_of : (p : List ℕ) → length p ≡ 0 → p ≡ []
nil_of [] h = refl
nil_of (x ∷ p) h = absurd (omega arith)

-- A call that does not panic.
record Performed (o : Option (LinkedListBuffer × Answer)) (s : List ℕ × Answer) : Type 0 where
  reached : LinkedListBuffer × Answer
  result : o ≡ some reached
  agrees : Agrees reached s

abbrev and_then :
    Option (LinkedListBuffer × Answer)
    → (LinkedListBuffer → Option (LinkedListBuffer × List Answer))
    → Option (LinkedListBuffer × List Answer)
and_then none f = none
and_then (some (ll, a)) f = answered a (f ll)
  where
    answered :
        Answer → Option (LinkedListBuffer × List Answer) → Option (LinkedListBuffer × List Answer)
    answered a none = none
    answered a (some (ll, rest)) = some (ll, a ∷ rest)

-- Calls one after another, and their answers.
abbrev pub run : LinkedListBuffer → List Call → Option (LinkedListBuffer × List Answer)
run ll [] = some (ll, [])
run ll (c ∷ cs) = and_then (perform ll c) (λ ll'. run ll' cs)

abbrev pub queue_run : List ℕ → List Call → List ℕ × List Answer
queue_run q [] = (q, [])
queue_run q (c ∷ cs) =
    let r = queue_perform q c in let rest = queue_run r.0 cs in (rest.0, r.1 ∷ rest.1)

abbrev pub all_served : List Call → Bool
all_served [] = true
all_served (c ∷ cs) = served c && all_served cs

record Ran (o : Option (LinkedListBuffer × List Answer)) (s : List ℕ × List Answer) : Type 0 where
  reached : LinkedListBuffer
  result : o ≡ some (reached, s.1)
  holds : IsBuffer reached s.0
