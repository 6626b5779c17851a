-- ===== src/Buffer/LinkedList/Streams.antt =====
-- `WriteTo` and `ReadFrom`: what becomes of the bytes.
use mathlib.Core.List.{append_assoc, append-nil}
use native.Mathlib.Nat.{zero-add}
use go_common.Common.{
  ℕ, ◌+◌, ◌≡◌, ◌≤◌, ◌<◌, refl, sym, ap, ap₂, subst, ◌∙◌, true, false, ltb→lt, Option, none, some,
  List, [], ◌∷◌, ◌++◌, ltb, ltb→ge, length, take, drop, arith, length-append, Bool-cases, inl, inr,
  ◌⊎◌,
}
use go_common.Common.Slices.{take_all}
use go_common.Buffer.LinkedList.{
  LinkedListBuffer, BufferError, short_write, stream_failed, popped, push_node_front, Chunk, more,
  last, read_from, Written, Writer, write_loop, write_to,
}
use go_common.Buffer.LinkedList.Queue.{contents, buffer, popped-buffer, front-buffer, back-buffer}

-- The writer takes all of these slices, one after another.
abbrev pub Accepts {ℓ} : {W : Type ℓ} → Writer W → W → List (List ℕ) → Type 0
Accepts write w [] = Unit {0}
Accepts write w (d ∷ ds) =
    ((write w d).0.fails ≡ false)
    × (length d ≤ (write w d).0.count)
    × Accepts write (write w d).1 ds

-- Its state behind them.
abbrev pub state_after {ℓ} : {W : Type ℓ} → Writer W → W → List (List ℕ) → W
state_after write w [] = w
state_after write w (d ∷ ds) = state_after write (write w d).1 ds

-- What is left when the writer answers this at the slice `d`, with `after` behind it.
pub data Ended (d : List ℕ) (after : List (List ℕ)) (a : Written)
    : Option BufferError → LinkedListBuffer → Type 0 where
  refused : a.fails ≡ true → Ended d after a (some stream_failed) (buffer after)
  cut_short :
      a.fails ≡ false
      → a.count < length d
      → Ended d after a (some short_write) (buffer (drop a.count d ∷ after))

-- A `WriteTo` that ends at a slice.
pub record Stopped {ℓ} {W : Type ℓ} (write : Writer W) (w : W) (ds : List (List ℕ))
    (r : (List ℕ × Option BufferError) × LinkedListBuffer) : Type 0 where
  pub before : List (List ℕ)
  pub slice : List ℕ
  pub after : List (List ℕ)
  pub split : ds ≡ before ++ (slice ∷ after)
  pub accepted : Accepts write w before
  pub sent :
      r.0.0 ≡ contents before ++ take (write (state_after write w before) slice).0.count slice
  pub ended : Ended slice after (write (state_after write w before) slice).0 r.0.1 r.1

write_loop-cases {ℓ} :
    {W : Type ℓ} (write : Writer W) (w : W) (ds : List (List ℕ))
    → ((Accepts write w ds)
        × (write_loop write w ds (buffer ds) ≡ ((contents ds, none), buffer [])))
      ⊎ Stopped write w ds (write_loop write w ds (buffer ds))
unfolding write_loop
write_loop-cases write w [] = inl (tt, refl)
write_loop-cases write w (d ∷ ds) = elim (Bool-cases ((write w d).0.fails)) [
  | inl t ↦
      rw (t, popped-buffer d ds)
        (inr (record {
          before = [];
          slice = d;
          after = ds;
          split = refl;
          accepted = tt;
          sent = refl;
          ended = refused t;
        }))
  | inr t ↦ elim (Bool-cases (ltb (write w d).0.count (length d))) [
    | inl u ↦
        let rest = drop (write w d).0.count d in
        let left : push_node_front (popped (buffer (d ∷ ds)) d ds) rest ≡ buffer (rest ∷ ds) =
          ap (λ ll. push_node_front ll rest) (popped-buffer d ds) ∙ front-buffer rest ds in
        rw (t, u)
          (inr (record {
            before = [];
            slice = d;
            after = ds;
            split = refl;
            accepted = tt;
            sent = refl;
            ended =
                subst (Ended d ds (write w d).0 (some short_write)) (sym left)
                  (cut_short t (ltb→lt _ _ u));
          }))
    | inr u ↦
        let le : length d ≤ (write w d).0.count = ltb→ge _ _ u in
        let whole : take (write w d).0.count d ≡ d = take_all (write w d).0.count d le in
        elim (write_loop-cases write (write w d).1 ds) [
          | inl k ↦ rw (t, u, popped-buffer d ds, whole, k.1) (inl ((refl, le, k.0), refl))
          | inr k ↦
              rw (t, u, popped-buffer d ds, whole)
                (inr (record {
                  before = d ∷ k.before;
                  slice = k.slice;
                  after = k.after;
                  split = ap (λ x. d ∷ x) k.split;
                  accepted = (t, le, k.accepted);
                  sent = ap (λ x. d ++ x) k.sent ∙ sym (append_assoc d (contents k.before) _);
                  ended = k.ended;
                }))
        ]
  ]
]

-- Writing a buffer to any writer, which may keep a state. Either the writer takes every slice whole: all
-- bytes are written in their order, there is no error and the buffer is empty. Or it takes some slices
-- whole and is then stopped at one: what is written is those and what it took of that slice. If it
-- failed there, the error is its own and the buffer has the slices behind that one; if it took less
-- than the slice without an error, the answer is a short write and the buffer has the rest of the slice
-- too. The counts of the buffer are right.
pub write_to-bytes {ℓ} :
    {W : Type ℓ} (write : Writer W) (w : W) (ds : List (List ℕ))
    → ((Accepts write w ds) × (write_to write w (buffer ds) ≡ ((contents ds, none), buffer [])))
      ⊎ Stopped write w ds (write_to write w (buffer ds))
unfolding write_to
write_to-bytes write w ds = write_loop-cases write w ds

-- A reader that answers chunks and then ends, with `bs` in its last answer.
abbrev pub chunks : List (List ℕ) → List ℕ → List Chunk
chunks [] bs = last bs ∷ []
chunks (c ∷ cs) bs = more c ∷ chunks cs bs

-- Reading from a reader to its end: the chunks are appended as they come, but the bytes that come
-- together with the end are counted in the answer and not kept.
pub read_from-chunks :
    (cs ds : List (List ℕ)) (bs : List ℕ)
    → read_from (chunks cs bs) (buffer ds)
      ≡ some ((length (contents cs) + length bs, none), buffer (ds ++ cs))
unfolding read_from
read_from-chunks [] ds bs =
    ap₂ (λ n x. some ((n, none), buffer x)) (sym (zero-add (length bs))) (sym (append-nil ds))
read_from-chunks (c ∷ cs) ds bs =
    let ih = read_from-chunks cs (ds ++ (c ∷ [])) bs in
    let sum : length c + (length (contents cs) + length bs)
        ≡ length (c ++ contents cs) + length bs =
      omega (arith, length-append c (contents cs)) in
    rw (back-buffer c ds)
      (rw ih (ap₂ (λ n x. some ((n, none), buffer x)) sum (append_assoc ds (c ∷ []) cs)))
