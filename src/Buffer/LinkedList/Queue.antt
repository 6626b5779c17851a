-- ===== src/Buffer/LinkedList/Queue.antt =====
-- The buffer as a queue of bytes, whatever its nodes are.
use Prim.Native.Nat.{min}
use mathlib.Core.List.{append_assoc, append-nil}
use go_common.Common.{
  ℕ, ◌+◌, ◌-◌, ◌≤◌, ◌<◌, ◌≡◌, refl, sym, ap, ap₂, subst, ◌∙◌, true, false, List, [], ◌∷◌, ◌++◌, ltb,
  ltb→lt, ltb→ge, ◌==◌, length, take, drop, arith, length-append, Bool-cases, dec_lt, inl, inr,
}
use go_common.Common.Slices.{
  take_all, drop_all, take-append_within, take-append_beyond, drop-append_within,
  drop-append_beyond,
}
use go_common.Buffer.LinkedList.{
  LinkedListBuffer, popped, push_node_front, push_node_back, put_back, read_loop, discard_loop,
  sum_lengths,
}

abbrev pub contents : List (List ℕ) → List ℕ
contents [] = []
contents (d ∷ ds) = d ++ contents ds

-- The buffer of these nodes, with its counts.
abbrev pub buffer : List (List ℕ) → LinkedListBuffer
buffer ds = record { nodes = ds; node_count = length ds; byte_count = sum_lengths ds }

pub sum_lengths-contents : (ds : List (List ℕ)) → sum_lengths ds ≡ length (contents ds)
sum_lengths-contents [] = refl
sum_lengths-contents (d ∷ ds) =
    omega (arith, sum_lengths-contents ds, length-append d (contents ds))

buffer-eq :
    (ds : List (List ℕ)) (n b : ℕ)
    → n ≡ length ds
    → b ≡ sum_lengths ds
    → record { nodes = ds; node_count = n; byte_count = b } ≡ buffer ds
buffer-eq ds n b p q = λ i. record { nodes = ds; node_count = p i; byte_count = q i }

pub popped-buffer : (d : List ℕ) (ds : List (List ℕ)) → popped (buffer (d ∷ ds)) d ds ≡ buffer ds
popped-buffer d ds =
    buffer-eq ds (length (d ∷ ds) - 1) (sum_lengths (d ∷ ds) - length d) (omega arith) (omega arith)

pub front-buffer :
    (d : List ℕ) (ds : List (List ℕ)) → push_node_front (buffer ds) d ≡ buffer (d ∷ ds)
front-buffer d ds =
    buffer-eq (d ∷ ds) (length ds + 1) (sum_lengths ds + length d) (omega arith) (omega arith)

sum_lengths-snoc :
    (d : List ℕ) (ds : List (List ℕ)) → sum_lengths (ds ++ (d ∷ [])) ≡ sum_lengths ds + length d
sum_lengths-snoc d [] = omega arith
sum_lengths-snoc d (x ∷ ds) = omega (arith, sum_lengths-snoc d ds)

pub back-buffer :
    (d : List ℕ) (ds : List (List ℕ)) → push_node_back (buffer ds) d ≡ buffer (ds ++ (d ∷ []))
back-buffer d ds =
    buffer-eq (ds ++ (d ∷ [])) (length ds + 1) (sum_lengths ds + length d)
      (omega (arith, length-append ds (d ∷ []))) (omega (arith, sum_lengths-snoc d ds))

pub contents-snoc : (d : List ℕ) (ds : List (List ℕ)) → contents (ds ++ (d ∷ [])) ≡ contents ds ++ d
contents-snoc d [] = append-nil d
contents-snoc d (x ∷ ds) =
    ap (λ r. x ++ r) (contents-snoc d ds) ∙ sym (append_assoc x (contents ds) d)

-- Taking `n` bytes off the front, with the rest of a slice put back.
pub record Taken (n : ℕ) (ds : List (List ℕ)) (ll : LinkedListBuffer) : Type 0 where
  pub nodes : List (List ℕ)
  pub canonical : ll ≡ buffer nodes
  pub rest : contents nodes ≡ drop n (contents ds)

less-zero : (n m : ℕ) → n ≤ m → n - m ≡ 0
less-zero n m h = omega arith

put_back-part :
    (n : ℕ) (d : List ℕ) (ds : List (List ℕ))
    → n < length d
    → Taken n (d ∷ ds) (put_back (popped (buffer (d ∷ ds)) d ds) d n)
put_back-part n d ds lt =
    let t : ltb n (length d) ≡ true = ground arith in
    record {
      nodes = drop n d ∷ ds;
      canonical = rw t (
          ap (λ ll. push_node_front ll (drop n d)) (popped-buffer d ds)
          ∙ front-buffer (drop n d) ds);
      rest = sym (drop-append_within n d (contents ds) (omega arith));
    }

put_back-all :
    (n : ℕ) (d : List ℕ) (ds : List (List ℕ))
    → length d ≤ n
    → put_back (popped (buffer (d ∷ ds)) d ds) d n ≡ buffer ds
put_back-all n d ds le =
    let t : ltb n (length d) ≡ false = ground arith in rw t (popped-buffer d ds)

-- The last slice that is read.
put_back-Taken :
    (room : ℕ) (d : List ℕ) (ds : List (List ℕ))
    → room ≤ length d
    → Taken room (d ∷ ds) (put_back (popped (buffer (d ∷ ds)) d ds) d room)
put_back-Taken room d ds le = elim (dec_lt room (length d)) [
  | yes lt ↦ put_back-part room d ds lt
  | no ge ↦ record {
    nodes = ds;
    canonical = put_back-all room d ds (omega arith);
    rest = sym (
        drop-append_beyond room d (contents ds) (omega arith)
        ∙ ap (λ k. drop k (contents ds)) (less-zero room (length d) le));
  }
]

pub read_loop-Taken :
    (ds : List (List ℕ)) (room : ℕ)
    → 0 < room
    → ((read_loop ds (buffer ds) room).0 ≡ take room (contents ds))
      × Taken room ds (read_loop ds (buffer ds) room).1
unfolding read_loop
read_loop-Taken [] room h = (
  sym (take_all room [] (omega arith)),
  record { nodes = []; canonical = refl; rest = sym (drop_all room [] (omega arith)) },
)
read_loop-Taken (d ∷ ds) room h =
    let n = min room (length d) in
    elim (Bool-cases (room - n == 0)) [
      | inl t ↦
          let same : n ≡ room = ground arith in
          let le : room ≤ length d = omega arith in
          let k = put_back-Taken room d ds le in
          rw t (
            ap (λ m. take m d) same ∙ sym (take-append_within room d (contents ds) le),
            subst (λ m. Taken room (d ∷ ds) (put_back (popped (buffer (d ∷ ds)) d ds) d m))
                (sym same) k,
          )
      | inr t ↦
          let full : n ≡ length d = ground arith in
          let ge : length d ≤ room = omega arith in
          let ih = read_loop-Taken ds (room - n) (ground arith) in
          let back = put_back-all n d ds (omega arith) in
          let left : room - n ≡ room - length d = omega arith in
          let k = ih.1 in
          rw (t, back)
            (
              ap₂ (λ x y. x ++ y) (take_all n d (omega arith))
                    (ih.0 ∙ ap (λ m. take m (contents ds)) left)
                  ∙ sym (take-append_beyond room d (contents ds) ge),
              record {
                nodes = k.nodes;
                canonical = k.canonical;
                rest =
                    k.rest
                    ∙ ap (λ m. drop m (contents ds)) left
                    ∙ sym (drop-append_beyond room d (contents ds) ge);
              },
            )
    ]

pub discard_loop-Taken :
    (ds : List (List ℕ)) (n : ℕ)
    → ((discard_loop ds (buffer ds) n).0 ≡ min n (length (contents ds)))
      × Taken n ds (discard_loop ds (buffer ds) n).1
unfolding discard_loop
discard_loop-Taken [] n =
    (omega arith, record { nodes = []; canonical = refl; rest = sym (drop_all n [] (omega arith)) })
discard_loop-Taken (d ∷ ds) n = elim (Bool-cases (n == 0)) [
  | inl t ↦
      let z : n ≡ 0 = ground arith in
      rw t (
        omega arith,
        record {
          nodes = d ∷ ds;
          canonical = refl;
          rest = ap (λ m. drop m (d ++ contents ds)) (sym z);
        },
      )
  | inr t ↦
      let len = length-append d (contents ds) in
      elim (Bool-cases (ltb n (length d))) [
        | inl u ↦
            let lt = ltb→lt n (length d) u in
            rw (t, u)
              (
                omega (arith, len),
                record {
                  nodes = drop n d ∷ ds;
                  canonical =
                      ap (λ ll. push_node_front ll (drop n d)) (popped-buffer d ds)
                      ∙ front-buffer (drop n d) ds;
                  rest = sym (drop-append_within n d (contents ds) (omega arith));
                },
              )
        | inr u ↦
            let ge = ltb→ge n (length d) u in
            let ih = discard_loop-Taken ds (n - length d) in
            let k = ih.1 in
            rw (t, u, popped-buffer d ds)
              (
                omega (arith, len, ih.0),
                record {
                  nodes = k.nodes;
                  canonical = k.canonical;
                  rest = k.rest ∙ sym (drop-append_beyond n d (contents ds) ge);
                },
              )
      ]
]
