-- ===== src/Buffer/LinkedList/Peeks.antt =====
-- `Peek` and `PeekWithBytes`: the bytes of the slices that are answered.
use Prim.Native.Nat.{min}
use mathlib.Core.List.{append_assoc, append-nil}
use go_common.Common.{
  ℕ, ◌+◌, ◌-◌, ◌≤◌, ◌<◌, ◌≡◌, refl, sym, ap, ap₂, ◌∙◌, false, none, some, List, [], ◌∷◌, ◌++◌, ltb,
  ltb→lt, ◌==◌, if◌then◌else◌, length-append, length, take, arith, Bool-cases, inl, inr, ◌⊎◌,
}
use go_common.Common.Slices.{take_all, take-append_within, take-append_beyond}
use go_common.Common.Int.{ℤ, pos_part}
use go_common.Buffer.LinkedList.{
  short_buffer, collect_existing, collect_nodes, collect_bytes, max_int32, is_all, peek_with_bytes,
  sum_lengths,
}
use go_common.Buffer.LinkedList.Queue.{contents, buffer, sum_lengths-contents}
use go_common.Buffer.LinkedList.Runs.{nil_of}

contents-append : (ds es : List (List ℕ)) → contents (ds ++ es) ≡ contents ds ++ contents es
contents-append [] es = refl
contents-append (d ∷ ds) es =
    ap (λ x. d ++ x) (contents-append ds es) ∙ sym (append_assoc d (contents ds) (contents es))

one_slice : (d : List ℕ) → contents (d ∷ []) ≡ d
one_slice d = append-nil d

collect_nodes-contents :
    (room : ℕ) (ds : List (List ℕ)) → contents (collect_nodes room ds) ≡ take room (contents ds)
unfolding collect_nodes
collect_nodes-contents room [] = sym (take_all room [] (omega arith))
collect_nodes-contents room (d ∷ ds) =
    let n = min room (length d) in
    elim (Bool-cases (room - n == 0)) [
      | inl t ↦
          let same : n ≡ room = ground arith in
          rw t (
            one_slice (take n d)
            ∙ ap (λ m. take m d) same
            ∙ sym (take-append_within room d (contents ds) (omega arith)))
      | inr t ↦
          let full : n ≡ length d = ground arith in
          rw t (
            ap₂ (λ x y. x ++ y) (take_all n d (omega arith))
              (collect_nodes-contents (room - n) ds ∙ ap (λ m. take (room - m) (contents ds)) full)
            ∙ sym (take-append_beyond room d (contents ds) (omega arith)))
    ]

-- What is collected of the slices, and the room left.
collect_existing-contents :
    (room : ℕ) (bs : List (List ℕ))
    → 0 < room
    → (contents (collect_existing room bs).0 ≡ take room (contents bs))
      × ((collect_existing room bs).1 ≡ room - length (contents bs))
unfolding collect_existing
collect_existing-contents room [] h = (sym (take_all room [] (omega arith)), omega arith)
collect_existing-contents room (b ∷ bs) h =
    let n = min room (length b) in
    let len = length-append b (contents bs) in
    elim (Bool-cases (room - n == 0)) [
      | inl t ↦
          let same : n ≡ room = ground arith in
          let some_bytes : (length b == 0) ≡ false = ground arith in
          rw (some_bytes, t)
            (
              one_slice (take n b)
                  ∙ ap (λ m. take m b) same
                  ∙ sym (take-append_within room b (contents bs) (omega arith)),
              omega (arith, len),
            )
      | inr t ↦
          let full : n ≡ length b = ground arith in
          let ih = collect_existing-contents (room - n) bs (ground arith) in
          let beyond = take-append_beyond room b (contents bs) (omega arith) in
          let rest = ih.0 ∙ ap (λ m. take (room - m) (contents bs)) full in
          elim (Bool-cases (length b == 0)) [
            | inl z ↦
                let nothing : b ≡ [] = nil_of b (ground arith) in
                rw z (
                  rest
                      ∙ ap (λ x. x ++ take (room - length b) (contents bs)) (sym nothing)
                      ∙ sym beyond,
                  omega (arith, ih.1, len),
                )
            | inr z ↦
                rw (z, t)
                  (
                    ap₂ (λ x y. x ++ y) (take_all n b (omega arith)) rest ∙ sym beyond,
                    omega (arith, ih.1, len),
                  )
          ]
    ]

collect_bytes-contents :
    (ds existing : List (List ℕ)) (room : ℕ)
    → 0 < room
    → contents (collect_bytes (buffer ds) room existing)
      ≡ take room (contents existing ++ contents ds)
unfolding collect_bytes
collect_bytes-contents ds existing room h =
    let got = collect_existing-contents room existing h in
    let r = collect_existing room existing in
    elim (Bool-cases (r.1 == 0)) [
      | inl t ↦
          let within : room ≤ length (contents existing) = ground (arith, got.1) in
          rw t (got.0 ∙ sym (take-append_within room (contents existing) (contents ds) within))
      | inr t ↦
          let beyond : length (contents existing) ≤ room = ground (arith, got.1) in
          rw t (
            contents-append r.0 (collect_nodes r.1 ds)
            ∙ ap₂ (λ x y. x ++ y) (got.0 ∙ take_all room (contents existing) beyond)
                (collect_nodes-contents r.1 ds ∙ ap (λ m. take m (contents ds)) got.1)
            ∙ sym (take-append_beyond room (contents existing) (contents ds) beyond))
    ]

-- How many bytes are asked for.
abbrev pub asked : ℤ → ℕ
asked n = if is_all n then max_int32 else pos_part n

-- The slices that are answered hold, one after another, the bytes that are asked for, first of the given
-- slices and then of the buffer; with fewer there is an error, unless all are asked for.
pub peek_with_bytes-contents :
    (ds existing : List (List ℕ)) (n : ℤ)
    → ((is_all n ≡ false)
        × (length (contents existing ++ contents ds) < pos_part n)
        × (peek_with_bytes (buffer ds) n existing ≡ ([], some short_buffer)))
      ⊎ ((contents (peek_with_bytes (buffer ds) n existing).0
            ≡ take (asked n) (contents existing ++ contents ds))
          × ((peek_with_bytes (buffer ds) n existing).1 ≡ none))
unfolding peek_with_bytes
peek_with_bytes-contents ds existing n =
    let lens = length-append (contents existing) (contents ds) in
    elim (Bool-cases (is_all n)) [
      | inl t ↦ rw t (inr (collect_bytes-contents ds existing max_int32 (omega arith), refl))
      | inr t ↦ elim (Bool-cases (ltb (sum_lengths ds + sum_lengths existing) (pos_part n))) [
        | inl u ↦
            let few = ltb→lt (sum_lengths ds + sum_lengths existing) (pos_part n) u in
            rw (t, u)
              (inl (
                refl,
                omega (arith, lens, sum_lengths-contents ds, sum_lengths-contents existing),
                refl,
              ))
        | inr u ↦
            let some_asked : 0 < pos_part n = ground arith in
            rw (t, u) (inr (collect_bytes-contents ds existing (pos_part n) some_asked, refl))
      ]
    ]
