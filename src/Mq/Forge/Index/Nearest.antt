-- ===== src/Mq/Forge/Index/Nearest.antt =====
-- What is looked up is the last entry at or before an offset.
use go_common.Common.{
  ℕ, ◌+◌, ◌-◌, ◌^◌, ◌≤◌, ◌<◌, ◌≡◌, refl, sym, ap, ◌∙◌, true, false, Option, none, some, List, [],
  ◌∷◌, ◌++◌, ltb, leb, if◌then◌else◌, arith, Bool-cases, inl, inr,
}
use go_common.Mq.Forge.Index.{
  IndexEntry, Index, relative, append, before_greater, found, lookup, last_of, at_base, last_entry,
}

-- The last of all entries, in the order of appending, whose offset is at most `target`; at first the
-- beginning of the segment.
abbrev pub nearest : ℕ → ℕ → ℕ × ℕ → List IndexEntry → ℕ × ℕ
nearest base target best [] = best
nearest base target best (e ∷ es) =
    nearest base target
      (if leb (base + e.relative_offset) target
        then (e.position, base + e.relative_offset)
        else best)
      es

-- Relative offsets that do not descend, from `low` on.
pub data Ascending : ℕ → List IndexEntry → Type 0 where
  no_entry : {low : ℕ} → Ascending low []
  next_entry :
      {low : ℕ} {e : IndexEntry} {es : List IndexEntry}
      → low ≤ e.relative_offset
      → Ascending e.relative_offset es
      → Ascending low (e ∷ es)

pub relative-eq :
    (base o : ℕ) → base ≤ o → o < base + 2 ^ 32 → o < 2 ^ 64 → relative base o ≡ o - base
unfolding relative
relative-eq base o h k w = omega arith

-- No entry past the first that is greater counts.
nearest_past :
    (base target low : ℕ) (best : ℕ × ℕ) (es : List IndexEntry)
    → Ascending low es
    → target < base + low
    → nearest base target best es ≡ best
nearest_past base target low best [] no_entry h = refl
nearest_past base target low best (e ∷ es) (next_entry le up) h =
    let t : leb (base + e.relative_offset) target ≡ false = ground arith in
    rw t (nearest_past base target e.relative_offset best es up (omega arith))

before_greater-nearest :
    (base target low : ℕ) (last : Option IndexEntry) (es : List IndexEntry)
    → base ≤ target
    → Ascending low es
    → found base (before_greater (target - base) last es) ≡ nearest base target (found base last) es
unfolding before_greater
before_greater-nearest base target low last [] le no_entry = refl
before_greater-nearest base target low last (e ∷ es) le (next_entry lo up) =
    elim (Bool-cases (ltb (target - base) e.relative_offset)) [
      | inl t ↦
          let u : leb (base + e.relative_offset) target ≡ false = ground arith in
          rw (t, u)
            (sym
              (nearest_past base target e.relative_offset (found base last) es up (ground arith)))
      | inr t ↦
          let u : leb (base + e.relative_offset) target ≡ true = ground arith in
          rw (t, u) (before_greater-nearest base target e.relative_offset (some e) es le up)
    ]

-- In an index whose offsets ascend, for every target less than 2^32 above the base, `Lookup` finds
-- the last of all entries whose offset is at most the target, and the segment's beginning if there is
-- none, as for a target before the base.
pub lookup-nearest :
    (idx : Index) (target : ℕ)
    → Ascending 0 idx.entries
    → target < idx.base_offset + 2 ^ 32
    → target < 2 ^ 64
    → lookup idx target ≡ nearest idx.base_offset target (0, idx.base_offset) idx.entries
unfolding lookup
lookup-nearest idx target up lt w = elim (Bool-cases (ltb target idx.base_offset)) [
  | inl t ↦ rw t (
      sym
        (nearest_past idx.base_offset target 0 (0, idx.base_offset) idx.entries up (ground arith)))
  | inr t ↦
      let le : idx.base_offset ≤ target = ground arith in
      rw (t, relative-eq idx.base_offset target le lt w)
        (before_greater-nearest idx.base_offset target 0 none idx.entries le up)
]

last_of-append : (es : List IndexEntry) (e : IndexEntry) → last_of (es ++ (e ∷ [])) ≡ some e
unfolding last_of
last_of-append [] e = refl
last_of-append (e' ∷ []) e = refl
last_of-append (e' ∷ e'' ∷ es) e = last_of-append (e'' ∷ es) e

-- After an offset less than 2^32 above the base is appended, `LastEntry` answers that offset with its
-- position.
pub last_entry-append :
    (idx : Index) (offset position : ℕ)
    → idx.base_offset ≤ offset
    → offset < idx.base_offset + 2 ^ 32
    → offset < 2 ^ 64
    → last_entry (append idx offset position) ≡ some (offset, position)
unfolding last_entry append
last_entry-append idx offset position le lt w =
    let e : idx.base_offset + relative idx.base_offset offset ≡ offset =
      omega (arith, relative-eq idx.base_offset offset le lt w) in
    ap (at_base idx.base_offset) (last_of-append idx.entries _) ∙ ap (λ o. some (o, position)) e
