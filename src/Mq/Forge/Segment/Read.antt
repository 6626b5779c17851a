-- ===== src/Mq/Forge/Segment/Read.antt =====
-- `ReadFrom`: what a reader of a segment gets.
use Prim.Native.Nat.{min}
use mathlib.Core.List.{append_assoc}
use native.Mathlib.Nat.{mod-eq_of_lt}
use go_common.Common.{
  ℕ, zero, suc, ◌+◌, ◌-◌, ◌^◌, ◌≤◌, ◌<◌, ◌≡◌, refl, sym, ap, ap₂, subst, ◌∙◌, false, Option, none,
  some, List, [], ◌∷◌, ◌++◌, ltb, ltb→ge, ◌==◌, if◌then◌else◌, length, take, drop, arith,
  length-append, Bool-cases, dec_lt, inl, inr, ◌⊎◌,
}
use go_common.Common.Slices.{take_all}
use go_common.Mq.Forge.Varint.Fields.{drop-append, take-append_short, take-append_long}
use go_common.Mq.Forge.Batch.{Codec, Result, ok, RecordBatch, batch_size, ◌>>=◌}
use go_common.Mq.Forge.Index.{IndexEntry, relative, before_greater, found, lookup}
use go_common.Mq.Forge.Index.Nearest.{relative-eq}
use go_common.Mq.Forge.Segment.{Segment, end_offset, batches_from, read_window, read_from}
use go_common.Mq.Forge.Segment.Stored.{
  Stored, Holds, AllHold, AllHold-right, log_bytes, log_bytes-append, Contiguous, Contiguous-le,
  Contiguous-right, batch_size-torn,
}
use go_common.Mq.Forge.Segment.Scan.{at_size-Holds}
use go_common.Mq.Forge.Segment.Valid.{Mark, AllMark, IsSegment}

-- The batches with a record at `offset` or behind it.
abbrev pub wanted : ℕ → List Stored → List RecordBatch
wanted offset [] = []
wanted offset ((b, bs) ∷ es) =
    if ltb offset (b.base_offset + b.record_count) then b ∷ wanted offset es else wanted offset es

pub wanted-append-before :
    (target o m : ℕ) (es fs : List Stored)
    → Contiguous o es m
    → m ≤ target
    → wanted target (es ++ fs) ≡ wanted target fs
wanted-append-before target o m [] fs k le = refl
wanted-append-before target o m ((b, bs) ∷ es) fs k le =
    let up = Contiguous-le (o + b.record_count) m es k.2 in
    let past : ltb target (b.base_offset + b.record_count) ≡ false = ground (arith, k.0) in
    rw past (wanted-append-before target (o + b.record_count) m es fs k.2 le)

-- What the loop over the first `k` bytes of a log answers.
Answers : Codec → ℕ → List Stored → ℕ → Result (List RecordBatch) → Type 0
Answers c target es k r =
    (first : List Stored) × (second : List Stored) × (es ≡ first ++ second)
    × (r ≡ ok (wanted target first))
    × (length (log_bytes es) ≤ k → second ≡ [])

batches_from-cons :
    (c : Codec) (fuel target : ℕ) (b : RecordBatch) (bs rest : List ℕ)
    → Holds c b bs
    → batches_from c (suc fuel) target (bs ++ rest) ≡ (
        batches_from c fuel target rest >>= λ found.
        ok (if ltb target (end_offset b) then b ∷ found else found))
unfolding batches_from
batches_from-cons c fuel target b bs rest h =
    let z : (length (bs ++ rest) == 0) ≡ false = ground (arith, length-append bs rest, h.header) in
    rw z (
      at_size-Holds c b bs rest []
        (λ n b'. batches_from c fuel target (drop n (bs ++ rest)) >>= λ found.
          ok (if ltb target (end_offset b') then b' ∷ found else found))
        h
      ∙ rw (drop-append bs rest) refl)

batches_from-nil :
    (c : Codec) (fuel target : ℕ) (buf : List ℕ)
    → (buf ≡ []) ⊎ (batch_size buf ≡ none)
    → batches_from c (suc fuel) target buf ≡ ok []
unfolding batches_from
batches_from-nil c fuel target buf (inl e) = rw e refl
batches_from-nil c fuel target buf (inr e) = elim (Bool-cases (length buf == 0)) [
  | inl z ↦ rw z refl
  | inr z ↦ rw (z, e) refl
]

batches_from-log :
    (c : Codec) (fuel target o o' : ℕ) (es : List Stored) (k : ℕ)
    → AllHold c es
    → Contiguous o es o'
    → o' < 2 ^ 64
    → length (take k (log_bytes es)) < fuel
    → Answers c target es k (batches_from c fuel target (take k (log_bytes es)))
unfolding Answers
batches_from-log c zero target o o' es k h con lt enough = absurd (omega arith)
batches_from-log c (suc fuel) target o o' [] k h con lt enough = (
  [],
  [],
  refl,
  batches_from-nil c fuel target (take k []) (inl (take_all k [] (omega arith))),
  λ _. refl,
)
batches_from-log c (suc fuel) target o o' ((b, bs) ∷ es) k h con lt enough =
    let len = length-append bs (log_bytes es) in
    elim (dec_lt k (length bs)) [
      | yes short ↦
          let torn =
            ap batch_size (take-append_short k bs (log_bytes es) short)
            ∙ batch_size-torn bs k h.0.field short in
          (
            [],
            (b, bs) ∷ es,
            refl,
            batches_from-nil c fuel target _ (inr torn),
            λ le. absurd (omega (arith, len)),
          )
      | no long ↦
          let j = k - length bs in
          let split : k ≡ length bs + j = omega arith in
          let up = Contiguous-le (o + b.record_count) o' es con.2 in
          let end : end_offset b ≡ b.base_offset + b.record_count =
            mod-eq_of_lt (omega (arith, con.0)) in
          let bytes =
            ap (λ n. take n (bs ++ log_bytes es)) split ∙ take-append_long j bs (log_bytes es) in
          let less = ap length bytes ∙ length-append bs (take j (log_bytes es)) in
          let r =
            batches_from-log c fuel target (o + b.record_count) o' es j h.1 con.2 lt
              (omega (arith, less, h.0.header)) in
          (
            (b, bs) ∷ r.0,
            r.1,
            ap (◌∷◌ (b, bs)) r.2,
            ap (batches_from c (suc fuel) target) bytes
                ∙ batches_from-cons c fuel target b bs (take j (log_bytes es)) h.0
                ∙ rw (r.3, end) refl,
            λ le. r.4 (omega (arith, len)),
          )
    ]

-- A place in a log to read from: no batch before it is wanted.
record Place (c : Codec) (base o' target : ℕ) (es : List Stored) (position : ℕ) : Type 0 where
  before : List Stored
  after : List Stored
  at : ℕ
  both : es ≡ before ++ after
  here : position ≡ length (log_bytes before)
  left : Contiguous base before at
  right : Contiguous at after o'
  past : (before ≡ []) ⊎ (at ≤ target)

Mark-Place :
    (c : Codec) (base o' target : ℕ) (es : List Stored) (m : IndexEntry)
    → Contiguous base es o'
    → Mark base es m
    → ((base + m.relative_offset ≤ target) ⊎ (o' ≤ target))
    → Place c base o' target es m.position
Mark-Place c base o' target es m k h le =
    let right =
      Contiguous-right base (base + m.relative_offset) o' h.before (h.here ∷ h.after) h.offset
        (subst (λ x. Contiguous base x o') h.both k) in
    let up = Contiguous-le (base + m.relative_offset) o' (h.here ∷ h.after) right in
    record {
      before = h.before;
      after = h.here ∷ h.after;
      at = base + m.relative_offset;
      both = h.both;
      here = h.position;
      left = h.offset;
      right = right;
      past = inr (elim le [ inl a ↦ a | inr b ↦ omega arith ]);
    }

start-Place :
    (c : Codec) (base o' target : ℕ) (es : List Stored)
    → Contiguous base es o'
    → Place c base o' target es 0
start-Place c base o' target es k = record {
  before = [];
  after = es;
  at = base;
  both = refl;
  here = refl;
  left = refl;
  right = k;
  past = inl refl;
}

-- The entry that the index finds, if there is one, is a mark whose offset is not greater.
abbrev Near : ℕ → List Stored → ℕ → Option IndexEntry → Type 0
Near base es rel none = Unit {0}
Near base es rel (some m) = Mark base es m × (m.relative_offset ≤ rel)

before_greater-Near :
    (base : ℕ) (es : List Stored) (rel : ℕ) (last : Option IndexEntry) (ms : List IndexEntry)
    → AllMark base es ms
    → Near base es rel last
    → Near base es rel (before_greater rel last ms)
unfolding before_greater
before_greater-Near base es rel last [] h k = k
before_greater-Near base es rel last (m ∷ ms) h k = elim (Bool-cases (ltb rel m.relative_offset)) [
  | inl t ↦ rw t k
  | inr t ↦
      rw t (before_greater-Near base es rel (some m) ms h.1 (h.0, ltb→ge rel m.relative_offset t))
]

found-Place :
    (c : Codec) (base base' o' target : ℕ) (es : List Stored) (m : Option IndexEntry) (rel : ℕ)
    → Contiguous base es o'
    → Near base es rel m
    → ((base + rel ≤ target) ⊎ (o' ≤ target))
    → Place c base o' target es (found base' m).0
found-Place c base base' o' target es none rel k h le = start-Place c base o' target es k
found-Place c base base' o' target es (some m) rel k h le =
    Mark-Place c base o' target es m k h.0
      (elim le [ inl a ↦ inl (omega (arith, h.1)) | inr b ↦ inr b ])

lookup-Place :
    (c : Codec) (s : Segment) (es : List Stored) (target : ℕ)
    → IsSegment c s es
    → target < 2 ^ 64
    → Place c s.base_offset s.next_offset target es (lookup s.index target).0
unfolding lookup
lookup-Place c s es target h lt = elim (Bool-cases (ltb target s.index.base_offset)) [
  | inl t ↦ rw t (start-Place c s.base_offset s.next_offset target es h.contiguous)
  | inr t ↦
      let rel = relative s.index.base_offset target in
      let le = ltb→ge target s.index.base_offset t in
      let near = before_greater-Near s.base_offset es rel none s.index.entries h.marks tt in
      let low : ((s.base_offset + rel ≤ target) ⊎ (s.next_offset ≤ target)) =
        elim (dec_lt target (s.base_offset + 2 ^ 32)) [
          | yes below ↦
              let r = relative-eq s.index.base_offset target le (omega (arith, h.index_base)) lt in
              inl (omega (arith, r, h.index_base))
          | no above ↦ inr (omega (arith, h.few))
        ] in
      rw t (
        found-Place c s.base_offset s.index.base_offset s.next_offset target es
          (before_greater rel none s.index.entries) rel h.contiguous near low)
]

read_window-eq :
    (c : Codec) (s : Segment) (es : List Stored) (position max_bytes : ℕ)
    → IsSegment c s es
    → read_window s position max_bytes
      ≡ take (min max_bytes (length s.log - position)) (drop position s.log)
unfolding read_window
read_window-eq c s es position max_bytes h = elim h.mapped [
  | inl e ↦ simp (e, h.size) refl
  | inr e ↦
      let same : min (position + max_bytes) (length s.log) - position
          ≡ min max_bytes (length s.log - position) =
        omega arith in
      simp (e, same) refl
]

-- A valid segment with its file mapped or not.
with_map-IsSegment :
    (c : Codec) (s : Segment) (es : List Stored) (m : Option (List ℕ))
    → IsSegment c s es
    → ((m ≡ none) ⊎ (m ≡ some s.log))
    → IsSegment c (record s { mmap = m }) es
with_map-IsSegment c s es m h k = record {
  log = h.log;
  size = h.size;
  hold = h.hold;
  contiguous = h.contiguous;
  marks = h.marks;
  index_base = h.index_base;
  few = h.few;
  in_range = h.in_range;
  mapped = k;
  usable = h.usable;
}

read_from-loop :
    (c : Codec) (s : Segment) (es : List Stored) (offset max_bytes : ℕ)
    → IsSegment c s es
    → read_from c s offset max_bytes
      ≡ batches_from c
          (suc (
            length (
              take
                (min max_bytes (length s.log - (lookup s.index offset).0))
                (drop (lookup s.index offset).0 s.log))))
          offset
          (take
            (min max_bytes (length s.log - (lookup s.index offset).0))
            (drop (lookup s.index offset).0 s.log))
unfolding read_from
read_from-loop c s es offset max_bytes h =
    let position = (lookup s.index offset).0 in
    rw (read_window-eq c s es position max_bytes h) (simp (h.usable) refl)

read_from-map :
    (c : Codec) (s : Segment) (es : List Stored) (offset max_bytes : ℕ)
    → IsSegment c s es
    → read_from c (record s { mmap = some s.log }) offset max_bytes
      ≡ read_from c (record s { mmap = none }) offset max_bytes
read_from-map c s es offset max_bytes h =
    read_from-loop c (record s { mmap = some s.log }) es offset max_bytes
      (with_map-IsSegment c s es (some s.log) h (inr refl))
    ∙ sym (
        read_from-loop c (record s { mmap = none }) es offset max_bytes
          (with_map-IsSegment c s es none h (inl refl)))

pub read_from-wanted :
    (c : Codec) (s : Segment) (es : List Stored) (offset max_bytes : ℕ)
    → IsSegment c s es
    → offset < 2 ^ 64
    → (first : List Stored) × (second : List Stored) × (es ≡ first ++ second)
      × (read_from c s offset max_bytes ≡ ok (wanted offset first))
      × ((second ≡ []) ⊎ (max_bytes < s.size))
      × (read_from c (record s { mmap = some s.log }) offset max_bytes
          ≡ read_from c (record s { mmap = none }) offset max_bytes)
unfolding Answers
read_from-wanted c s es offset max_bytes h lt =
    let position = (lookup s.index offset).0 in
    let p = lookup-Place c s es offset h lt in
    let k = min max_bytes (length s.log - position) in
    let split : s.log ≡ log_bytes p.before ++ log_bytes p.after =
      h.log ∙ ap log_bytes p.both ∙ log_bytes-append p.before p.after in
    let behind : drop position s.log ≡ log_bytes p.after =
      ap₂ drop p.here split ∙ drop-append (log_bytes p.before) (log_bytes p.after) in
    let held = AllHold-right c p.before p.after (subst (AllHold c) p.both h.hold) in
    let r =
      batches_from-log c (suc (length (take k (log_bytes p.after)))) offset p.at s.next_offset
        p.after k held p.right h.in_range (omega arith) in
    let skipped : wanted offset (p.before ++ r.0) ≡ wanted offset r.0 = elim p.past [
      | inl none_before ↦ ap (λ b. wanted offset (b ++ r.0)) none_before
      | inr le ↦ wanted-append-before offset s.base_offset p.at p.before r.0 p.left le
    ] in
    let sizes = ap length split ∙ length-append (log_bytes p.before) (log_bytes p.after) in
    (
      p.before ++ r.0,
      r.1,
      p.both ∙ ap (λ x. p.before ++ x) r.2 ∙ sym (append_assoc p.before r.0 r.1),
      read_from-loop c s es offset max_bytes h
          ∙ ap (λ b. batches_from c (suc (length (take k b))) offset (take k b)) behind
          ∙ r.3
          ∙ ap ok (sym skipped),
      elim (dec_lt max_bytes s.size) [
        | yes few ↦ inr few
        | no all ↦ inl (r.4 (omega (arith, h.size, sizes, p.here)))
      ],
      read_from-map c s es offset max_bytes h,
    )
