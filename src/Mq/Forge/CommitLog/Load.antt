-- ===== src/Mq/Forge/CommitLog/Load.antt =====
-- `NewCommitLog` of a directory with segments, after a crash or not.
use mathlib.Core.List.{append_assoc, append-nil}
use go_common.Common.{
  ℕ, suc, ◌+◌, ◌^◌, ◌<◌, ◌≡◌, refl, sym, ap, subst, ◌∙◌, false, none, some, List, [], ◌∷◌, ◌++◌,
  arith, length,
}
use go_common.Common.Int.{ℤ}
use go_common.Mq.Forge.Batch.{Codec}
use go_common.Mq.Forge.Index.{Index}
use go_common.Mq.Forge.Segment.{Segment}
use go_common.Mq.Forge.Segment.Stored.{Stored, AllHold, log_bytes, Contiguous}
use go_common.Mq.Forge.Segment.Cuts.{Tail, AllSmall}
use go_common.Mq.Forge.Segment.Valid.{AllMark, IsSegment}
use go_common.Mq.Forge.Segment.Recover.{open_segment-IsSegment}
use go_common.Mq.Forge.CommitLog.{
  CommitLog, done, World, reply, opened, sort, load_segments, as_log, loaded, new_commit_log,
}
use go_common.Mq.Forge.CommitLog.Chain.{
  Chain, chain_end, chain_next, IsLog, flatten, seal-IsSegment, seal-base_offset, seal-next_offset,
}

-- The files of one base offset: a log of whole batches with what a crash left of one more, and an
-- index that points into it.
pub record SegmentFile (c : Codec) (w : World) (base : ℕ) (es : List Stored) (o' : ℕ) : Type 0 where
  pub log : List ℕ
  pub tail : List ℕ
  pub index : Index
  pub time : ℤ
  pub found : w.disk base ≡ some (log, index, time)
  pub bytes : log ≡ log_bytes es ++ tail
  pub hold : AllHold c es
  pub small : AllSmall es
  pub is_tail : Tail c tail
  pub contiguous : Contiguous base es o'
  pub marks : AllMark base es index.entries
  pub index_base : index.base_offset ≡ base
  pub few : o' < base + 2 ^ 32
  pub in_range : o' < 2 ^ 64

-- Files whose offsets follow each other.
pub data Files (c : Codec) (w : World) : ℕ → List ℕ → List (List Stored) → ℕ → Type 0 where
  no_file : {o : ℕ} → Files c w o [] [] o
  next_file :
      {base m o' : ℕ} {bases : List ℕ} {es : List Stored} {ess : List (List Stored)}
      → SegmentFile c w base es m
      → Files c w m bases ess o'
      → Files c w base (base ∷ bases) (es ∷ ess) o'

AllUnmapped : List Segment → Type 0
AllUnmapped [] = Unit {0}
AllUnmapped (s ∷ ss) = (s.mmap ≡ none) × AllUnmapped ss

opened-IsSegment :
    (c : Codec) (w : World) (base m : ℕ) (es : List Stored)
    → SegmentFile c w base es m
    → (s : Segment) × (opened c w.now base (w.disk base) ≡ done s)
      × IsSegment c s es
      × (s.next_offset ≡ m)
      × (s.base_offset ≡ base)
      × (s.mmap ≡ none)
opened-IsSegment c w base m es f =
    let r =
      open_segment-IsSegment c (suc (length f.log)) f.log f.tail f.index base m f.time w.now es
        f.bytes f.hold f.small f.is_tail f.contiguous f.marks f.index_base f.few f.in_range
        (omega arith) in
    (r.0, rw (f.found) (ap reply r.1), r.2, r.3, r.5, r.6)

load_segments-Chain :
    (c : Codec) (w : World) (o o' : ℕ) (bases : List ℕ) (ess : List (List Stored))
    → Files c w o bases ess o'
    → (ss : List Segment) × (load_segments c w bases ≡ done ss)
      × Chain c o ss ess o'
      × AllUnmapped ss
unfolding load_segments AllUnmapped
load_segments-Chain c w o o' [] [] no_file = ([], refl, chain_end, tt)
load_segments-Chain c w o o' [] (es ∷ ess) x = elim x [ ]
load_segments-Chain c w o o' (base ∷ bases) [] x = elim x [ ]
load_segments-Chain c w o o' (base ∷ bases) (es ∷ ess) (next_file {m = m} f fs) =
    let s = opened-IsSegment c w base m es f in
    let r = load_segments-Chain c w m o' bases ess fs in
    (
      s.0 ∷ r.0,
      rw (s.1) (rw (r.1) refl),
      chain_next s.4 s.2 (subst (λ x. Chain c x r.0 ess o') (sym s.3) r.2),
      (s.5, r.3),
    )

-- A log of these batches that ends at `o'`.
record Held (c : Codec) (all : List Stored) (o o' : ℕ) (cl : CommitLog) : Type 0 where
  ess : List (List Stored)
  es : List Stored
  valid : IsLog c cl ess es
  split : flatten ess ++ es ≡ all
  first : valid.oldest ≡ o
  next : cl.next_offset ≡ o'
  open_log : cl.closed ≡ false

as_log-Held :
    (c : Codec) (w : World) (s : Segment) (es : List Stored) (ss : List Segment)
    (ess : List (List Stored)) (o' : ℕ)
    → IsSegment c s es
    → s.mmap ≡ none
    → Chain c s.next_offset ss ess o'
    → AllUnmapped ss
    → Held c (es ++ flatten ess) s.base_offset o' (as_log w s ss)
unfolding AllUnmapped
as_log-Held c w s es [] [] o' h n chain_end u = record {
  ess = [];
  es = es;
  valid = record {
    oldest = s.base_offset;
    older = chain_end;
    active = h;
    next = refl;
    unsealed = n;
  };
  split = sym (append-nil es);
  first = refl;
  next = refl;
  open_log = refl;
}
as_log-Held c w s es [] (fs ∷ ess) o' h n x u = elim x [ ]
as_log-Held c w s es (s' ∷ ss) [] o' h n x u = elim x [ ]
as_log-Held c w s es (s' ∷ ss) (fs ∷ ess) o' h n (chain_next b h' k) u =
    let r = as_log-Held c w s' fs ss ess o' h' u.0 k u.1 in
    let rest = as_log w s' ss in
    let from = r.first ∙ b ∙ sym (seal-next_offset s w.mapped) in
    record {
      ess = es ∷ r.ess;
      es = r.es;
      valid = record {
        oldest = s.base_offset;
        older =
            chain_next (seal-base_offset s w.mapped) (seal-IsSegment c s es w.mapped h)
              (subst (λ x. Chain c x rest.older r.ess rest.active.base_offset) from r.valid.older);
        active = r.valid.active;
        next = r.valid.next;
        unsealed = r.valid.unsealed;
      };
      split = append_assoc es (flatten r.ess) r.es ∙ ap (λ x. es ++ x) r.split;
      first = refl;
      next = r.next;
      open_log = r.open_log;
    }

no_batches_listed :
    (c : Codec) (w : World) (o base o' : ℕ) (bases : List ℕ) → ¬ Files c w o (base ∷ bases) [] o'
no_batches_listed c w o base o' bases x = elim x [ ]

-- Opening a directory with one file at least, in whatever order the files are listed. In the order of
-- their base offsets they follow each other without a gap, and each holds valid batches of contiguous
-- offsets and then at most what a crash left of one more; every batch is smaller than a chunk of 256 KB;
-- the entries of each index point at batches of its file; and the offset behind a file is below its
-- base offset plus 2^32, and below 2^64. Then opening succeeds, and the log is open and valid, holds
-- all their whole batches, and goes on at the offset behind the last one.
pub new_commit_log-IsLog :
    (c : Codec) (w : World) (listed : List ℕ) (base : ℕ) (bases : List ℕ) (ess : List (List Stored))
    (o' : ℕ)
    → sort listed ≡ base ∷ bases
    → Files c w base (base ∷ bases) ess o'
    → (cl : CommitLog) × (ess' : List (List Stored)) × (es' : List Stored) × (new_commit_log c w
          listed
        ≡ done cl)
      × IsLog c cl ess' es'
      × (flatten ess' ++ es' ≡ flatten ess)
      × (cl.next_offset ≡ o')
      × (cl.closed ≡ false)
unfolding new_commit_log AllUnmapped
new_commit_log-IsLog c w listed base bases [] o' sorted x =
    absurd (no_batches_listed c w base base o' bases x)
new_commit_log-IsLog c w listed base bases (es ∷ ess) o' sorted files =
    let r = load_segments-Chain c w base o' (base ∷ bases) (es ∷ ess) files in
    let run : new_commit_log c w listed ≡ loaded c w (done r.0) =
      ap (λ b. loaded c w (load_segments c w b)) sorted ∙ ap (loaded c w) r.1 in
    go r.0 r.2 r.3 run
  where
    go :
        (ss : List Segment)
        → Chain c base ss (es ∷ ess) o'
        → AllUnmapped ss
        → new_commit_log c w listed ≡ loaded c w (done ss)
        → (cl : CommitLog) × (ess' : List (List Stored)) × (es' : List Stored) × (new_commit_log c w
              listed
            ≡ done cl)
          × IsLog c cl ess' es'
          × (flatten ess' ++ es' ≡ es ++ flatten ess)
          × (cl.next_offset ≡ o')
          × (cl.closed ≡ false)
    go [] x u run = elim x [ ]
    go (s ∷ ss) (chain_next b h k) u run =
        let held = as_log-Held c w s es ss ess o' h u.0 k u.1 in
        (as_log w s ss, held.ess, held.es, run, held.valid, held.split, held.next, held.open_log)
