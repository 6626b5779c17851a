-- ===== src/Mq/Forge/Index/File.antt =====
-- The index's file holds the entries that were synced, and is read back to them.
use go_common.Common.{
  ℕ, ◌*◌, ◌/◌, ◌^◌, ◌≤◌, ◌<◌, ◌≡◌, refl, sym, ap, ap₂, ◌∙◌, Bool, true, false, Option, none, some,
  List, [], ◌∷◌, ◌++◌, ◌==◌, arith, Bool-cases, inl, inr, length, take, drop, length-take,
  length-append, length-drop, take-append-drop, ◌+◌,
}
use mathlib.Core.List.{append-nil}
use go_common.Common.Slices.{take_all, drop_all}
use go_common.Mq.Forge.Varint.Fields.{take-append}
use go_common.Mq.Forge.Batch.{put_be, get_be}
use go_common.Mq.Forge.Batch.Bytes.{be_from-four, be_from-eight}
use go_common.Mq.Forge.Index.{
  IndexEntry, Index, entry_bytes, sync, write_at, load_entries, open_index, append, relative,
}

-- The file holds the entries up to `dirty_from`, and is written next at its end.
pub record IsOnFile (idx : Index) : Type 0 where
  pub file : idx.file ≡ entry_bytes (take idx.dirty_from idx.entries)
  pub cursor : idx.cursor ≡ length idx.file
  pub within : idx.dirty_from ≤ length idx.entries

-- Entries that fit the widths of the file.
pub data EntriesFit : List IndexEntry → Type 0 where
  no_entries : EntriesFit []
  more_entries :
      {e : IndexEntry} {es : List IndexEntry}
      → e.relative_offset < 2 ^ 32
      → e.position < 2 ^ 64
      → EntriesFit es
      → EntriesFit (e ∷ es)

length-entry_bytes : (es : List IndexEntry) → length (entry_bytes es) ≡ length es * 12
unfolding entry_bytes put_be
length-entry_bytes [] = refl
length-entry_bytes (e ∷ es) = omega (arith, length-entry_bytes es)

entry_bytes-append :
    (es fs : List IndexEntry) → entry_bytes (es ++ fs) ≡ entry_bytes es ++ entry_bytes fs
unfolding entry_bytes put_be
entry_bytes-append [] fs = refl
entry_bytes-append (e ∷ es) fs =
    ap (λ b. put_be 4 e.relative_offset ++ (put_be 8 e.position ++ b)) (entry_bytes-append es fs)

load_entries-entry_bytes :
    (es : List IndexEntry) → EntriesFit es → load_entries (length es) (entry_bytes es) ≡ es
unfolding load_entries entry_bytes put_be get_be
load_entries-entry_bytes [] no_entries = refl
load_entries-entry_bytes (e ∷ es) (more_entries r p fit) =
    ap₂ (◌∷◌)
      (ap₂ (λ a b. record { relative_offset = a; position = b }) (be_from-four e.relative_offset r)
        (be_from-eight e.position p))
      (load_entries-entry_bytes es fit)

flushed :
    (idx : Index)
    → IsOnFile idx
    → idx.file ++ entry_bytes (drop idx.dirty_from idx.entries) ≡ entry_bytes idx.entries
flushed idx h =
    let d = idx.dirty_from in
    let es = idx.entries in
    ap (λ f. f ++ entry_bytes (drop d es)) h.file
    ∙ sym (entry_bytes-append (take d es) (drop d es))
    ∙ ap entry_bytes (take-append-drop d es)

length-file : (idx : Index) → IsOnFile idx → length idx.file ≡ idx.dirty_from * 12
length-file idx h =
    ap length h.file
    ∙ length-entry_bytes (take idx.dirty_from idx.entries)
    ∙ omega (arith, length-take idx.dirty_from idx.entries, h.within)

cut_back :
    (idx : Index) (junk : List ℕ)
    → IsOnFile idx
    → take (idx.dirty_from * 12) (idx.file ++ junk) ≡ idx.file
cut_back idx junk h =
    ap (λ k. take k (idx.file ++ junk)) (sym (length-file idx h)) ∙ take-append idx.file junk

-- At its end, a file is only made longer.
write_at-end :
    (idx : Index) (bs : List ℕ) → IsOnFile idx → write_at idx.file idx.cursor bs ≡ idx.file ++ bs
unfolding write_at
write_at-end idx bs h =
    let file = idx.file in
    ap₂ (λ a b. a ++ (bs ++ b)) (take_all idx.cursor file (omega (arith, h.cursor)))
      (drop_all (idx.cursor + length bs) file (omega (arith, h.cursor)))
    ∙ ap (λ b. file ++ b) (append-nil bs)

-- What `sync` promises.
abbrev pub Kept : Index → Index × Bool → Type 0
Kept idx r =
    IsOnFile r.0 × (r.0.entries ≡ idx.entries) × (r.1 ≡ true → r.0.file ≡ entry_bytes idx.entries)

sync_clean :
    (idx : Index) (failed : Option ℕ)
    → IsOnFile idx
    → (length (drop idx.dirty_from idx.entries) == 0) ≡ true
    → Kept idx (sync idx failed)
unfolding sync
sync_clean idx failed h t =
    let short : length idx.entries ≤ idx.dirty_from =
      ground (arith, length-drop idx.dirty_from idx.entries) in
    rw t (h, refl, λ _. h.file ∙ ap entry_bytes (take_all idx.dirty_from idx.entries short))

sync_dirty :
    (idx : Index) (failed : Option ℕ)
    → IsOnFile idx
    → (length (drop idx.dirty_from idx.entries) == 0) ≡ false
    → Kept idx (sync idx failed)
unfolding sync
sync_dirty idx none h t =
    let buf = entry_bytes (drop idx.dirty_from idx.entries) in
    let es = idx.entries in
    let all = write_at-end idx buf h ∙ flushed idx h in
    let long = ap length (write_at-end idx buf h) ∙ length-append idx.file buf in
    rw t (
      record {
        file = all ∙ ap entry_bytes (sym (take_all (length es) es (omega arith)));
        cursor = omega (arith, long, h.cursor);
        within = omega arith;
      },
      refl,
      λ _. all,
    )
sync_dirty idx (some n) h t =
    let buf = take n (entry_bytes (drop idx.dirty_from idx.entries)) in
    let kept = ap (take (idx.dirty_from * 12)) (write_at-end idx buf h) ∙ cut_back idx buf h in
    rw t (
      record {
        file = kept ∙ h.file;
        cursor = sym (length-file idx h) ∙ ap length (sym kept);
        within = h.within;
      },
      refl,
      λ e. absurd (ground arith),
    )

-- `Sync` of an index whose file is exactly the entries before `dirty_from`, with the cursor at its end:
-- whichever entries are dirty, and whether the write fails or not, the index keeps its entries and its
-- file is again exactly those before its new `dirty_from`, with the cursor at the end; if there is no
-- error, the file is all of them.
pub sync-IsOnFile :
    (idx : Index) (failed : Option ℕ)
    → IsOnFile idx
    → IsOnFile (sync idx failed).0
      × ((sync idx failed).0.entries ≡ idx.entries)
      × ((sync idx failed).1 ≡ true → (sync idx failed).0.file ≡ entry_bytes idx.entries)
sync-IsOnFile idx failed h = elim (Bool-cases (length (drop idx.dirty_from idx.entries) == 0)) [
  | inl t ↦ sync_clean idx failed h t
  | inr t ↦ sync_dirty idx failed h t
]

-- An index has entries in the file's widths, and its file is exactly the entries before `dirty_from`,
-- with the cursor at its end. Opening the file that it has after a sync without error gives an index
-- with the same entries, all of them on file.
pub open_index-sync :
    (idx : Index) (failed : Option ℕ)
    → IsOnFile idx
    → EntriesFit idx.entries
    → (sync idx failed).1 ≡ true
    → let idx' = open_index (sync idx failed).0.file idx.base_offset in
      (idx'.entries ≡ idx.entries) × (idx'.dirty_from ≡ length idx.entries)
unfolding open_index
open_index-sync idx failed h fit done =
    let file = (sync-IsOnFile idx failed h).2 done in
    let es = idx.entries in
    let count : length (entry_bytes es) / 12 ≡ length es = omega (arith, length-entry_bytes es) in
    let same : load_entries (length (sync idx failed).0.file / 12) (sync idx failed).0.file ≡ es =
      ap (λ f. load_entries (length f / 12) f) file
      ∙ ap (λ k. load_entries k (entry_bytes es)) count
      ∙ load_entries-entry_bytes es fit in
    (same, ap length same)

drop_last : (es : List IndexEntry) (e : IndexEntry) → drop (length es) (es ++ (e ∷ [])) ≡ e ∷ []
drop_last [] e = refl
drop_last (e' ∷ es) e = drop_last es e

over :
    (file : List ℕ) (e : IndexEntry)
    → write_at file 0 (entry_bytes (e ∷ [])) ≡ entry_bytes (e ∷ []) ++ drop 12 file
unfolding write_at entry_bytes put_be
over file e = refl

-- An index opened from a file does not write at the file's end: the first entry that is appended and
-- synced, without error, goes over the first 12 bytes of the file.
pub sync-overwrites :
    (file : List ℕ) (base offset position : ℕ)
    → (sync (append (open_index file base) offset position) none).0.file
      ≡ entry_bytes (record { relative_offset = relative base offset; position = position } ∷ [])
        ++ drop 12 file
unfolding sync append open_index write_at
sync-overwrites file base offset position =
    let es = load_entries (length file / 12) file in
    let e : IndexEntry = record { relative_offset = relative base offset; position = position } in
    rw (drop_last es e) (over file e)
