-- ===== src/Mq/Forge/Index.antt =====
-- pkg/mq/forge/index.go: the sparse index of a segment, and its file as a list of bytes. Offsets and
-- positions are below 2^64; the file's own errors, but for a failed write, are left out.
pub mod Nearest
pub mod File
mod Tests
use go_common.Common.{
  ℕ, zero, suc, ◌+◌, ◌-◌, ◌*◌, ◌/◌, ◌%◌, ◌^◌, Bool, true, false, Option, none, some, List, [], ◌∷◌,
  ◌++◌, ltb, leb, ◌==◌, if◌then◌else◌, length, take, drop,
}
use go_common.Mq.Forge.Batch.{put_be, get_be}

abbrev pub index_entry_size : ℕ
index_entry_size = 12

pub record IndexEntry : Type 0 where
  pub relative_offset : ℕ
  pub position : ℕ

-- `cursor` is where the file is written next: 0 after it is opened, since `ReadAt` does not move it.
pub record Index : Type 0 where
  pub file : List ℕ
  pub cursor : ℕ
  pub entries : List IndexEntry
  pub base_offset : ℕ
  pub dirty_from : ℕ

-- `uint32(offset - idx.baseOffset)`, where the difference is a `uint64`.
unfoldable pub relative : ℕ → ℕ → ℕ
relative base offset = (offset + 2 ^ 64 - base) % 2 ^ 64 % 2 ^ 32

unfoldable pub append : Index → ℕ → ℕ → Index
append idx offset position = record idx {
  entries =
      idx.entries
      ++ (record { relative_offset = relative idx.base_offset offset; position = position } ∷ []);
}

-- `e = idx.entries[i-1]` for the `i` that `sort.Search` finds: the last entry before the first whose
-- offset is greater, where the entries' offsets ascend; `none` is `i == 0`.
unfoldable pub before_greater : ℕ → Option IndexEntry → List IndexEntry → Option IndexEntry
before_greater rel last [] = last
before_greater rel last (e ∷ es) =
    let later = before_greater rel (some e) es in if ltb rel e.relative_offset then last else later

abbrev pub found : ℕ → Option IndexEntry → ℕ × ℕ
found base none = (0, base)
found base (some e) = (e.position, base + e.relative_offset)

-- The position and the offset that is found.
unfoldable pub lookup : Index → ℕ → ℕ × ℕ
lookup idx target_offset =
    if ltb target_offset idx.base_offset
    then (0, idx.base_offset)
    else found idx.base_offset
        (before_greater (relative idx.base_offset target_offset) none idx.entries)

unfoldable pub last_of : List IndexEntry → Option IndexEntry
last_of [] = none
last_of (e ∷ []) = some e
last_of (e ∷ e' ∷ es) = last_of (e' ∷ es)

abbrev pub at_base : ℕ → Option IndexEntry → Option (ℕ × ℕ)
at_base base none = none
at_base base (some e) = some (base + e.relative_offset, e.position)

-- The offset and the position of the last entry.
unfoldable pub last_entry : Index → Option (ℕ × ℕ)
last_entry idx = at_base idx.base_offset (last_of idx.entries)

unfoldable pub entry_bytes : List IndexEntry → List ℕ
entry_bytes [] = []
entry_bytes (e ∷ es) = put_be 4 e.relative_offset ++ (put_be 8 e.position ++ entry_bytes es)

-- A write at the cursor, over what is there.
unfoldable pub write_at : List ℕ → ℕ → List ℕ → List ℕ
write_at file cursor bs = take cursor file ++ (bs ++ drop (cursor + length bs) file)

-- `Sync`, and whether it answers no error: `failed` is the number of bytes of a write that fails, if
-- it does, after which the file is cut back.
unfoldable pub sync : Index → Option ℕ → Index × Bool
sync idx failed =
    let buf = entry_bytes (drop idx.dirty_from idx.entries) in
    if length (drop idx.dirty_from idx.entries) == 0 then (idx, true) else elim failed [
      | none ↦ (
        record idx {
          file = write_at idx.file idx.cursor buf;
          cursor = idx.cursor + length buf;
          dirty_from = length idx.entries;
        },
        true,
      )
      | some n ↦ (
        record idx {
          file =
              take (idx.dirty_from * index_entry_size) (write_at idx.file idx.cursor (take n buf));
          cursor = idx.dirty_from * index_entry_size;
        },
        false,
      )
    ]

-- `loadEntries` of `k` entries.
unfoldable pub load_entries : ℕ → List ℕ → List IndexEntry
load_entries zero buf = []
load_entries (suc k) buf =
    record { relative_offset = get_be 4 0 buf; position = get_be 8 4 buf }
    ∷ load_entries k (drop 12 buf)

unfoldable pub open_index : List ℕ → ℕ → Index
open_index file base =
    let entries = load_entries (length file / index_entry_size) file in
    record {
      file = file;
      cursor = 0;
      entries = entries;
      base_offset = base;
      dirty_from = length entries;
    }
