-- ===== src/Mq/Forge/Index/Tests.antt =====
-- Runs of an index, and its theorems at one of two entries.
use go_common.Common.{◌≡◌, refl, true, none, some, List, [], ◌∷◌, ◌++◌, drop, arith}
use go_common.Mq.Forge.Index.{
  IndexEntry, Index, relative, append, before_greater, lookup, entry_bytes, sync, open_index,
}
use go_common.Mq.Forge.Index.Nearest.{no_entry, next_entry, nearest, lookup-nearest}
use go_common.Mq.Forge.Index.File.{
  IsOnFile, EntriesFit, no_entries, more_entries, sync-IsOnFile, open_index-sync, sync-overwrites,
}

abbrev opened : Index
opened = record { file = []; cursor = 0; entries = []; base_offset = 100; dirty_from = 0 }

abbrev two_entries : List IndexEntry
two_entries =
    record { relative_offset = 0; position = 0 }
    ∷ record { relative_offset = 8; position = 4096 }
    ∷ []

abbrev dirty : Index
dirty = record opened { entries = two_entries }

appended : append (append opened 100 0) 108 4096 ≡ dirty
unfolding append relative
appended = refl

found_between : lookup dirty 107 ≡ (0, 100)
unfolding lookup before_greater relative
found_between = refl

lookup-nearest_example : lookup dirty 112 ≡ nearest 100 112 (0, 100) two_entries
lookup-nearest_example =
    lookup-nearest dirty 112 (next_entry (omega arith) (next_entry (omega arith) no_entry))
      (omega arith) (omega arith)

dirty-IsOnFile : IsOnFile dirty
unfolding entry_bytes
dirty-IsOnFile = record { file = refl; cursor = refl; within = omega arith }

dirty-EntriesFit : EntriesFit dirty.entries
dirty-EntriesFit =
    more_entries (omega arith) (omega arith) (more_entries (omega arith) (omega arith) no_entries)

dirty_synced : (sync dirty none).1 ≡ true
unfolding sync
dirty_synced = refl

sync-IsOnFile_example :
    IsOnFile (sync dirty (some 5)).0
    × ((sync dirty (some 5)).0.entries ≡ dirty.entries)
    × ((sync dirty (some 5)).1 ≡ true → (sync dirty (some 5)).0.file ≡ entry_bytes dirty.entries)
sync-IsOnFile_example = sync-IsOnFile dirty (some 5) dirty-IsOnFile

open_index-sync_example :
    let idx' = open_index (sync dirty none).0.file 100 in
    (idx'.entries ≡ two_entries) × (idx'.dirty_from ≡ 2)
open_index-sync_example = open_index-sync dirty none dirty-IsOnFile dirty-EntriesFit dirty_synced

sync-overwrites_example :
    (sync (append (open_index (entry_bytes two_entries) 100) 120 8192) none).0.file
    ≡ entry_bytes (record { relative_offset = relative 100 120; position = 8192 } ∷ [])
      ++ drop 12 (entry_bytes two_entries)
sync-overwrites_example = sync-overwrites (entry_bytes two_entries) 100 120 8192
