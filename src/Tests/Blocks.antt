-- ===== src/Tests/Blocks.antt =====
-- A block of three bytes with one write in it, and a block that is cut after a write.
use h_flat.Base.{
  ℕ, ◌≡◌, refl, max, [], ◌∷◌, Str, if◌then◌else◌, length, ok, fault, out_of_range, arith,
}
use h_flat.Data.Block.{DataInfo, update_data, truncate, merge_data_changes}
use h_flat.Data.Update.{byte}
use h_flat.Data.Merge.{covered, merge_data_changes_lem, merge_data_changes_cut}

abbrev block_of : Str → DataInfo
block_of d = record { key = []; key_version = []; d = d; updates = [] }

abbrev theirs : Str
theirs = 7 ∷ 8 ∷ 9 ∷ 4 ∷ []

abbrev mine : DataInfo
mine = record (block_of (1 ∷ 2 ∷ 3 ∷ [])) { updates = (1, 2) ∷ [] }

merge_data_changes_lem_example :
    (s : Str) × (merge_data_changes theirs mine ≡ ok (record mine { d = s }))
    × (length s ≡ max (length theirs) (length mine.d))
    × ((i : ℕ) → byte s i ≡ (if covered mine.updates i then byte mine.d i else byte theirs i))
merge_data_changes_lem_example =
    merge_data_changes_lem theirs mine ((omega arith, omega arith), tt) (omega arith) (omega arith)

merged : merge_data_changes theirs mine ≡ ok (record mine { d = 7 ∷ 2 ∷ 3 ∷ 4 ∷ [] })
unfolding merge_data_changes
merged = refl

abbrev two_bytes : Str
two_bytes = 5 ∷ 6 ∷ []

abbrev after_write : DataInfo
after_write = record mine { d = 1 ∷ 2 ∷ 3 ∷ 0 ∷ 5 ∷ 6 ∷ []; updates = (1, 2) ∷ (4, 2) ∷ [] }

wrote : update_data two_bytes 4 2 mine ≡ ok (0, after_write)
unfolding update_data
wrote = refl

abbrev start : DataInfo
start = block_of (1 ∷ 2 ∷ 3 ∷ [])

abbrev start_written : DataInfo
start_written = record (block_of (1 ∷ 2 ∷ 3 ∷ 5 ∷ 6 ∷ [])) { updates = (3, 2) ∷ [] }

abbrev start_cut : DataInfo
start_cut = record (block_of (1 ∷ 2 ∷ [])) { updates = (3, 2) ∷ (2, 0) ∷ [] }

start_writes : update_data two_bytes 3 2 start ≡ ok (0, start_written)
unfolding update_data
start_writes = refl

start_cuts : truncate 2 start_written ≡ ok start_cut
unfolding truncate
start_cuts = refl

merge_data_changes_cut_example : merge_data_changes theirs start_cut ≡ fault out_of_range
merge_data_changes_cut_example =
    merge_data_changes_cut theirs two_bytes 3 2 2 start start_written start_cut refl start_writes
      start_cuts (omega arith) (omega arith) (omega arith) (omega arith)
