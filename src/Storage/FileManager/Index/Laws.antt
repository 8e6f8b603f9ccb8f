-- ===== src/Storage/FileManager/Index/Laws.antt =====
-- file_manager.rs: what the operations on the index do to what it holds.
use libre_drive.Prelude.{
  ◌+◌, ◌<◌, ◌≡◌, refl, Option, none, some, [], ◌∷◌, arith, if◌then◌else◌, length,
}
use libre_drive.Prelude.Result.{Result, ok}
use libre_drive.Prelude.Text.{Str, str_eq, str_eq_iff}
use libre_drive.Prelude.Word.{u64_mod}
use libre_drive.Prelude.Dict.{
  Dict, lookup, insert, total, weight, IsMap, lookup-insert, lookup-remove, total-insert,
  total-remove,
}
use libre_drive.Storage.FileManager.{FileManager, FileMetadata}
use libre_drive.Storage.FileManager.Index.{
  add_to_index, get_metadata, remove_from_index, total_storage_used, extend, import_index,
}

-- After adding a file, its id gives the new metadata and every other id what it gave before. After
-- removing an id (which returns what the id gave), it gives nothing and every other id what it gave
-- before.
pub get_metadata-add-remove :
    (m : FileManager) (f : FileMetadata) (k j : Str)
    → (get_metadata (add_to_index m f) j
        ≡ (if str_eq f.file_id j then some f else get_metadata m j))
      × (get_metadata (remove_from_index m k).0 j ≡ (if str_eq k j then none else get_metadata m j))
      × ((remove_from_index m k).1 ≡ get_metadata m k)
unfolding get_metadata add_to_index remove_from_index
get_metadata-add-remove m f k j =
    (lookup-insert f.file_id j f m.file_index, lookup-remove k j m.file_index, refl)

-- Where the index has no duplicate id and the sizes in it and the new file's stay below 2^64
-- together: replacing or adding a file changes the storage used by the difference of the sizes, and
-- removing one frees its size.
pub total_storage_used-add-remove :
    (m : FileManager) (f : FileMetadata) (k : Str)
    → IsMap m.file_index
    → total (λ g. g.size) m.file_index + f.size < u64_mod
    → (total_storage_used (add_to_index m f) + weight (λ g. g.size) (get_metadata m f.file_id)
        ≡ total_storage_used m + f.size)
      × (total_storage_used (remove_from_index m k).0 + weight (λ g. g.size) (get_metadata m k)
          ≡ total_storage_used m)
unfolding total_storage_used add_to_index remove_from_index get_metadata
total_storage_used-add-remove m f k unique fits =
    let a = total-insert (λ (g : FileMetadata). g.size) f.file_id f m.file_index in
    let r = total-remove (λ (g : FileMetadata). g.size) k m.file_index unique in
    (omega arith, omega arith)

abbrev pub or_else : Option FileMetadata → Option FileMetadata → Option FileMetadata
or_else none o = o
or_else (some f) o = some f

lookup-extend :
    (j : Str) (index more : Dict FileMetadata)
    → IsMap more
    → lookup j (extend index more) ≡ or_else (lookup j more) (lookup j index)
unfolding extend lookup
lookup-extend j index [] u = refl
lookup-extend j index ((k, v) ∷ more) u =
    ground (
      arith,
      str_eq_iff k j,
      lookup-insert k j v index,
      lookup-extend j (insert k v index) more u.1,
    )

-- Importing text that reads as an index without duplicate ids: the result counts the imported files,
-- and afterwards an id gives what the imported index has for it, or else what it gave before.
pub get_metadata-import_index :
    (from_json : Str → Result Str (Dict FileMetadata)) (m : FileManager) (json : Str)
    (index : Dict FileMetadata)
    → from_json json ≡ ok index
    → IsMap index
    → ((import_index from_json m json).1 ≡ ok (length index))
      × ((j : Str)
          → get_metadata (import_index from_json m json).0 j
            ≡ or_else (lookup j index) (get_metadata m j))
unfolding import_index get_metadata
get_metadata-import_index from_json m json index read unique = (
  rw (read, import_index),
  λ j. rw (read, import_index) (lookup-extend j m.file_index index unique),
)
