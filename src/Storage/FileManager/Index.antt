-- ===== src/Storage/FileManager/Index.antt =====
-- file_manager.rs: the local index of files.
use libre_drive.Prelude.{
  ℕ, ◌%◌, Bool, true, false, ◌&&◌, ◌||◌, Option, none, some, List, [], ◌∷◌, ◌==◌, length, filter,
}
use libre_drive.Prelude.Result.{Result, ok, err, panic, map_err}
use libre_drive.Prelude.Text.{Str, str_eq}
use libre_drive.Prelude.Word.{u64_mod}
use libre_drive.Prelude.Dict.{Dict, lookup, insert, remove, values, total}
use libre_drive.Storage.{StorageError, serialization}
use libre_drive.Storage.FileManager.{FileManager, FileMetadata}
pub mod Laws

-- `add_to_index`
unfoldable pub add_to_index : FileManager → FileMetadata → FileManager
add_to_index m metadata = record m { file_index = insert metadata.file_id metadata m.file_index }

-- `get_metadata`
unfoldable pub get_metadata : FileManager → Str → Option FileMetadata
get_metadata m file_id = lookup file_id m.file_index

-- `list_files`
unfoldable pub list_files : FileManager → List FileMetadata
list_files m = values m.file_index

-- f.folder_id.as_deref() == folder_id
unfoldable pub same_folder : Option Str → Option Str → Bool
same_folder none none = true
same_folder none (some b) = false
same_folder (some a) none = false
same_folder (some a) (some b) = str_eq a b

-- `list_folder`
unfoldable pub list_folder : FileManager → Option Str → List FileMetadata
list_folder m folder_id = filter (λ f. same_folder f.folder_id folder_id) (values m.file_index)

unfoldable pub is_prefix : Str → Str → Bool
is_prefix [] s = true
is_prefix (x ∷ xs) [] = false
is_prefix (x ∷ xs) (y ∷ ys) = x == y && is_prefix xs ys

-- s.contains(query)
unfoldable pub contains : Str → Str → Bool
unfolding is_prefix
contains [] query = is_prefix query []
contains (y ∷ ys) query = is_prefix query (y ∷ ys) || contains ys query

-- tags.iter().any(|t| t.to_lowercase().contains(&query_lower))
unfoldable pub any_contains : (Str → Str) → List Str → Str → Bool
any_contains to_lowercase [] query = false
any_contains to_lowercase (t ∷ tags) query =
    contains (to_lowercase t) query || any_contains to_lowercase tags query

-- The test of `search` on one file. Unicode's `to_lowercase` is an argument.
unfoldable pub matches : (Str → Str) → Str → FileMetadata → Bool
matches to_lowercase query f =
    contains (to_lowercase f.filename) (to_lowercase query)
    || any_contains to_lowercase f.tags (to_lowercase query)

-- `search`
unfoldable pub search_files : (Str → Str) → FileManager → Str → List FileMetadata
search_files to_lowercase m query = filter (matches to_lowercase query) (values m.file_index)

-- `remove_from_index`
unfoldable pub remove_from_index : FileManager → Str → FileManager × Option FileMetadata
remove_from_index m file_id =
    (record m { file_index = remove file_id m.file_index }, lookup file_id m.file_index)

-- `total_storage_used`; the sum of `u64` wraps.
unfoldable pub total_storage_used : FileManager → ℕ
total_storage_used m = total (λ f. f.size) m.file_index % u64_mod

-- `file_count`
unfoldable pub file_count : FileManager → ℕ
file_count m = length m.file_index

-- self.file_index.extend(index)
unfoldable pub extend : Dict FileMetadata → Dict FileMetadata → Dict FileMetadata
extend index [] = index
extend index ((k, v) ∷ more) = extend (insert k v index) more

-- `export_index`, with the crate serde_json as an argument.
unfoldable pub export_index :
    (Dict FileMetadata → Result Str Str) → FileManager → Result StorageError Str
export_index to_json m = map_err serialization (to_json m.file_index)

-- `import_index`, with the crate serde_json as an argument. On an error nothing changes.
unfoldable pub import_index :
    (Str → Result Str (Dict FileMetadata)) → FileManager → Str → FileManager × Result StorageError ℕ
import_index from_json m json = elim (from_json json) [
  | ok index ↦ (record m { file_index = extend m.file_index index }, ok (length index))
  | err e ↦ (m, err (serialization e))
  | panic ↦ (m, panic)
]
