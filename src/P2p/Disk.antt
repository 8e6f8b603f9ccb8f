-- ===== src/P2p/Disk.antt =====
-- The files, as tokio::fs shows them to storage_protocol.rs. `path` is here the name of the file that a
-- path leads to (`Crates.file_of`). Directories are not modelled beyond the outcome of creating them.
use libre_drive.Prelude.{Bool, true, false, Option, none, some, List, [], ◌∷◌, ◌++◌}
use libre_drive.Prelude.Result.{Result, ok, err}
use libre_drive.Prelude.Text.{Bytes, Str, text}
use libre_drive.Prelude.Dict.{Dict, lookup, insert, remove}
use libre_drive.P2p.{P2pError, protocol}

-- What becomes of one call of the file system: it works, it fails with a message, or (a write) it
-- fails with a message and leaves these bytes in the file, or it lies: a read gives these bytes, a write
-- leaves them in the file, and both report success (as does any other call, which then does nothing). A
-- call that fails because of a directory in the file's place, or a file in a directory's, is one that
-- fails.
pub data Fault : Type 0 where
  works : Fault
  fails : Str → Fault
  tears : Str → Bytes → Fault
  lies : Bytes → Fault

-- `faults` is the script of the calls to come; when it is used up, every call works.
pub record Disk : Type 0 where
  pub files : Dict Bytes
  pub faults : List Fault

-- An operation on the disk, with what it leaves behind also beside an error.
abbrev pub Io : Type 0 → Type 0
Io A = Disk → Result P2pError A × Disk

abbrev pub next_fault : List Fault → Fault
next_fault [] = works
next_fault (f ∷ fs) = f

abbrev pub later_faults : List Fault → List Fault
later_faults [] = []
later_faults (f ∷ fs) = fs

abbrev pub failure {ℓ} : {A : Type ℓ} → Str → Str → Result P2pError A
failure context message = err (protocol (context ++ text ": " ++ message))

-- `create_dir_all(..).await.map_err(..)`
unfoldable pub create_dir_all : Str → Io (Unit {0})
create_dir_all context d =
    let d' = record d { faults = later_faults d.faults } in
    elim (next_fault d.faults) [
      | works ↦ (ok tt, d')
      | fails message ↦ (failure context message, d')
      | tears message xs ↦ (failure context message, d')
      | lies xs ↦ (ok tt, d')
    ]

-- `tokio::fs::write(path, xs).await.map_err(..)`
unfoldable pub write : Str → Str → Bytes → Io (Unit {0})
write context path xs d =
    let d' = record d { faults = later_faults d.faults } in
    elim (next_fault d.faults) [
      | works ↦ (ok tt, record d' { files = insert path xs d.files })
      | fails message ↦ (failure context message, d')
      | tears message ys ↦ (failure context message, record d' { files = insert path ys d.files })
      | lies ys ↦ (ok tt, record d' { files = insert path ys d.files })
    ]

abbrev pub no_such_file : Str
no_such_file = text "No such file or directory (os error 2)"

-- A read of what is there.
abbrev pub found_file : Str → Option Bytes → Result P2pError Bytes
found_file context none = failure context no_such_file
found_file context (some xs) = ok xs

-- `tokio::fs::read(path).await.map_err(..)`
unfoldable pub read : Str → Str → Io Bytes
read context path d =
    let d' = record d { faults = later_faults d.faults } in
    elim (next_fault d.faults) [
      | works ↦ (found_file context (lookup path d.files), d')
      | fails message ↦ (failure context message, d')
      | tears message xs ↦ (failure context message, d')
      | lies xs ↦ (ok xs, d')
    ]

-- `path.exists()`
unfoldable pub exists : Str → Disk → Bool
exists path d = elim (lookup path d.files) [ none ↦ false | some xs ↦ true ]

-- `tokio::fs::remove_file(path).await.map_err(..)`
unfoldable pub remove_file : Str → Str → Io (Unit {0})
remove_file context path d =
    let d' = record d { faults = later_faults d.faults } in
    elim (next_fault d.faults) [
      | works ↦ (ok tt, record d' { files = remove path d.files })
      | fails message ↦ (failure context message, d')
      | tears message xs ↦ (failure context message, d')
      | lies xs ↦ (ok tt, d')
    ]
