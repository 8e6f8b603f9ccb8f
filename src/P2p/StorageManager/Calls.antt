-- ===== src/P2p/StorageManager/Calls.antt =====
-- storage_protocol.rs: histories of calls that change a `StorageManager`.
use libre_drive.Prelude.{ℕ, ◌<◌, ◌≡◌, true, List, [], ◌∷◌, length}
use libre_drive.Prelude.Text.{Bytes, Str}
use libre_drive.Prelude.Int.{ℤ, i64_half}
use libre_drive.P2p.StorageManager.Fragment.{is_plain}
use libre_drive.P2p.StorageManager.Actions.{Node}
use libre_drive.P2p.StorageManager.{
  Crates, store_fragment, retrieve_fragment, delete_fragment, extend_fragment,
  extend_owner_fragments, cleanup_expired,
}

-- A call with its arguments, the time last. (`initialize` is not among these: a node calls it when it
-- starts.)
pub data Call : Type 0 where
  store : Str → Str → Bytes → ℤ → ℤ → Call
  retrieve : Str → ℤ → Call
  delete : Str → Call
  extend : Str → ℤ → Call
  extend_owner : Str → ℕ → ℤ → Call
  cleanup : ℤ → Call

-- The node after a call, whether it succeeded, failed or panicked.
unfoldable pub perform : Crates → Call → Node → Node
perform x (store id owner xs expires now) s = (store_fragment x id owner xs expires now s).1
perform x (retrieve id now) s = (retrieve_fragment x id now s).1
perform x (delete id) s = (delete_fragment x id s).1
perform x (extend id expires) s = (extend_fragment x id expires s).1
perform x (extend_owner owner n now) s = (extend_owner_fragments x owner n now s).1
perform x (cleanup now) s = (cleanup_expired x now s).1

unfoldable pub run : Crates → Node → List Call → Node
run x s [] = s
run x s (c ∷ cs) = run x (perform x c s) cs

-- A buffer in memory has fewer than 2^63 bytes.
abbrev pub InMemory : Call → Type 0
InMemory (store id owner xs expires now) = length xs < i64_half
InMemory _ = Unit

-- An id that is stored is a plain name.
abbrev pub IsPlainCall : Call → Type 0
IsPlainCall (store id owner xs expires now) = is_plain id ≡ true
IsPlainCall _ = Unit
