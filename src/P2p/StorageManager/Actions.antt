-- ===== src/P2p/StorageManager/Actions.antt =====
-- The methods of `StorageManager` as actions on the manager and the disk: what was changed before an
-- error or a panic stays changed.
use libre_drive.Prelude.{ℕ, Bool, if◌then◌else◌}
use libre_drive.Prelude.Result.{Result, ok, err, panic}
use libre_drive.Prelude.Dict.{Dict}
use libre_drive.P2p.{P2pError}
use libre_drive.P2p.Disk.{Disk, Io}
use libre_drive.P2p.StorageManager.Fragment.{StoredFragment}

-- The storage path and the identity are only stored.
pub record StorageManager : Type 0 where
  pub max_storage_bytes : ℕ
  pub used_storage_bytes : ℕ
  pub fragment_index : Dict StoredFragment

pub record Node : Type 0 where
  pub manager : StorageManager
  pub open manager use *
  pub disk : Disk

abbrev pub Action : Type 0 → Type 0
Action A = Node → Result P2pError A × Node

abbrev pub continue : {A B : Type 0} → Result P2pError A → (A → Action B) → Action B
continue (ok a) f s = f a s
continue (err e) f s = (err e, s)
continue panic f s = (panic, s)

unfoldable pub pure : {A : Type 0} → A → Action A
pure a s = (ok a, s)

unfoldable pub lift : {A : Type 0} → Result P2pError A → Action A
lift r s = (r, s)

-- A call of the file system leaves the manager alone.
unfoldable pub on_disk : {A : Type 0} → Io A → Action A
on_disk io s = let (r, d) = io s.disk in (r, record s { disk = d })

unfoldable pub get : Action Node
get s = (ok s, s)

-- An assignment to fields of the manager.
unfoldable pub modify : (StorageManager → StorageManager) → Action (Unit {0})
modify f s = (ok tt, record s { manager = f s.manager })

-- if b { m } else { n }
unfoldable pub branch : {A : Type 0} → Bool → Action A → Action A → Action A
branch b m n = if b then m else n

infixl 5 ◌>>=◌ ◌>>◌
-- To unfold this is to unfold the actions above.
unfoldable pub ◌>>=◌ : {A B : Type 0} → Action A → (A → Action B) → Action B
unfolding pure lift on_disk get modify branch
◌>>=◌ m f s = let (r, s') = m s in continue r f s'

abbrev pub ◌>>◌ : {A B : Type 0} → Action A → Action B → Action B
m >> n = m >>= λ _. n

abbrev pub skip : Action (Unit {0})
skip = pure tt
