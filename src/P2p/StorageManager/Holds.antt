-- ===== src/P2p/StorageManager/Holds.antt =====
-- storage_protocol.rs: what holds of a manager step by step, whatever the disk does.
use libre_drive.Prelude.{◌≡◌, refl, Bool, true, false, some, Option, none}
use libre_drive.Prelude.Result.{Result, ok, err, panic, ok_or, guard}
use libre_drive.P2p.{P2pError}
use libre_drive.P2p.Disk.{Disk, Io}
use libre_drive.P2p.StorageManager.Actions.{
  StorageManager, Node, Action, continue, ◌>>=◌, pure, lift, on_disk, get, modify, branch,
}

-- What holds of the manager that a call leaves, also beside an error or a panic.
pub record Holds (P : StorageManager → Type 0) {A : Type 0} (r : Result P2pError A × Node)
    : Type 0 where
  pub holds : P r.1.manager

continue-Holds :
    {P : StorageManager → Type 0} {A B : Type 0} (r : Result P2pError A) (f : A → Action B)
    (s : Node)
    → P s.manager
    → ((a : A) → r ≡ ok a → Holds P (f a s))
    → Holds P (continue r f s)
continue-Holds (ok a) f s h k = k a refl
continue-Holds (err e) f s h k = record { holds = h }
continue-Holds panic f s h k = record { holds = h }

module _ {P : StorageManager → Type 0} {A B : Type 0} (f : A → Action B) (s : Node) where
  pub bind-Holds :
      (m : Action A)
      → Holds P (m s)
      → ((a : A) (t : Node) → P t.manager → Holds P (f a t))
      → Holds P ((m >>= f) s)
  unfolding ◌>>=◌
  bind-Holds m h k = continue-Holds (m s).0 f (m s).1 h.holds (λ a _. k a (m s).1 h.holds)

  pub lift-Holds :
      (r : Result P2pError A)
      → P s.manager
      → ((a : A) → r ≡ ok a → Holds P (f a s))
      → Holds P ((lift r >>= f) s)
  unfolding ◌>>=◌
  lift-Holds r h k = continue-Holds r f s h k

  pub on_disk-Holds :
      (io : Io A)
      → P s.manager
      → ((a : A) (d : Disk) → Holds P (f a (record s { disk = d })))
      → Holds P ((on_disk io >>= f) s)
  unfolding ◌>>=◌
  on_disk-Holds io h k =
      continue-Holds (io s.disk).0 f (record s { disk = (io s.disk).1 }) h
        (λ a _. k a (io s.disk).1)

module _ {P : StorageManager → Type 0} {B : Type 0} (s : Node) where
  pub get-Holds : (f : Node → Action B) → Holds P (f s s) → Holds P ((get >>= f) s)
  unfolding ◌>>=◌
  get-Holds f h = h

  pub modify-Holds :
      (g : StorageManager → StorageManager) (f : Unit → Action B)
      → Holds P (f tt (record s { manager = g s.manager }))
      → Holds P ((modify g >>= f) s)
  unfolding ◌>>=◌
  modify-Holds g f h = h

  pub pure-Holds : (b : B) → P s.manager → Holds P (pure b s)
  unfolding pure
  pure-Holds b h = record { holds = h }

  pub io-Holds : (io : Io B) → P s.manager → Holds P (on_disk io s)
  unfolding on_disk
  io-Holds io h = record { holds = h }

  pub result-Holds : (r : Result P2pError B) → P s.manager → Holds P (lift r s)
  unfolding lift
  result-Holds r h = record { holds = h }

  pub if-Holds :
      (b : Bool) (m n : Action B) → Holds P (m s) → Holds P (n s) → Holds P (branch b m n s)
  unfolding branch
  if-Holds true m n hm hn = hm
  if-Holds false m n hm hn = hn

pub assign-Holds :
    {P : StorageManager → Type 0} (s : Node) (g : StorageManager → StorageManager)
    → P (g s.manager)
    → Holds P (modify g s)
unfolding modify
assign-Holds s g h = record { holds = h }

pub guard-ok : (b : Bool) (e : P2pError) → guard b e ≡ ok tt → b ≡ true
guard-ok true e h = refl
guard-ok false e h = cc

pub ok_or-some : {A : Type 0} (o : Option A) (e : P2pError) (a : A) → ok_or o e ≡ ok a → o ≡ some a
ok_or-some none e a h = cc
ok_or-some (some b) e a h = cc
