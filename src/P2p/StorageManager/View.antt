-- ===== src/P2p/StorageManager/View.antt =====
-- storage_protocol.rs: what a `StorageManager` promises to its callers, without the disk, the paths, the
-- hashes and the order of the index: a map of ids to the data, its owner and its expiration time.
use libre_drive.Prelude.{
  Bool, true, false, not, Option, none, some, List, [], ◌∷◌, if◌then◌else◌, length,
}
use libre_drive.Prelude.Result.{Result, ok, err, panic}
use libre_drive.Prelude.Text.{Bytes, Str, text, str_eq}
use libre_drive.Prelude.Int.{ℤ, ltb_ℤ, add_i64}
use libre_drive.Prelude.Dict.{keep_if, map_option}
use libre_drive.P2p.{P2pError, protocol}
use libre_drive.P2p.StorageManager.Actions.{Node}
use libre_drive.P2p.StorageManager.Fragment.{first_two}
use libre_drive.P2p.StorageManager.Calls.{
  Call, store, retrieve, delete, extend, extend_owner, cleanup, perform,
}
use libre_drive.P2p.StorageManager.{
  Crates, store_fragment, retrieve_fragment, delete_fragment, extend_fragment,
  extend_owner_fragments, cleanup_expired, days, has_space,
}

pub record Entry : Type 0 where
  pub owner : Str
  pub contents : Bytes
  pub expires : ℤ

abbrev pub View : Type 0
View = Str → Option Entry

-- The view with one id changed.
abbrev pub update : Str → Option Entry → View → View
update id o v j = if str_eq id j then o else v j

-- What a caller learns from a call; the counts of `extend_owner_fragments` and `cleanup_expired` and the
-- record that `store_fragment` returns are left out.
pub data Reply : Type 0 where
  done : Reply
  bytes : Bytes → Reply
  refused : P2pError → Reply
  crashed : Reply

abbrev pub reply_of : {A : Type 0} → (A → Reply) → Result P2pError A → Reply
reply_of f (ok a) = f a
reply_of f (err e) = refused e
reply_of f panic = crashed

-- The reply of a node to a call.
unfoldable pub respond : Crates → Call → Node → Reply
respond x (store id owner xs expires now) s =
    reply_of (λ f. done) (store_fragment x id owner xs expires now s).0
respond x (retrieve id now) s = reply_of bytes (retrieve_fragment x id now s).0
respond x (delete id) s = reply_of (λ u. done) (delete_fragment x id s).0
respond x (extend id expires) s = reply_of (λ u. done) (extend_fragment x id expires s).0
respond x (extend_owner owner n now) s =
    reply_of (λ n. done) (extend_owner_fragments x owner n now s).0
respond x (cleanup now) s = reply_of (λ n. done) (cleanup_expired x now s).0

unfoldable pub replies : Crates → Node → List Call → List Reply
replies x s [] = []
replies x s (c ∷ cs) = respond x c s ∷ replies x (perform x c s) cs

-- Whether the node has space for what a call stores.
unfoldable pub has_room : Call → Node → Bool
has_room (store id owner xs expires now) s = has_space s.manager (length xs)
has_room _ s = true

unfoldable pub rooms : Crates → Node → List Call → List Bool
rooms x s [] = []
rooms x s (c ∷ cs) = has_room c s ∷ rooms x (perform x c s) cs

-- The renewal of an owner's entry.
abbrev pub renew_entry : Str → ℤ → Entry → Entry
renew_entry owner expires e = if str_eq e.owner owner then record e { expires = expires } else e

abbrev pub set_expires : ℤ → Entry → Entry
set_expires expires e = record e { expires = expires }

abbrev pub entry_expired : ℤ → Entry → Bool
entry_expired now e = ltb_ℤ e.expires now

-- A retrieval: an expired entry is deleted.
abbrev pub look : ℤ → Option Entry → Reply
look now none = refused (protocol (text "Fragment not found"))
look now (some e) =
    if entry_expired now e then refused (protocol (text "Fragment expired")) else bytes e.contents

abbrev pub put_entry : Bool → Option Str → Entry → Str → View → Reply × View
put_entry false prefix e id v = (refused (protocol (text "Insufficient storage space")), v)
put_entry true none e id v = (crashed, v)
put_entry true (some prefix) e id v = (done, update id (some e) v)

-- What a call does to the map, given whether there is space.
unfoldable pub serve : Bool → Call → View → Reply × View
serve room (store id owner xs expires now) v =
    put_entry room (first_two id) (record { owner = owner; contents = xs; expires = expires }) id v
serve room (retrieve id now) v =
    (look now (v id), update id (keep_if (λ e. not (entry_expired now e)) (v id)) v)
serve room (delete id) v = (done, update id none v)
serve room (extend id expires) v = (done, update id (map_option (set_expires expires) (v id)) v)
serve room (extend_owner owner n now) v =
    (done, λ j. map_option (renew_entry owner (add_i64 now (days n))) (v j))
serve room (cleanup now) v = (done, λ j. keep_if (λ e. not (entry_expired now e)) (v j))

unfoldable pub serve_all : List Bool → List Call → View → List Reply
serve_all rs [] v = []
serve_all [] (c ∷ cs) v = []
serve_all (r ∷ rs) (c ∷ cs) v = (serve r c v).0 ∷ serve_all rs cs (serve r c v).1

-- The view after a history.
unfoldable pub view_after : List Bool → List Call → View → View
view_after rs [] v = v
view_after [] (c ∷ cs) v = v
view_after (r ∷ rs) (c ∷ cs) v = view_after rs cs (serve r c v).1
