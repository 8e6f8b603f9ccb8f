-- ===== src/P2p/StorageManager/Heartbeats.antt =====
-- storage_protocol.rs: data whose owner sends heartbeats in time stays.
use libre_drive.P2p.StorageManager.Names.{Works}
use libre_drive.P2p.StorageManager.Calls.{
  IsPlainCall, Call, store, retrieve, delete, extend, extend_owner, cleanup, perform, run,
}
use libre_drive.P2p.StorageManager.Fragment.{is_plain, first_two}
use libre_drive.Prelude.{
  All, ℕ, ◌≡◌, refl, sym, ap, ◌∙◌, inl, inr, Bool, true, false, Option, none, some, List, [], ◌∷◌,
  ◌++◌, arith, if◌then◌else◌, Bool-cases, Option-cases,
}
use libre_drive.Prelude.Text.{Bytes, Str, str_eq, str_eq_iff, str_eq_refl}
use libre_drive.Prelude.Int.{ℤ, ltb_ℤ, add_i64}
use libre_drive.P2p.StorageManager.{Crates, new, days}
use libre_drive.P2p.StorageManager.Actions.{Node}
use libre_drive.P2p.StorageManager.Retrieval.{healthy}
use libre_drive.P2p.StorageManager.View.{
  Entry, View, done, bytes, respond, has_room, rooms, look, put_entry, serve, view_after,
}
use libre_drive.P2p.StorageManager.Refinement.{steps, run-Implements, nothing, new-Implements}

-- When an owner's data expires after a call, given when it expired before; `none` if the call takes it
-- away: its deletion, another store under its id, or a clean-up or a retrieval after it has expired.
unfoldable pub after_call : Str → Str → ℤ → Call → Option ℤ
after_call id owner e (store j o xs expires now) = if str_eq j id then none else some e
after_call id owner e (retrieve j now) =
    if str_eq j id then (if ltb_ℤ e now then none else some e) else some e
after_call id owner e (delete j) = if str_eq j id then none else some e
after_call id owner e (extend j expires) = if str_eq j id then some expires else some e
after_call id owner e (extend_owner o n now) =
    if str_eq owner o then some (add_i64 now (days n)) else some e
after_call id owner e (cleanup now) = if ltb_ℤ e now then none else some e

abbrev pub and_then : Option ℤ → (ℤ → Option ℤ) → Option ℤ
and_then none f = none
and_then (some e) f = f e

-- The same for a history.
unfoldable pub deadline : Str → Str → ℤ → List Call → Option ℤ
deadline id owner e [] = some e
deadline id owner e (c ∷ cs) = and_then (after_call id owner e c) (λ e'. deadline id owner e' cs)

abbrev pub entry : Str → Bytes → ℤ → Entry
entry owner xs e = record { owner = owner; contents = xs; expires = e }

abbrev Keeps : Bool → Call → Str → Str → Bytes → ℤ → View → Type 0
Keeps r c id owner xs e v =
    (e' : ℤ) → after_call id owner e c ≡ some e' → (serve r c v).1 id ≡ some (entry owner xs e')

put_entry-other :
    (r : Bool) (p : Option Str) (e : Entry) (j id : Str) (v : View)
    → str_eq j id ≡ false
    → (put_entry r p e j v).1 id ≡ v id
put_entry-other false p e j id v other = refl
put_entry-other true none e j id v other = refl
put_entry-other true (some p) e j id v other = rw other

keeps :
    (r : Bool) (c : Call) (id owner : Str) (xs : Bytes) (e : ℤ) (v : View)
    → v id ≡ some (entry owner xs e)
    → Keeps r c id owner xs e v
unfolding after_call serve
keeps r (store j o ys expires now) id owner xs e v at e' h = elim (Bool-cases (str_eq j id)) [
  | inl same ↦ absurd (ground arith)
  | inr other ↦
      put_entry-other r (first_two j) _ j id v other
      ∙ at
      ∙ ap (λ t. some (entry owner xs t)) (ground arith)
]
keeps r (retrieve j now) id owner xs e v at e' h = elim (Bool-cases (str_eq j id)) [
  | inl same ↦ elim (Bool-cases (ltb_ℤ e now)) [
    | inl expired ↦ absurd (ground arith)
    | inr valid ↦
        rw (same, ap v ((str_eq_iff j id).0 same), at, valid)
          (ap (λ t. some (entry owner xs t)) (ground arith))
  ]
  | inr other ↦ rw other (at ∙ ap (λ t. some (entry owner xs t)) (ground arith))
]
keeps r (delete j) id owner xs e v at e' h = elim (Bool-cases (str_eq j id)) [
  | inl same ↦ absurd (ground arith)
  | inr other ↦ rw other (at ∙ ap (λ t. some (entry owner xs t)) (ground arith))
]
keeps r (extend j expires) id owner xs e v at e' h = elim (Bool-cases (str_eq j id)) [
  | inl same ↦
      rw (same, ap v ((str_eq_iff j id).0 same), at)
        (ap (λ t. some (entry owner xs t)) (ground arith))
  | inr other ↦ rw other (at ∙ ap (λ t. some (entry owner xs t)) (ground arith))
]
keeps r (extend_owner o n now) id owner xs e v at e' h = elim (Bool-cases (str_eq owner o)) [
  | inl mine ↦ rw (at, mine) (ap (λ t. some (entry owner xs t)) (ground arith))
  | inr theirs ↦ rw (at, theirs) (ap (λ t. some (entry owner xs t)) (ground arith))
]
keeps r (cleanup now) id owner xs e v at e' h = elim (Bool-cases (ltb_ℤ e now)) [
  | inl expired ↦ absurd (ground arith)
  | inr valid ↦ rw (at, valid) (ap (λ t. some (entry owner xs t)) (ground arith))
]

pub view_after-deadline :
    (x : Crates) (n : Node) (cs : List Call) (id owner : Str) (xs : Bytes) (e e' : ℤ) (v : View)
    → v id ≡ some (entry owner xs e)
    → deadline id owner e cs ≡ some e'
    → view_after (rooms x n cs) cs v id ≡ some (entry owner xs e')
unfolding view_after rooms deadline
view_after-deadline x n [] id owner xs e e' v at h =
    at ∙ ap (λ t. some (entry owner xs t)) (ground arith)
view_after-deadline x n (c ∷ cs) id owner xs e e' v at h =
    elim (Option-cases (after_call id owner e c)) [
      | inl gone ↦ absurd (cut (after_call id owner e c) gone h)
      | inr (e'', k) ↦
          view_after-deadline x (perform x c n) cs id owner xs e'' e' (serve (has_room c n) c v).1
            (keeps (has_room c n) c id owner xs e v at e'' k)
            (sym (ap (λ o. and_then o (λ t. deadline id owner t cs)) k) ∙ h)
    ]
  where
    cut : (o : Option ℤ) → o ≡ none → and_then o (λ t. deadline id owner t cs) ≡ some e' → ⊥
    cut none g k = ground arith
    cut (some t) g k = ground arith

pub run-append :
    (x : Crates) (s : Node) (cs ds : List Call) → run x s (cs ++ ds) ≡ run x (run x s cs) ds
unfolding run
run-append x s [] ds = refl
run-append x s (c ∷ cs) ds = run-append x (perform x c s) cs ds

pub put_entry-done :
    (r : Bool) (p : Option Str) (e : Entry) (id : Str) (v : View)
    → (put_entry r p e id v).0 ≡ done
    → (put_entry r p e id v).1 id ≡ some e
put_entry-done false p e id v h = absurd (ground arith)
put_entry-done true none e id v h = absurd (ground arith)
put_entry-done true (some p) e id v h = rw (str_eq_refl id)

-- On a disk that works, with an index that JSON can write, where paths of plain names lead to files of
-- their own: data that a node accepted under a plain id, after any history, is still given out at a
-- time, after any further history in which the id is not deleted or stored again and the expiration
-- time, as the owner's heartbeats (and extensions of the id) move it, was never over at a clean-up or a
-- retrieval of the id, and is not over at that time. (The histories store under plain ids, and do not
-- initialize the node again.)
pub retrieve-renewed :
    (x : Crates) (laws : Works x) (offer : ℕ) (before after : List Call) (id owner : Str)
    (xs : Bytes) (expires now later expires' : ℤ)
    → All IsPlainCall before
    → is_plain id ≡ true
    → All IsPlainCall after
    → respond x (store id owner xs expires now) (run x (healthy (new offer) []) before) ≡ done
    → deadline id owner expires after ≡ some expires'
    → ltb_ℤ expires' later ≡ false
    → respond x
        (retrieve id later)
        (run x (healthy (new offer) []) (before ++ store id owner xs expires now ∷ after))
      ≡ bytes xs
unfolding serve run
retrieve-renewed x laws offer before after id owner xs expires now later expires' plain_before
      plain_id plain_after accepted timely valid =
    let (r, m, files, e, k) =
      run-Implements x laws before (new offer) [] nothing plain_before (new-Implements x offer) in
    let c = store id owner xs expires now in
    let v = view_after (rooms x (healthy (new offer) []) before) before nothing in
    let s = steps x laws c m files v plain_id k in
    let stored : (serve (has_room c (healthy m files)) c v).1 id ≡ some (entry owner xs expires) =
      put_entry-done (has_room c (healthy m files)) (first_two id) _ id v
        (sym s.replied ∙ ap (respond x c) (sym e) ∙ accepted) in
    let (r', m', files', e', k') =
      run-Implements x laws after s.manager s.files _ plain_after s.implemented in
    let kept =
      view_after-deadline x (healthy s.manager s.files) after id owner xs expires expires' _ stored
        timely in
    let t = steps x laws (retrieve id later) m' files' _ tt k' in
    ap (respond x (retrieve id later)) (
      run-append x (healthy (new offer) []) before (c ∷ after)
      ∙ ap (λ n. run x (perform x c n) after) e
      ∙ ap (λ n. run x n after) s.left
      ∙ e')
    ∙ t.replied
    ∙ ap (look later) kept
    ∙ rw valid
