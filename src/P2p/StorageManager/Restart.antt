-- ===== src/P2p/StorageManager/Restart.antt =====
-- storage_protocol.rs: a node that is stopped and started again.
use libre_drive.P2p.StorageManager.Names.{Works}
use libre_drive.P2p.StorageManager.Calls.{IsPlainCall, Call, store, retrieve, perform, run}
use libre_drive.P2p.StorageManager.Fragment.{is_plain, first_two}
use libre_drive.Prelude.{
  All, true, ℕ, ◌+◌, ◌^◌, ◌≤◌, ◌<◌, ◌≡◌, refl, sym, ap, ◌∙◌, subst, inl, inr, false, Option, none,
  some, List, [], ◌∷◌, ◌++◌, arith, Option-cases, length,
}
use libre_drive.Prelude.Result.{ok}
use libre_drive.Prelude.Text.{Bytes, Str}
use libre_drive.Prelude.Int.{ℤ, ltb_ℤ}
use libre_drive.Prelude.Dict.{Dict}
use libre_drive.P2p.StorageManager.Actions.{StorageManager, Node}
use libre_drive.P2p.StorageManager.{Crates, new, initialize}
use libre_drive.P2p.StorageManager.Retrieval.{healthy}
use libre_drive.P2p.StorageManager.View.{
  View, done, bytes, respond, replies, has_room, rooms, look, serve, serve_all, view_after,
}
use libre_drive.P2p.StorageManager.Implements.{Implements}
use libre_drive.P2p.StorageManager.Restored.{ReadsBack, Recoverable, empty-Recoverable}
use libre_drive.P2p.StorageManager.Refinement.{steps, run-Implements, nothing, new-Implements}
use libre_drive.P2p.StorageManager.Heartbeats.{
  after_call, and_then, deadline, entry, view_after-deadline, run-append, put_entry-done,
}

-- A node with another offer that is started on the files of a node.
unfoldable pub restart : Crates → ℕ → Node → Node
restart x offer n = (initialize x (healthy (new offer) n.disk.files)).1

deadline-append :
    (id owner : Str) (e : ℤ) (cs ds : List Call)
    → deadline id owner e (cs ++ ds)
      ≡ and_then (deadline id owner e cs) (λ e'. deadline id owner e' ds)
unfolding deadline
deadline-append id owner e [] ds = refl
deadline-append id owner e (c ∷ cs) ds =
    go (after_call id owner e c) (λ e'. deadline-append id owner e' cs ds)
  where
    go :
        (o : Option ℤ)
        → ((e' : ℤ)
            → deadline id owner e' (cs ++ ds)
              ≡ and_then (deadline id owner e' cs) (λ t. deadline id owner t ds))
        → and_then o (λ e'. deadline id owner e' (cs ++ ds))
          ≡ and_then (and_then o (λ e'. deadline id owner e' cs)) (λ e'. deadline id owner e' ds)
    go none h = refl
    go (some e') h = h e'

-- An entry over two histories, the second at another node.
view_after-twice :
    (x : Crates) (n n' : Node) (cs ds : List Call) (id owner : Str) (xs : Bytes) (e e' : ℤ)
    (v : View)
    → v id ≡ some (entry owner xs e)
    → deadline id owner e (cs ++ ds) ≡ some e'
    → view_after (rooms x n' ds) ds (view_after (rooms x n cs) cs v) id ≡ some (entry owner xs e')
view_after-twice x n n' cs ds id owner xs e e' v at timely =
    let both = sym (deadline-append id owner e cs ds) ∙ timely in
    elim (Option-cases (deadline id owner e cs)) [
      | inl gone ↦ absurd (none_then gone both)
      | inr (t, h) ↦
          view_after-deadline x n' ds id owner xs t e' _
            (view_after-deadline x n cs id owner xs e t v at h)
            (sym (ap (λ o. and_then o (λ t. deadline id owner t ds)) h) ∙ both)
    ]
  where
    none_then : {o : Option ℤ} → o ≡ none → and_then o (λ t. deadline id owner t ds) ≡ some e' → ⊥
    none_then g k =
        let bad : ◌≡◌ {A = Option ℤ} none (some e') =
          sym (ap (λ o. and_then o (λ t. deadline id owner t ds)) g) ∙ k in
        ground arith

module _ (x : Crates) (laws : Works x) (reads : ReadsBack x) where
  -- A state on a disk that works, with its view: at most `n` entries, and files that are worth the view.
  record Stands (n : ℕ) (s : Node) (v : View) : Type 0 where
    manager : StorageManager
    files : Dict Bytes
    left : s ≡ healthy manager files
    implemented : Implements x manager files v
    within : length manager.fragment_index ≤ n
    recoverable : Recoverable x files v

  new-Stands : (offer : ℕ) → Stands 0 (healthy (new offer) []) nothing
  new-Stands offer = record {
    manager = new offer;
    files = [];
    left = refl;
    implemented = new-Implements x offer;
    within = omega arith;
    recoverable = empty-Recoverable x nothing (λ j. refl);
  }

  call-Stands :
      (c : Call) (n : ℕ) (s : Node) (v : View)
      → IsPlainCall c
      → n + 1 < 2 ^ 32
      → Stands n s v
      → Stands (n + 1) (perform x c s) (serve (has_room c s) c v).1
  call-Stands c n s v plain small h =
      let t = steps x laws c h.manager h.files v plain h.implemented in
      let most = h.within in
      let more = t.within in
      subst (λ k. Stands (n + 1) (perform x c k) (serve (has_room c k) c v).1) (sym h.left)
        (record {
          manager = t.manager;
          files = t.files;
          left = t.left;
          implemented = t.implemented;
          within = omega arith;
          recoverable = t.recovers reads (omega arith) h.recoverable;
        })

  run-Stands :
      (cs : List Call) (n : ℕ) (s : Node) (v : View)
      → All IsPlainCall cs
      → n + length cs < 2 ^ 32
      → Stands n s v
      → Stands (n + length cs) (run x s cs) (view_after (rooms x s cs) cs v)
  unfolding run rooms view_after
  run-Stands [] n s v plain small h = record {
    manager = h.manager;
    files = h.files;
    left = h.left;
    implemented = h.implemented;
    within = (let w = h.within in omega arith);
    recoverable = h.recoverable;
  }
  run-Stands (c ∷ cs) n s v plain small h =
      let k =
        run-Stands cs (n + 1) (perform x c s) (serve (has_room c s) c v).1 plain.1 (omega arith)
          (call-Stands c n s v plain.0 (omega arith) h) in
      record {
        manager = k.manager;
        files = k.files;
        left = k.left;
        implemented = k.implemented;
        within = (let w = k.within in omega arith);
        recoverable = k.recoverable;
      }

  -- The state after a restart stands for the view before it.
  record Restarts (offer : ℕ) (s : Node) (v : View) : Type 0 where
    manager : StorageManager
    files : Dict Bytes
    outcome : initialize x (healthy (new offer) s.disk.files) ≡ (ok tt, healthy manager files)
    again : restart x offer s ≡ healthy manager files
    implemented : Implements x manager files v

  Stands-Restarts : (n : ℕ) (s : Node) (v : View) → Stands n s v → (offer : ℕ) → Restarts offer s v
  unfolding restart
  Stands-Restarts n s v h offer =
      let k = h.recoverable offer in
      let e : initialize x (healthy (new offer) s.disk.files) ≡ (ok tt, healthy k.manager h.files) =
        ap (λ (t : Node). initialize x (healthy (new offer) t.disk.files)) h.left ∙ k.outcome in
      record {
        manager = k.manager;
        files = h.files;
        outcome = e;
        again = ap (λ r. r.1) e;
        implemented = k.implemented;
      }

  -- On a disk that works, with an index that JSON can write and that it reads back as the same map, in
  -- whatever order, where paths of plain names lead to files of their own: after any history of fewer
  -- than 2^32 calls of a new node, a node that is started on the files that are left, with any offer,
  -- starts without an error, and replies to every further history as the map of `View` does from where
  -- the first history left it. So no fragment is lost, no deleted one comes back, and no expiration time
  -- that was set is forgotten. (The histories store under plain ids, and the node is initialized only
  -- between them.)
  pub replies-restart :
      (offer offer' : ℕ) (cs ds : List Call)
      → All IsPlainCall cs
      → All IsPlainCall ds
      → length cs < 2 ^ 32
      → let before = healthy (new offer) [] in
        let end = run x before cs in
        ((initialize x (healthy (new offer') end.disk.files)).0 ≡ ok tt)
        × (replies x (restart x offer' end) ds
            ≡ serve_all
                (rooms x (restart x offer' end) ds)
                ds
                (view_after (rooms x before cs) cs nothing))
  replies-restart offer offer' cs ds plain plain' small =
      let start = healthy (new offer) [] in
      let h = run-Stands cs 0 start nothing plain (omega arith) (new-Stands offer) in
      let v = view_after (rooms x start cs) cs nothing in
      let k = Stands-Restarts (0 + length cs) (run x start cs) v h offer' in
      (
        ap (λ r. r.0) k.outcome,
        subst (λ s. replies x s ds ≡ serve_all (rooms x s ds) ds v) (sym k.again)
            (run-Implements x laws ds k.manager k.files v plain' k.implemented).0,
      )

  -- On a disk that works, with an index that JSON can write and that it reads back as the same map: data
  -- that a node accepted, after any history, is still given out at a time, after a second history, a
  -- restart with any offer and a third history (the first two with the store of fewer than 2^32 calls),
  -- if all ids are plain, the id is not deleted or stored again in the second and the third, and the expiration time, as the
  -- owner's heartbeats (and extensions of the id) move it through both, was never over at a clean-up or
  -- a retrieval of the id, and is not over at that time.
  pub retrieve-restarted :
      (offer offer' : ℕ) (before after further : List Call) (id owner : Str) (xs : Bytes)
      (expires now later expires' : ℤ)
      → All IsPlainCall before
      → is_plain id ≡ true
      → All IsPlainCall after
      → All IsPlainCall further
      → length before + length after + 1 < 2 ^ 32
      → respond x (store id owner xs expires now) (run x (healthy (new offer) []) before) ≡ done
      → deadline id owner expires (after ++ further) ≡ some expires'
      → ltb_ℤ expires' later ≡ false
      → let end =
          run x (healthy (new offer) []) (before ++ store id owner xs expires now ∷ after) in
        respond x (retrieve id later) (run x (restart x offer' end) further) ≡ bytes xs
  unfolding serve run restart
  retrieve-restarted offer offer' before after further id owner xs expires now later expires'
        plain_before plain_id plain_after plain_further small accepted timely valid =
      let start = healthy (new offer) [] in
      let c = store id owner xs expires now in
      let n = run x start before in
      let v = view_after (rooms x start before) before nothing in
      let k = length before in
      let a = run-Stands before 0 start nothing plain_before (omega arith) (new-Stands offer) in
      let s = steps x laws c a.manager a.files v plain_id a.implemented in
      let stored : (serve (has_room c n) c v).1 id ≡ some (entry owner xs expires) =
        put_entry-done (has_room c n) (first_two id) _ id v (
          subst (λ k. (serve (has_room c k) c v).0 ≡ done) (sym a.left)
            (sym s.replied ∙ ap (respond x c) (sym a.left) ∙ accepted)) in
      let w = (serve (has_room c n) c v).1 in
      let b = call-Stands c (0 + k) n v plain_id (omega arith) a in
      let end = run x (perform x c n) after in
      let w' = view_after (rooms x (perform x c n) after) after w in
      let d : Stands (0 + k + 1 + length after) end w' =
        run-Stands after (0 + k + 1) (perform x c n) w plain_after (omega arith) b in
      let r = Stands-Restarts (0 + k + 1 + length after) end w' d offer' in
      let (_, m, files, left, f) =
        run-Implements x laws further r.manager r.files w' plain_further r.implemented in
      let t = steps x laws (retrieve id later) m files _ tt f in
      let whole = run-append x start before (c ∷ after) in
      ap (λ s. respond x (retrieve id later) (run x (restart x offer' s) further)) whole
      ∙ ap (λ s. respond x (retrieve id later) (run x s further)) r.again
      ∙ ap (respond x (retrieve id later)) left
      ∙ t.replied
      ∙ ap (look later) (
          view_after-twice x (perform x c n) (healthy r.manager r.files) after further id owner xs
            expires expires' w stored timely)
      ∙ rw valid
