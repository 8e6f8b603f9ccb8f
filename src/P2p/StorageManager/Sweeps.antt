-- ===== src/P2p/StorageManager/Sweeps.antt =====
-- storage_protocol.rs: the sweep of the expired fragments, against the view.
use libre_drive.P2p.StorageManager.Names.{Works}
use libre_drive.Prelude.{
  ℕ, suc, ◌%◌, ◌^◌, ◌≡◌, refl, ap, ◌∙◌, Bool, true, false, not, Option, none, some, List, [], ◌∷◌,
  arith, if◌then◌else◌, length,
}
use libre_drive.Prelude.Result.{ok}
use libre_drive.Prelude.Text.{Bytes, Str}
use libre_drive.Prelude.Int.{ℤ, ltb_ℤ}
use libre_drive.Prelude.Dict.{Dict, lookup, keep_if}
use libre_drive.P2p.StorageManager.Fragment.{StoredFragment}
use libre_drive.P2p.StorageManager.Actions.{StorageManager, ◌>>=◌}
use libre_drive.P2p.StorageManager.{Crates, expired_ids, delete_all, cleanup_expired}
use libre_drive.P2p.StorageManager.Retrieval.{healthy}
use libre_drive.P2p.StorageManager.Cleanup.{elem_ids, expired_at, elem-expired_ids}
use libre_drive.P2p.StorageManager.Restored.{view-Recoverable}
use libre_drive.P2p.StorageManager.View.{Entry, View, update, entry_expired}
use libre_drive.P2p.StorageManager.Implements.{Matches, Implements, view-Implements}
use libre_drive.P2p.StorageManager.Outcomes.{Ends, delete-Ends}

module _ (x : Crates) (laws : Works x) where
  delete_all-Ends :
      (ids : List Str) (m : StorageManager) (files : Dict Bytes) (v : View)
      → Implements x m files v
      → Ends x laws
          (length m.fragment_index)
          files
          v
          (delete_all x ids (healthy m files))
          (ok tt)
          (λ j. if elem_ids j ids then none else v j)
  unfolding delete_all ◌>>=◌
  delete_all-Ends [] m files v h = record {
    manager = m;
    files = files;
    outcome = refl;
    implemented = h;
    within = omega arith;
    recovers = λ reads small old. old;
  }
  delete_all-Ends (id ∷ ids) m files v h =
      let d = delete-Ends x laws id m files v h in
      let r = delete_all-Ends ids d.manager d.files (update id none v) d.implemented in
      let gone : (ids : List Str) (v : View) (j : Str)
          → (if elem_ids j ids then none else update id none v j)
            ≡ (if elem_ids j (id ∷ ids) then none else v j) =
        λ ids v j. ground arith in
      record {
        manager = r.manager;
        files = r.files;
        outcome = rw (d.outcome, r.outcome);
        implemented = view-Implements x r.manager r.files _ _ (gone ids v) r.implemented;
        within = (let a = d.within in let b = r.within in omega arith);
        recovers = λ reads small old.
            let a = d.within in
            view-Recoverable x r.files _ _ (gone ids v)
              (r.recovers reads (omega arith) (d.recovers reads small old));
      }

  pub cleanup-Ends :
      (now : ℤ) (m : StorageManager) (files : Dict Bytes) (v : View)
      → Implements x m files v
      → (count : ℕ) × Ends x laws
          (suc (length m.fragment_index))
          files
          v
          (cleanup_expired x now (healthy m files))
          (ok count)
          (λ j. keep_if (λ e. not (entry_expired now e)) (v j))
  unfolding cleanup_expired ◌>>=◌
  cleanup-Ends now m files v h =
      let r = delete_all-Ends (expired_ids now m.fragment_index) m files v h in
      (
        length (expired_ids now m.fragment_index) % 2 ^ 32,
        record {
          manager = r.manager;
          files = r.files;
          outcome = rw r.outcome;
          implemented = view-Implements x r.manager r.files _ _ valid r.implemented;
          within = (let a = r.within in omega arith);
          recovers = λ reads small old.
              view-Recoverable x r.files _ _ valid (r.recovers reads (omega arith) old);
        },
      )
    where
      flip : (b : Bool) (e : Option Entry) → (if b then none else e) ≡ (if not b then e else none)
      flip true e = refl
      flip false e = refl

      kept :
          (j : Str) (o : Option StoredFragment) (e : Option Entry)
          → Matches x files j o e
          → (if expired_at now o then none else e) ≡ keep_if (λ e. not (entry_expired now e)) e
      kept j none none k = refl
      kept j (some f) (some e) k =
          ap (λ t. if ltb_ℤ t now then none else some e) k.expiring
          ∙ flip (entry_expired now e) (some e)
      kept j none (some e) k = absurd k
      kept j (some f) none k = absurd k

      valid :
          (j : Str)
          → (if elem_ids j (expired_ids now m.fragment_index) then none else v j)
            ≡ keep_if (λ e. not (entry_expired now e)) (v j)
      valid j =
          rw (elem-expired_ids now j m.fragment_index h.unique)
            (kept j (lookup j m.fragment_index) (v j) (h.matches j))
