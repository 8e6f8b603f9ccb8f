-- ===== src/P2p/StorageManager/Answers.antt =====
-- storage_protocol.rs: the outcome of a retrieval and of an extension on a disk that works.
use libre_drive.P2p.StorageManager.Names.{Works}
use libre_drive.Prelude.{
  suc, length, ◌≡◌, refl, ap, ◌∙◌, subst, inl, inr, not, Option, none, some, arith, Bool-cases,
  Option-cases,
}
use libre_drive.Prelude.Result.{Result, ok, err}
use libre_drive.Prelude.Text.{Bytes, Str, text, str_eq_refl}
use libre_drive.Prelude.Int.{ℤ, ltb_ℤ}
use libre_drive.Prelude.Dict.{Dict, lookup, insert, keep_if, map_option, length-insert}
use libre_drive.Crypto.Hashing.{hash, to_base58}
use libre_drive.P2p.{P2pError, protocol}
use libre_drive.P2p.Disk.{write, read}
use libre_drive.P2p.StorageManager.Fragment.{StoredFragment, index_path}
use libre_drive.P2p.StorageManager.Actions.{StorageManager, ◌>>=◌}
use libre_drive.P2p.StorageManager.{
  Crates, save_index, touch, put_fragment, retrieve_fragment, set_expiry, extend_found,
  extend_fragment,
}
use libre_drive.P2p.StorageManager.Retrieval.{healthy}
use libre_drive.P2p.StorageManager.Restored.{view-Recoverable, written-Recoverable}
use libre_drive.P2p.StorageManager.View.{
  Entry, View, update, bytes, reply_of, set_expires, entry_expired, look,
}
use libre_drive.P2p.StorageManager.Implements.{
  Shows, Matches, Implements, put-Implements, index-Implements, view-Implements,
}
use libre_drive.P2p.StorageManager.Outcomes.{Ends, unshown, update_same, delete-Ends}

module _ (x : Crates) (laws : Works x) where
  -- The entry of the view for an entry of the index.
  shown :
      (files : Dict Bytes) (id : Str) (f : StoredFragment) (o : Option StoredFragment)
      (e : Option Entry)
      → o ≡ some f
      → Matches x files id o e
      → (e' : Entry) × (e ≡ some e') × Shows x files id f e'
  shown files id f (some g) (some e) eq h =
      (e, refl, subst (λ k. Shows x files id k e) (ground arith) h)
  shown files id f none e eq h = absurd (ground arith)
  shown files id f (some g) none eq h = absurd h

  module _ (m : StorageManager) (files : Dict Bytes) (v : View) (h : Implements x m files v) where
    pub retrieve-Ends :
        (id : Str) (now : ℤ)
        → (q : Result P2pError Bytes) × (reply_of bytes q ≡ look now (v id))
          × Ends x laws
              (suc (length m.fragment_index))
              files
              v
              (retrieve_fragment x id now (healthy m files))
              q
              (update id (keep_if (λ e. not (entry_expired now e)) (v id)) v)
    unfolding retrieve_fragment ◌>>=◌ read
    retrieve-Ends id now = elim (Option-cases (lookup id m.fragment_index)) [
      | inl absent ↦
          let empty = unshown x files id _ _ absent (h.matches id) in
          (
            err (protocol (text "Fragment not found")),
            rw empty,
            record {
              manager = m;
              files = files;
              outcome = rw absent;
              implemented = view-Implements x m files v _ (update_same id v _ (empty ∙ rw empty)) h;
              within = omega arith;
              recovers = λ reads small.
                  view-Recoverable x files v _ (update_same id v _ (empty ∙ rw empty));
            },
          )
      | inr (f, there) ↦
          let (e, at, s) = shown files id f _ _ there (h.matches id) in
          let same : ltb_ℤ f.expires_at now ≡ ltb_ℤ e.expires now =
            ap (λ t. ltb_ℤ t now) s.expiring in
          elim (Bool-cases (ltb_ℤ e.expires now)) [
            | inl expired ↦
                let d = delete-Ends x laws id m files v h in
                (
                  err (protocol (text "Fragment expired")),
                  rw (at, expired),
                  record {
                    manager = d.manager;
                    files = d.files;
                    outcome = rw (there, same, expired, d.outcome);
                    implemented = rw (at, expired) d.implemented;
                    within = (let n = d.within in omega arith);
                    recovers = λ reads small. rw (at, expired) (d.recovers reads (omega arith));
                  },
                )
            | inr valid ↦
                let hashes = str_eq_refl (to_base58 x.hashes (hash x.hashes e.contents)) in
                (
                  ok e.contents,
                  rw (at, valid),
                  record {
                    manager = put_fragment id (touch now f) m;
                    files = files;
                    outcome = rw (there, same, valid, s.filed, s.hashed, hashes);
                    implemented =
                        rw (at, valid)
                          (put-Implements x laws m files v h id f (touch now f) e e there at
                            (λ files' k. record {
                              owned = k.owned;
                              expiring = k.expiring;
                              filed = k.filed;
                              hashed = k.hashed;
                              prefix = k.prefix;
                              long = k.long;
                              placed = k.placed;
                              plain = k.plain;
                            }));
                    within = length-insert id (touch now f) m.fragment_index;
                    recovers = λ reads small.
                        view-Recoverable x files v _ (update_same id v _ (at ∙ rw (at, valid)));
                  },
                )
          ]
    ]

    pub extend-Ends :
        (id : Str) (expires : ℤ)
        → Ends x laws
            (suc (length m.fragment_index))
            files
            v
            (extend_fragment x id expires (healthy m files))
            (ok tt)
            (update id (map_option (set_expires expires) (v id)) v)
    unfolding extend_fragment extend_found save_index ◌>>=◌ write
    extend-Ends id expires = elim (Option-cases (lookup id m.fragment_index)) [
      | inl absent ↦
          let empty = unshown x files id _ _ absent (h.matches id) in
          record {
            manager = m;
            files = files;
            outcome = rw absent;
            implemented = view-Implements x m files v _ (update_same id v _ (empty ∙ rw empty)) h;
            within = omega arith;
            recovers =
                λ reads small. view-Recoverable x files v _ (update_same id v _ (empty ∙ rw empty));
          }
      | inr (f, there) ↦
          let (e, at, s) = shown files id f _ _ there (h.matches id) in
          let m' = put_fragment id (set_expiry expires f) m in
          let (b, written) = laws.written m'.fragment_index in
          let k : Implements x m' (insert (x.file_of index_path) b files)
              (update id (map_option (set_expires expires) (v id)) v) =
            rw at (
              index-Implements x laws m' files _ b (
                put-Implements x laws m files v h id f (set_expiry expires f) e
                  (set_expires expires e) there at
                  (λ files' k. record {
                    owned = k.owned;
                    expiring = refl;
                    filed = k.filed;
                    hashed = k.hashed;
                    prefix = k.prefix;
                    long = k.long;
                    placed = k.placed;
                    plain = k.plain;
                  }))) in
          record {
            manager = m';
            files = insert (x.file_of index_path) b files;
            outcome = rw (there, written);
            implemented = k;
            within = length-insert id (set_expiry expires f) m.fragment_index;
            recovers = λ reads small old. written-Recoverable x m' files _ b reads written k;
          }
    ]
