-- ===== src/P2p/StorageManager/Refinement.antt =====
-- storage_protocol.rs: on a disk that works, `StorageManager` behaves as the map of View.
use libre_drive.P2p.StorageManager.Names.{Works}
use libre_drive.Prelude.{
  ℕ, suc, ◌^◌, ◌≤◌, ◌<◌, arith, ◌≡◌, refl, ap, ◌∙◌, inl, inr, none, List, [], ◌∷◌, leb, Bool-cases,
  Option-cases, length, All, true,
}
use libre_drive.Prelude.Result.{Result, ok, err, panic}
use libre_drive.Prelude.Text.{Bytes, Str, text}
use libre_drive.Prelude.Word.{add_u64}
use libre_drive.Prelude.Int.{ℤ}
use libre_drive.Prelude.Dict.{Dict, lookup, insert, length-insert}
use libre_drive.P2p.{P2pError, protocol}
use libre_drive.P2p.StorageManager.Fragment.{StoredFragment, first_two, path_of, is_plain}
use libre_drive.P2p.StorageManager.Actions.{StorageManager, Node, ◌>>=◌}
use libre_drive.P2p.StorageManager.{
  Crates, new, new_fragment, record_fragment, store_fragment, has_space,
}
use libre_drive.P2p.StorageManager.Calls.{
  Call, store, retrieve, delete, extend, extend_owner, cleanup, perform, run, IsPlainCall,
}
use libre_drive.P2p.StorageManager.Retrieval.{healthy, stored_files, store_fragment-eq}
use libre_drive.P2p.StorageManager.Restored.{ReadsBack, Recoverable, written-Recoverable}
use libre_drive.P2p.StorageManager.View.{
  View, done, bytes, reply_of, respond, replies, has_room, rooms, serve, serve_all, view_after,
}
use libre_drive.P2p.StorageManager.Implements.{Implements, store-Implements}
use libre_drive.P2p.StorageManager.Outcomes.{Ends, delete-Ends}
use libre_drive.P2p.StorageManager.Answers.{retrieve-Ends, extend-Ends}
use libre_drive.P2p.StorageManager.Renewals.{extend_owner-Ends}
use libre_drive.P2p.StorageManager.Sweeps.{cleanup-Ends}

module _ (x : Crates) (laws : Works x) where
  store-Ends :
      (id owner : Str) (xs : Bytes) (expires now : ℤ) (m : StorageManager) (files : Dict Bytes)
      (v : View)
      → is_plain id ≡ true
      → Implements x m files v
      → let s = serve (has_space m (length xs)) (store id owner xs expires now) v in
        (q : Result P2pError StoredFragment) × (reply_of (λ f. done) q ≡ s.0)
        × Ends x laws
            (suc (length m.fragment_index))
            files
            v
            (store_fragment x id owner xs expires now (healthy m files))
            q
            s.1
  unfolding serve has_space store_fragment ◌>>=◌
  store-Ends id owner xs expires now m files v plain h =
      elim (Bool-cases (leb (add_u64 m.used_storage_bytes (length xs)) m.max_storage_bytes)) [
        | inl fits ↦ elim (Option-cases (first_two id)) [
          | inl short ↦ (
            panic,
            rw (fits, short),
            record {
              manager = m;
              files = files;
              outcome = rw (fits, short);
              implemented = rw (fits, short) h;
              within = omega arith;
              recovers = rw (fits, short) (λ reads small old. old);
            },
          )
          | inr (prefix, long) ↦
              let f = new_fragment x id owner xs expires now (path_of prefix id) in
              let (b, written) = laws.written (insert id f m.fragment_index) in
              (
                ok f,
                rw (fits, long),
                record {
                  manager = record_fragment f m;
                  files = stored_files x f xs b files;
                  outcome =
                      store_fragment-eq x id owner xs expires now m files fits prefix long b
                        written;
                  implemented =
                      rw (fits, long)
                        (store-Implements x laws m files v h id prefix owner xs b expires now long
                          plain);
                  within = length-insert id f m.fragment_index;
                  recovers =
                      rw (fits, long)
                        (λ reads small old.
                          written-Recoverable x (record_fragment f m)
                            (insert (x.file_of f.local_path) xs files) _ b reads written
                            (store-Implements x laws m files v h id prefix owner xs b expires now
                              long plain));
                },
              )
        ]
        | inr full ↦ (
          err (protocol (text "Insufficient storage space")),
          rw full,
          record {
            manager = m;
            files = files;
            outcome = rw full;
            implemented = rw full h;
            within = omega arith;
            recovers = rw full (λ reads small old. old);
          },
        )
      ]

  -- What one call does.
  pub record Steps (c : Call) (s : Node) (v : View) : Type 0 where
    pub manager : StorageManager
    pub files : Dict Bytes
    pub within : length manager.fragment_index ≤ suc (length s.manager.fragment_index)
    pub recovers :
        ReadsBack x
        → suc (length s.manager.fragment_index) < 2 ^ 32
        → Recoverable x s.disk.files v
        → Recoverable x files (serve (has_room c s) c v).1
    pub replied : respond x c s ≡ (serve (has_room c s) c v).0
    pub left : perform x c s ≡ healthy manager files
    pub implemented : Implements x manager files (serve (has_room c s) c v).1

  pub steps :
      (c : Call) (m : StorageManager) (files : Dict Bytes) (v : View)
      → IsPlainCall c
      → Implements x m files v
      → Steps c (healthy m files) v
  unfolding respond perform serve has_room
  steps (store id owner xs expires now) m files v plain h =
      let (q, r, e) = store-Ends id owner xs expires now m files v plain h in
      record {
        manager = e.manager;
        files = e.files;
        within = e.within;
        recovers = e.recovers;
        replied = ap (λ t. reply_of (λ f. done) t.0) e.outcome ∙ r;
        left = ap (λ t. t.1) e.outcome;
        implemented = e.implemented;
      }
  steps (retrieve id now) m files v plain h =
      let (q, r, e) = retrieve-Ends x laws m files v h id now in
      record {
        manager = e.manager;
        files = e.files;
        within = e.within;
        recovers = e.recovers;
        replied = ap (λ t. reply_of bytes t.0) e.outcome ∙ r;
        left = ap (λ t. t.1) e.outcome;
        implemented = e.implemented;
      }
  steps (delete id) m files v plain h =
      let e = delete-Ends x laws id m files v h in
      record {
        manager = e.manager;
        files = e.files;
        within = (let n = e.within in omega arith);
        recovers = λ reads small. e.recovers reads (omega arith);
        replied = ap (λ t. reply_of (λ u. done) t.0) e.outcome;
        left = ap (λ t. t.1) e.outcome;
        implemented = e.implemented;
      }
  steps (extend id expires) m files v plain h =
      let e = extend-Ends x laws m files v h id expires in
      record {
        manager = e.manager;
        files = e.files;
        within = e.within;
        recovers = e.recovers;
        replied = ap (λ t. reply_of (λ u. done) t.0) e.outcome;
        left = ap (λ t. t.1) e.outcome;
        implemented = e.implemented;
      }
  steps (extend_owner owner n now) m files v plain h =
      let (count, e) = extend_owner-Ends x laws m files v h owner n now in
      record {
        manager = e.manager;
        files = e.files;
        within = e.within;
        recovers = e.recovers;
        replied = ap (λ t. reply_of (λ u. done) t.0) e.outcome;
        left = ap (λ t. t.1) e.outcome;
        implemented = e.implemented;
      }
  steps (cleanup now) m files v plain h =
      let (count, e) = cleanup-Ends x laws now m files v h in
      record {
        manager = e.manager;
        files = e.files;
        within = e.within;
        recovers = e.recovers;
        replied = ap (λ t. reply_of (λ u. done) t.0) e.outcome;
        left = ap (λ t. t.1) e.outcome;
        implemented = e.implemented;
      }

  -- A history on a disk that works, from a state that implements a view: the replies are those of the
  -- view, and the state afterwards implements the view afterwards.
  pub run-Implements :
      (cs : List Call) (m : StorageManager) (files : Dict Bytes) (v : View)
      → All IsPlainCall cs
      → Implements x m files v
      → let n = healthy m files in
        (replies x n cs ≡ serve_all (rooms x n cs) cs v)
        × (m' : StorageManager) × (files' : Dict Bytes) × (run x n cs ≡ healthy m' files')
        × Implements x m' files' (view_after (rooms x n cs) cs v)
  unfolding replies serve_all rooms run view_after
  run-Implements [] m files v plain h = (refl, m, files, refl, h)
  run-Implements (c ∷ cs) m files v plain h =
      let s = steps c m files v plain.0 h in
      let (r, m', files', e, k) =
        run-Implements cs s.manager s.files (serve (has_room c (healthy m files)) c v).1 plain.1
          s.implemented in
      (rw (s.replied, s.left, r), m', files', rw (s.left, e), rw s.left k)

-- The view of a new node.
abbrev pub nothing : View
nothing id = none

pub new-Implements : (x : Crates) (offer : ℕ) → Implements x (new offer) [] nothing
unfolding lookup
new-Implements x offer = record { unique = tt; matches = λ j. tt }

-- On a disk that works, with an index that JSON can write, where paths of plain names lead to files of
-- their own: a new node replies to every history of calls that store under plain ids (and do not
-- initialize it again) as the map of `View` does, which is told of each call only whether there was
-- space for it: ids give the data last stored under them, until they are deleted, or retrieved or
-- cleaned up after the expiration time that was last set.
pub replies-eq-serve_all :
    (x : Crates) (laws : Works x) (offer : ℕ) (cs : List Call)
    → All IsPlainCall cs
    → replies x (healthy (new offer) []) cs
      ≡ serve_all (rooms x (healthy (new offer) []) cs) cs nothing
replies-eq-serve_all x laws offer cs plain =
    (run-Implements x laws cs (new offer) [] nothing plain (new-Implements x offer)).0
