-- ===== src/P2p/StorageManager/Renewals.antt =====
-- storage_protocol.rs: the renewal of an owner's fragments, against the view.
use libre_drive.P2p.StorageManager.Names.{Works}
use libre_drive.Prelude.{
  ℕ, suc, ◌%◌, ◌^◌, ◌≤◌, ◌≡◌, refl, sym, subst, ap, ◌∙◌, inl, inr, false, Option, none, some, [],
  ◌∷◌, arith, ltb, Bool-cases, length,
}
use libre_drive.Prelude.Result.{ok}
use libre_drive.Prelude.Text.{Bytes, Str, str_eq}
use libre_drive.Prelude.Int.{ℤ, add_i64}
use libre_drive.Prelude.Dict.{
  Dict, lookup, insert, values, map_values, map_option, lookup-map_values, map_values-IsMap,
  length-map_values,
}
use libre_drive.P2p.Disk.{write}
use libre_drive.P2p.StorageManager.Fragment.{StoredFragment, index_path}
use libre_drive.P2p.StorageManager.Actions.{StorageManager, ◌>>=◌, branch}
use libre_drive.P2p.StorageManager.{
  Crates, save_index, days, renew, count_owned, extend_owner_fragments,
}
use libre_drive.P2p.StorageManager.Retrieval.{healthy}
use libre_drive.P2p.StorageManager.Restored.{view-Recoverable, written-Recoverable}
use libre_drive.P2p.StorageManager.View.{Entry, View, renew_entry}
use libre_drive.P2p.StorageManager.Implements.{Shows, Matches, Implements, index-Implements}
use libre_drive.P2p.StorageManager.Outcomes.{Ends}

count_owned-length :
    (owner : Str) (index : Dict StoredFragment) → count_owned owner (values index) ≤ length index
unfolding count_owned
count_owned-length owner [] = omega arith
count_owned-length owner ((j, f) ∷ index) = ground (arith, count_owned-length owner index)

-- Where an owner has no fragment, every fragment has another owner.
count_owned-none :
    (owner j : Str) (f : StoredFragment) (index : Dict StoredFragment)
    → count_owned owner (values index) ≡ 0
    → lookup j index ≡ some f
    → str_eq f.owner_id owner ≡ false
unfolding count_owned lookup
count_owned-none owner j f [] zeros there = absurd (ground arith)
count_owned-none owner j f ((i, g) ∷ index) zeros there = elim (Bool-cases (str_eq i j)) [
  | inl here ↦
      let same : g ≡ f = ground arith in
      subst (λ k. str_eq k.owner_id owner ≡ false) same (ground arith)
  | inr other ↦ count_owned-none owner j f index (ground arith) (ground arith)
]

module _ (x : Crates) (laws : Works x) where
  module _ (m : StorageManager) (files : Dict Bytes) (v : View) (h : Implements x m files v) where
    pub extend_owner-Ends :
        (owner : Str) (n : ℕ) (now : ℤ)
        → (count : ℕ) × Ends x laws
            (suc (length m.fragment_index))
            files
            v
            (extend_owner_fragments x owner n now (healthy m files))
            (ok count)
            (λ j. map_option (renew_entry owner (add_i64 now (days n))) (v j))
    unfolding extend_owner_fragments save_index ◌>>=◌ write
    extend_owner-Ends owner n now =
        let expires = add_i64 now (days n) in
        let index = map_values (renew owner expires) m.fragment_index in
        let (b, written) = laws.written index in
        let k : Implements x (record m { fragment_index = index }) files
            (λ j. map_option (renew_entry owner expires) (v j)) =
          record {
            unique = map_values-IsMap (renew owner expires) m.fragment_index h.unique;
            matches = λ j.
                rw (lookup-map_values (renew owner expires) j m.fragment_index)
                  (renewed expires j (lookup j m.fragment_index) (v j) (h.matches j));
          } in
        let within : length index ≤ suc (length m.fragment_index) =
          omega (arith, length-map_values (renew owner expires) m.fragment_index) in
        (
          count_owned owner (values m.fragment_index) % 2 ^ 32,
          elim (Bool-cases (ltb 0 (count_owned owner (values m.fragment_index) % 2 ^ 32))) [
            | inl some_owned ↦ record {
              manager = record m { fragment_index = index };
              files = insert (x.file_of index_path) b files;
              outcome = rw (some_owned, branch, written);
              implemented =
                  index-Implements x laws (record m { fragment_index = index }) files _ b k;
              within = within;
              recovers = λ reads small old.
                  written-Recoverable x (record m { fragment_index = index }) files _ b reads
                    written
                    (index-Implements x laws (record m { fragment_index = index }) files _ b k);
            }
            | inr none_owned ↦ record {
              manager = record m { fragment_index = index };
              files = files;
              outcome = rw (none_owned, branch);
              implemented = k;
              within = within;
              recovers = λ reads small.
                  let c = count_owned-length owner m.fragment_index in
                  let none_there : count_owned owner (values m.fragment_index) ≡ 0 = ground arith in
                  view-Recoverable x files v _
                    (λ j. unowned none_there expires j _ (v j) refl (h.matches j));
            }
          ],
        )
      where
        renewed_one :
            (expires : ℤ) (j : Str) (f : StoredFragment) (e : Entry)
            → Shows x files j f e
            → Shows x files j (renew owner expires f) (renew_entry owner expires e)
        renewed_one expires j f e s =
            let same : str_eq f.owner_id owner ≡ str_eq e.owner owner =
              ap (λ t. str_eq t owner) s.owned in
            elim (Bool-cases (str_eq e.owner owner)) [
              | inl mine ↦
                  rw (same, mine)
                    (record {
                      owned = s.owned;
                      expiring = refl;
                      filed = s.filed;
                      hashed = s.hashed;
                      prefix = s.prefix;
                      long = s.long;
                      placed = s.placed;
                      plain = s.plain;
                    })
              | inr theirs ↦ rw (same, theirs) s
            ]

        unowned :
            count_owned owner (values m.fragment_index) ≡ 0
            → (expires : ℤ) (j : Str) (o : Option StoredFragment) (e : Option Entry)
            → lookup j m.fragment_index ≡ o
            → Matches x files j o e
            → e ≡ map_option (renew_entry owner expires) e
        unowned zeros expires j none none at k = refl
        unowned zeros expires j (some f) (some e) at k =
            let theirs : str_eq e.owner owner ≡ false =
              ap (λ t. str_eq t owner) (sym k.owned)
              ∙ count_owned-none owner j f m.fragment_index zeros at in
            rw theirs
        unowned zeros expires j none (some e) at k = absurd k
        unowned zeros expires j (some f) none at k = absurd k

        renewed :
            (expires : ℤ) (j : Str) (o : Option StoredFragment) (e : Option Entry)
            → Matches x files j o e
            → Matches x files j
                (map_option (renew owner expires) o)
                (map_option (renew_entry owner expires) e)
        renewed expires j none none k = tt
        renewed expires j (some f) (some e) k = renewed_one expires j f e k
        renewed expires j none (some e) k = absurd k
        renewed expires j (some f) none k = absurd k
