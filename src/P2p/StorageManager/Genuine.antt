-- ===== src/P2p/StorageManager/Genuine.antt =====
-- storage_protocol.rs: what is given out was stored, whatever the disk does.
use libre_drive.Prelude.{
  ◌≡◌, refl, sym, ap, ◌∙◌, subst, ◌⊎◌, inl, inr, Option, none, some, List, [], ◌∷◌, arith,
  Bool-cases, Option-cases,
}
use libre_drive.Prelude.Result.{Result, ok, err, panic}
use libre_drive.Prelude.Text.{Bytes, Str, text, str_eq, str_eq_iff}
use libre_drive.Prelude.Int.{ℤ, ltb_ℤ}
use libre_drive.Prelude.Dict.{lookup, map_values, lookup-insert, lookup-remove, lookup-map_values}
use libre_drive.Crypto.Hashing.Library.{IsHashLib}
use libre_drive.Crypto.Hashing.{hash, to_base58}
use libre_drive.P2p.{P2pError, protocol}
use libre_drive.P2p.Disk.{read}
use libre_drive.P2p.StorageManager.Fragment.{StoredFragment}
use libre_drive.P2p.StorageManager.Actions.{StorageManager, Node, Action, ◌>>=◌, continue, lift}
use libre_drive.P2p.StorageManager.{
  Crates, record_fragment, forget, put_fragment, touch, renew, check_hash, delete_fragment,
  retrieve_fragment,
}
use libre_drive.P2p.StorageManager.Calls.{
  Call, store, retrieve, delete, extend, extend_owner, cleanup, perform, run,
}
use libre_drive.P2p.StorageManager.Preserved.{IsPreserved, Brings, perform-keeps}

-- A call that stores the data under the id.
abbrev pub IsStore : Str → Bytes → Call → Type 0
IsStore id xs (store j owner ys expires now) = (id ≡ j) × (xs ≡ ys)
IsStore id xs _ = ⊥

-- Such a call is among these.
abbrev pub WasStored : Str → Bytes → List Call → Type 0
WasStored id xs [] = ⊥
WasStored id xs (c ∷ cs) = IsStore id xs c ⊎ WasStored id xs cs

module _ (x : Crates) (start : StorageManager) (all : List Call) where
  -- A fragment has the hash of data that was stored under its id, or of what was in the index for its
  -- id at the start.
  abbrev IsOf : Str → StoredFragment → Type 0
  IsOf id f =
      ((xs : Bytes) × WasStored id xs all
        × (f.content_hash ≡ to_base58 x.hashes (hash x.hashes xs)))
      ⊎ ((g : StoredFragment) × (lookup id start.fragment_index ≡ some g)
          × (f.content_hash ≡ g.content_hash))

  same_hash :
      (id : Str) (f g : StoredFragment) → g.content_hash ≡ f.content_hash → IsOf id f → IsOf id g
  same_hash id f g same (inl (xs, was, hashed)) = inl (xs, was, same ∙ hashed)
  same_hash id f g same (inr (k, there, hashed)) = inr (k, there, same ∙ hashed)

  record IsGenuine (m : StorageManager) : Type 0 where
    entries : (id : Str) (f : StoredFragment) → lookup id m.fragment_index ≡ some f → IsOf id f

  recorded-IsGenuine :
      (f : StoredFragment) (m : StorageManager)
      → IsGenuine m
      → IsOf f.fragment_id f
      → IsGenuine (record_fragment f m)
  recorded-IsGenuine f m h new = record {
    entries = λ id g there. elim (Bool-cases (str_eq f.fragment_id id)) [
      | inl here ↦
          let got : some f ≡ some g =
            sym (rw here) ∙ sym (lookup-insert f.fragment_id id f m.fragment_index) ∙ there in
          let same : f ≡ g = cc in
          subst (λ k. IsOf id k) same
            (subst (λ j. IsOf j f) ((str_eq_iff f.fragment_id id).0 here) new)
      | inr other ↦
          h.entries id g
            (sym (lookup-insert f.fragment_id id f m.fragment_index ∙ rw other) ∙ there)
    ];
  }

  forgotten-IsGenuine : (id : Str) (m : StorageManager) → IsGenuine m → IsGenuine (forget id m)
  forgotten-IsGenuine id m h = record {
    entries = λ j g there. elim (Bool-cases (str_eq id j)) [
      | inl here ↦
          let bad : ◌≡◌ {A = Option StoredFragment} none (some g) =
            sym (lookup-remove id j m.fragment_index ∙ rw here) ∙ there in
          absurd (ground arith)
      | inr other ↦ h.entries j g (sym (lookup-remove id j m.fragment_index ∙ rw other) ∙ there)
    ];
  }

  changed-IsGenuine :
      (id : Str) (f g : StoredFragment) (m : StorageManager)
      → IsGenuine m
      → lookup id m.fragment_index ≡ some f
      → g.content_hash ≡ f.content_hash
      → IsGenuine (put_fragment id g m)
  changed-IsGenuine id f g m h there same = record {
    entries = λ j k at. elim (Bool-cases (str_eq id j)) [
      | inl here ↦
          let got : some g ≡ some k = sym (lookup-insert id j g m.fragment_index ∙ rw here) ∙ at in
          let e : g ≡ k = cc in
          subst (λ i. IsOf i k) ((str_eq_iff id j).0 here)
            (subst (λ t. IsOf id t) e (same_hash id f g same (h.entries id f there)))
      | inr other ↦ h.entries j k (sym (lookup-insert id j g m.fragment_index ∙ rw other) ∙ at)
    ];
  }

  renew-hash :
      (owner : Str) (expires : ℤ) (f : StoredFragment)
      → (renew owner expires f).content_hash ≡ f.content_hash
  renew-hash owner expires f = ground arith

  renewed-IsGenuine :
      (owner : Str) (expires : ℤ) (m : StorageManager)
      → IsGenuine m
      → IsGenuine (record m { fragment_index = map_values (renew owner expires) m.fragment_index })
  renewed-IsGenuine owner expires m h = record {
    entries = λ id g at. elim (Option-cases (lookup id m.fragment_index)) [
      | inl absent ↦
          let bad : ◌≡◌ {A = Option StoredFragment} none (some g) =
            sym (lookup-map_values (renew owner expires) id m.fragment_index ∙ rw absent) ∙ at in
          absurd (ground arith)
      | inr (f, there) ↦
          let got : some (renew owner expires f) ≡ some g =
            sym (lookup-map_values (renew owner expires) id m.fragment_index ∙ rw there) ∙ at in
          let e : renew owner expires f ≡ g = cc in
          subst (λ t. IsOf id t) e
            (same_hash id f (renew owner expires f) (renew-hash owner expires f)
              (h.entries id f there))
    ];
  }

  IsGenuine-IsPreserved : IsPreserved IsGenuine (λ f. IsOf f.fragment_id f)
  IsGenuine-IsPreserved = record {
    recorded = λ f m h new fits. recorded-IsGenuine f m h new;
    forgotten = forgotten-IsGenuine;
    released = λ id f m h there. record { entries = (forgotten-IsGenuine id m h).entries };
    changed = λ id f g m h there size same. changed-IsGenuine id f g m h there same;
    renewed = renewed-IsGenuine;
  }

  call-Brings :
      (c : Call)
      → ((id : Str) (xs : Bytes) → IsStore id xs c → WasStored id xs all)
      → Brings (λ f. IsOf f.fragment_id f) x c
  call-Brings (store id owner xs expires now) h = λ path. inl (xs, h id xs (refl, refl), refl)
  call-Brings (retrieve id now) h = tt
  call-Brings (delete id) h = tt
  call-Brings (extend id expires) h = tt
  call-Brings (extend_owner owner n now) h = tt
  call-Brings (cleanup now) h = tt

  run-IsGenuine :
      (cs : List Call) (s : Node)
      → ((id : Str) (xs : Bytes) → WasStored id xs cs → WasStored id xs all)
      → IsGenuine s.manager
      → IsGenuine (run x s cs).manager
  unfolding run
  run-IsGenuine [] s sub h = h
  run-IsGenuine (c ∷ cs) s sub h =
      run-IsGenuine cs (perform x c s) (λ id xs was. sub id xs (inr was))
        (perform-keeps IsGenuine-IsPreserved x c s (call-Brings c (λ id xs is. sub id xs (inl is)))
          h)

continue-ok :
    {A B : Type 0} (r : Result P2pError A) (f : A → Action B) (s : Node) (b : B)
    → (continue r f s).0 ≡ ok b
    → (a : A) × (r ≡ ok a) × ((f a s).0 ≡ ok b)
continue-ok (ok a) f s b e = (a, refl, e)
continue-ok (err x) f s b e = absurd (ground arith)
continue-ok panic f s b e = absurd (ground arith)

check_hash-ok :
    (x : Crates) (f : StoredFragment) (xs ys : Bytes)
    → check_hash x f xs ≡ ok ys
    → to_base58 x.hashes (hash x.hashes ys) ≡ f.content_hash
check_hash-ok x f xs ys e =
    elim (Bool-cases (str_eq (to_base58 x.hashes (hash x.hashes xs)) f.content_hash)) [
      | inl same ↦
          let got : ◌≡◌ {A = Result P2pError Bytes} (ok xs) (ok ys) = sym (rw same) ∙ e in
          let eq : xs ≡ ys = cc in
          subst (λ t. to_base58 x.hashes (hash x.hashes t) ≡ f.content_hash) eq
            ((str_eq_iff (to_base58 x.hashes (hash x.hashes xs)) f.content_hash).0 same)
      | inr different ↦ absurd (ground (arith, different, e))
    ]

-- Data that is returned has the hash in the index.
retrieve_fragment-ok :
    (x : Crates) (id : Str) (now : ℤ) (s : Node) (ys : Bytes)
    → (retrieve_fragment x id now s).0 ≡ ok ys
    → (f : StoredFragment) × (lookup id s.fragment_index ≡ some f)
      × (to_base58 x.hashes (hash x.hashes ys) ≡ f.content_hash)
unfolding retrieve_fragment ◌>>=◌
retrieve_fragment-ok x id now s ys e = elim (Option-cases (lookup id s.fragment_index)) [
  | inl absent ↦
      let bad : ◌≡◌ {A = Result P2pError Bytes} (err (protocol (text "Fragment not found")))
          (ok ys) =
        rw absent at e in
      absurd (ground arith)
  | inr (f, there) ↦ elim (Bool-cases (ltb_ℤ f.expires_at now)) [
    | inl expired ↦
        let d = delete_fragment x id s in
        let stop : Unit → Action Bytes = λ _. lift (err (protocol (text "Fragment expired"))) in
        let (_, _, bad) = continue-ok d.0 stop d.1 ys (rw (there, expired) at e) in
        absurd (ground arith)
    | inr valid ↦
        let r = read (text "Failed to read fragment") (x.file_of f.local_path) s.disk in
        let n : Node = record { manager = put_fragment id (touch now f) s.manager; disk = r.1 } in
        let (xs, _, checked) =
          continue-ok r.0 (λ xs. lift (check_hash x f xs)) n ys (rw (there, valid) at e) in
        (f, there, check_hash-ok x f xs ys checked)
  ]
]

base58-injective :
    (x : Crates)
    → IsHashLib x.hashes
    → (xs ys : Bytes)
    → to_base58 x.hashes (hash x.hashes ys) ≡ to_base58 x.hashes (hash x.hashes xs)
    → hash x.hashes ys ≡ hash x.hashes xs
unfolding hash to_base58
base58-injective x laws xs ys same =
    let decoded : ◌≡◌ {A = Result Str Bytes} (ok (x.hashes.blake3 ys)) (ok (x.hashes.blake3 xs)) =
      sym (laws.base58_decode-encode (x.hashes.blake3 ys))
      ∙ ap x.hashes.base58_decode same
      ∙ laws.base58_decode-encode (x.hashes.blake3 xs) in
    let raw : x.hashes.blake3 ys ≡ x.hashes.blake3 xs = cc in ap (λ r. record { raw = r }) raw

-- From any state of a node, as a new one or one that has just been initialized, and in any history of
-- the other calls, whatever the disk does, faults in every call of it and false bytes from every read
-- included: data that the node then gives out for an id has the hash of data that was stored under that
-- id in the history, or the hash that the index had for that id at the start.
pub retrieve_fragment-genuine :
    (x : Crates)
    → IsHashLib x.hashes
    → (s : Node) (cs : List Call) (id : Str) (now : ℤ) (ys : Bytes)
    → (retrieve_fragment x id now (run x s cs)).0 ≡ ok ys
    → ((xs : Bytes) × WasStored id xs cs × (hash x.hashes ys ≡ hash x.hashes xs))
      ⊎ ((g : StoredFragment) × (lookup id s.fragment_index ≡ some g)
          × (to_base58 x.hashes (hash x.hashes ys) ≡ g.content_hash))
retrieve_fragment-genuine x laws s cs id now ys e =
    let (f, there, same) = retrieve_fragment-ok x id now (run x s cs) ys e in
    let h =
      run-IsGenuine x s.manager cs cs s (λ id xs was. was)
        (record { entries = λ id f at. inr (f, at, refl) }) in
    elim (h.entries id f there) [
      | inl (xs, was, hashed) ↦ inl (xs, was, base58-injective x laws xs ys (same ∙ hashed))
      | inr (g, at, hashed) ↦ inr (g, at, same ∙ hashed)
    ]
