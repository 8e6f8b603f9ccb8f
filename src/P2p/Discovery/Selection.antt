-- ===== src/P2p/Discovery/Selection.antt =====
-- discovery.rs: which peers `select_storage_peers` takes.
use libre_drive.Prelude.{
  ℕ, zero, suc, ◌≤◌, min, ◌≡◌, refl, ap, ◌∙◌, ◌≢◌, inl, inr, some, List, [], ◌∷◌, ◌++◌, arith, ltb,
  Bool-cases, All, length, take, drop, filter, take-append-drop, length-take,
}
use libre_drive.Prelude.Int.{ℤ}
use libre_drive.Prelude.Dict.{values}
use Prim.Native.Nat.{Ordering, compare}
use mathlib.Core.List.{Perm}
use mathlib.Core.List.Perm
use libre_drive.P2p.Discovery.Single.{Scores, IsNumeric}
use libre_drive.P2p.Discovery.{
  PeerInfo, PeerManager, score, is_candidate, place, sort_by_score, select_storage_peers,
}

module _ (fl : Scores) {IsNumber : fl.F → Type 0} (laws : IsNumeric fl IsNumber) where
  abbrev pub rank_of : PeerInfo fl.F → ℕ
  rank_of p = laws.rank (score fl p)

  abbrev pub HasNumber : PeerInfo fl.F → Type 0
  HasNumber p = IsNumber (score fl p)

  abbrev pub IsDescending : List (PeerInfo fl.F) → Type 0
  IsDescending [] = Unit
  IsDescending (p ∷ ps) = All (λ q. rank_of q ≤ rank_of p) ps × IsDescending ps

  weaken :
      (a b : ℕ) (ps : List (PeerInfo fl.F))
      → a ≤ b
      → All (λ q. rank_of q ≤ a) ps
      → All (λ q. rank_of q ≤ b) ps
  weaken a b [] h u = tt
  weaken a b (p ∷ ps) h (x, xs) = (omega arith, weaken a b ps h xs)

  record Placed (p : PeerInfo fl.F) (qs : List (PeerInfo fl.F)) : Type 0 where
    out : List (PeerInfo fl.F)
    placed : place fl p qs ≡ some out
    same : Perm out (p ∷ qs)
    longer : length out ≡ suc (length qs)
    numbers : All HasNumber out
    sorted : IsDescending out
    below : (b : ℕ) → rank_of p ≤ b → All (λ q. rank_of q ≤ b) qs → All (λ q. rank_of q ≤ b) out

  place_higher :
      (p q : PeerInfo fl.F) (qs out : List (PeerInfo fl.F))
      → fl.partial_cmp (score fl q) (score fl p) ≡ some Ordering.gt
      → place fl p qs ≡ some out
      → place fl p (q ∷ qs) ≡ some (q ∷ out)
  unfolding place
  place_higher p q qs out c r = rw (c, r)

  place_first :
      (p q : PeerInfo fl.F) (qs : List (PeerInfo fl.F)) (o : Ordering)
      → fl.partial_cmp (score fl q) (score fl p) ≡ some o
      → o ≢ Ordering.gt
      → place fl p (q ∷ qs) ≡ some (p ∷ q ∷ qs)
  unfolding place
  place_first p q qs Ordering.lt c h = rw c
  place_first p q qs Ordering.eq c h = rw c
  place_first p q qs Ordering.gt c h = absurd (h refl)

  place_lem :
      (p : PeerInfo fl.F) (qs : List (PeerInfo fl.F))
      → HasNumber p
      → All HasNumber qs
      → IsDescending qs
      → Placed p qs
  unfolding place
  place_lem p [] n ns s = record {
    out = p ∷ [];
    placed = refl;
    same = Perm.rfl;
    longer = refl;
    numbers = (n, tt);
    sorted = (tt, tt);
    below = λ b h hs. (h, tt);
  }
  place_lem p (q ∷ qs) n (nq, ns) (low, s) =
      let cmp = laws.partial_cmp-numbers (score fl q) (score fl p) nq n in
      elim (Bool-cases (ltb (rank_of p) (rank_of q))) [
        | inl higher ↦
            let r = place_lem p qs n ns s in
            let c : compare (rank_of q) (rank_of p) ≡ Ordering.gt = ground arith in
            record {
              out = q ∷ r.out;
              placed = place_higher p q qs r.out (cmp ∙ ap some c) r.placed;
              same = Perm.trans (Perm.cons q r.same) (Perm.swap p q qs);
              longer = omega (arith, r.longer);
              numbers = (nq, r.numbers);
              sorted = (r.below (rank_of q) (ground arith) low, r.sorted);
              below = λ b h hs. (hs.0, r.below b h hs.1);
            }
        | inr lower ↦ record {
          out = p ∷ q ∷ qs;
          placed =
              place_first p q qs (compare (rank_of q) (rank_of p)) cmp (λ c. absurd (ground arith));
          same = Perm.rfl;
          longer = refl;
          numbers = (n, (nq, ns));
          sorted = ((ground arith, weaken (rank_of q) (rank_of p) qs (ground arith) low), (low, s));
          below = λ b h hs. (h, hs);
        }
      ]

  sorts :
      (ps : List (PeerInfo fl.F))
      → All HasNumber ps
      → (out : List (PeerInfo fl.F)) × (sort_by_score fl ps ≡ some out)
        × Perm out ps
        × (length out ≡ length ps)
        × All HasNumber out
        × IsDescending out
  unfolding sort_by_score
  sorts [] ns = ([], refl, Perm.rfl, refl, tt, tt)
  sorts (p ∷ ps) (n, ns) =
      let (out, e, same, l, numbers, sorted) = sorts ps ns in
      let r = place_lem p out n numbers sorted in
      (
        r.out,
        rw (e, r.placed),
        Perm.trans r.same (Perm.cons p same),
        omega (arith, r.longer),
        r.numbers,
        r.sorted,
      )

  best :
      (k : ℕ) (ps : List (PeerInfo fl.F))
      → IsDescending ps
      → All (λ p. All (λ q. rank_of q ≤ rank_of p) (drop k ps)) (take k ps)
  best zero ps s = tt
  best (suc k) [] s = tt
  best (suc k) (p ∷ ps) (low, s) = (dropped k (rank_of p) ps low, best k ps s)
    where
      dropped :
          (k b : ℕ) (ps : List (PeerInfo fl.F))
          → All (λ q. rank_of q ≤ b) ps
          → All (λ q. rank_of q ≤ b) (drop k ps)
      dropped zero b ps h = h
      dropped (suc k) b [] h = tt
      dropped (suc k) b (p ∷ ps) h = dropped k b ps h.1

  first_sorted : (k : ℕ) (ps : List (PeerInfo fl.F)) → IsDescending ps → IsDescending (take k ps)
  first_sorted zero ps s = tt
  first_sorted (suc k) [] s = tt
  first_sorted (suc k) (p ∷ ps) (low, s) = (kept k (rank_of p) ps low, first_sorted k ps s)
    where
      kept :
          (k b : ℕ) (ps : List (PeerInfo fl.F))
          → All (λ q. rank_of q ≤ b) ps
          → All (λ q. rank_of q ≤ b) (take k ps)
      kept zero b ps h = tt
      kept (suc k) b [] h = tt
      kept (suc k) b (p ∷ ps) (x, h) = (x, kept k b ps h)

  -- Where the scores of all candidates are numbers, `select_storage_peers` does not panic: it divides
  -- the candidates (the peers that pass its filter) into the chosen and the others. The chosen are
  -- `count` many, or all where there are fewer, their scores descend, and none of the others scores
  -- higher than one of the chosen.
  pub select_storage_peers-best :
      (m : PeerManager fl.F) (required_bytes count : ℕ) (now : ℤ)
      → All HasNumber (filter (is_candidate fl m required_bytes now) (values m.peers))
      → (chosen others : List (PeerInfo fl.F)) × (select_storage_peers fl m required_bytes count now
          ≡ some chosen)
        × Perm (chosen ++ others) (filter (is_candidate fl m required_bytes now) (values m.peers))
        × (length chosen
            ≡ min count (length (filter (is_candidate fl m required_bytes now) (values m.peers))))
        × IsDescending chosen
        × All (λ p. All (λ q. rank_of q ≤ rank_of p) others) chosen
  unfolding select_storage_peers
  select_storage_peers-best m required_bytes count now numbers =
      let (out, e, same, l, ns, sorted) =
        sorts (filter (is_candidate fl m required_bytes now) (values m.peers)) numbers in
      (
        take count out,
        drop count out,
        rw e,
        (rw (take-append-drop count out) same),
        (length-take count out ∙ ap (min count) l),
        first_sorted count out sorted,
        best count out sorted,
      )
