-- ===== src/Evalkit/Metrics/Best.antt =====
-- The rank that `BestRank` finds.
use pixkb.Base.{
  Bytes, ℕ, ◌≤◌, ◌<◌, ◌≡◌, sym, ap, subst, Bool, true, false, ◌&&◌, ◌||◌, List, [], ◌∷◌, All, arith,
  Bool-cases, ◌==◌, inl, inr, if◌then◌else◌,
}
use pixkb.Text.Members.{mem}
use pixkb.Similar.Hits.{StoreHit}
use pixkb.Evalkit.Metrics.{better, best_from, best_rank}

module _ {Score : Type 0} where
  -- A wanted hit has the rank.
  unfoldable pub attained : ℕ → List Bytes → List (StoreHit Score) → Bool
  unfolding mem
  attained n want [] = false
  attained n want (h ∷ hs) = mem h.id want && (h.rank == n) || attained n want hs

  -- The rank is not 0, and no wanted hit has a lower one.
  abbrev pub AtBest : ℕ → List Bytes → StoreHit Score → Type 0
  AtBest n want h = mem h.id want ≡ true → (0 < n) × (n ≤ h.rank)

  taken-low :
      (want : List Bytes) (best : ℕ) (h : StoreHit Score) (n : ℕ)
      → 0 < h.rank
      → better want best h ≡ true
      → (0 < h.rank → (0 < n) × (n ≤ h.rank))
      → 0 < best
      → (0 < n) × (n ≤ best)
  unfolding better
  taken-low want best h n p t low q = let (pos, le) = low p in (pos, ground arith)

  taken-attained :
      (want : List Bytes) (best : ℕ) (h : StoreHit Score) (n : ℕ) (rest : Bool)
      → better want best h ≡ true
      → ((n == h.rank) || rest) ≡ true
      → ((n == best) || (mem h.id want && (h.rank == n) || rest)) ≡ true
  unfolding better
  taken-attained want best h n rest t met = ground arith

  kept-low :
      (want : List Bytes) (best : ℕ) (h : StoreHit Score) (n : ℕ)
      → 0 < h.rank
      → better want best h ≡ false
      → (0 < best → (0 < n) × (n ≤ best))
      → AtBest n want h
  unfolding better
  kept-low want best h n p f low m =
      let q : 0 < best = ground arith in let (pos, le) = low q in (pos, ground arith)

  -- what the loop keeps of the rank n that it ends with
  abbrev Ends : List Bytes → ℕ → List (StoreHit Score) → ℕ → Type 0
  Ends want best hits n =
      (0 < best → (0 < n) × (n ≤ best))
      × All (AtBest n want) hits
      × (((n == best) || attained n want hits) ≡ true)

  best_from-Ends :
      (want : List Bytes) (best : ℕ) (hits : List (StoreHit Score))
      → All (λ h. 0 < h.rank) hits
      → Ends want best hits (best_from want best hits)
  unfolding best_from attained
  best_from-Ends want best [] h = (λ p. (p, ground arith), tt, ground arith)
  best_from-Ends want best (hit ∷ hits) (p, h) = elim (Bool-cases (better want best hit)) [
    | inl t ↦
        let (low, each, met) = best_from-Ends want hit.rank hits h in
        subst (Ends want best (hit ∷ hits))
          (ap (λ b. best_from want (if b then hit.rank else best) hits) (sym t))
          (
            taken-low want best hit (best_from want hit.rank hits) p t low,
            ((λ m. low p), each),
            taken-attained want best hit (best_from want hit.rank hits)
                (attained (best_from want hit.rank hits) want hits) t met,
          )
    | inr f ↦
        let (low, each, met) = best_from-Ends want best hits h in
        subst (Ends want best (hit ∷ hits))
          (ap (λ b. best_from want (if b then hit.rank else best) hits) (sym f))
          (
            low,
            (kept-low want best hit (best_from want best hits) p f low, each),
            ground (arith, met),
          )
  ]

  -- With ranks from 1 on: `BestRank` gives 0 where no hit is wanted, and otherwise the rank of a
  -- wanted hit, such that no wanted hit has a lower one.
  pub best_rank-IsBest :
      (hits : List (StoreHit Score)) (want : List Bytes)
      → All (λ h. 0 < h.rank) hits
      → All (AtBest (best_rank hits want) want) hits
        × ((best_rank hits want == 0) || attained (best_rank hits want) want hits ≡ true)
  unfolding best_rank
  best_rank-IsBest hits want h = let (low, each, met) = best_from-Ends want 0 hits h in (each, met)
