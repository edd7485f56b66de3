-- ===== src/Evalkit/Metrics.antt =====
-- internal/evalkit/metrics.go. A set of ids is the list of them.
pub mod Best
use pixkb.Base.{
  Bytes, ℕ, ◌+◌, Bool, false, ◌&&◌, ◌||◌, List, [], ◌∷◌, Option, none, some, length, ltb, ◌==◌,
  if◌then◌else◌,
}
use pixkb.Text.Members.{mem}
use pixkb.Fusion.Rank.{value_at}
use pixkb.Similar.Hits.{StoreHit}

-- the loop over the wanted ids
unfoldable pub found_from : ℕ → List Bytes → List Bytes → ℕ
unfolding mem
found_from found ids [] = found
found_from found ids (id ∷ want) = found_from (if mem id ids then found + 1 else found) ids want

module _ {Score : Type 0} where
  -- `present`
  unfoldable pub present : List (StoreHit Score) → List Bytes
  present [] = []
  present (h ∷ hs) = h.id ∷ present hs

  -- `Coverage`
  unfoldable pub coverage : List (StoreHit Score) → List Bytes → ℕ × ℕ
  unfolding present found_from
  coverage hits want = (found_from 0 (present hits) want, length want)

  unfoldable pub better : List Bytes → ℕ → StoreHit Score → Bool
  unfolding mem
  better want best h = mem h.id want && (best == 0 || ltb h.rank best)

  -- the loop over the hits
  unfoldable pub best_from : List Bytes → ℕ → List (StoreHit Score) → ℕ
  unfolding better
  best_from want best [] = best
  best_from want best (h ∷ hs) = best_from want (if better want best h then h.rank else best) hs

  -- `BestRank`
  unfoldable pub best_rank : List (StoreHit Score) → List Bytes → ℕ
  unfolding best_from
  best_rank hits want = best_from want 0 hits

  -- `ForbiddenPresent`; a missing id is not forbidden
  unfoldable pub forbidden_present : List (StoreHit Score) → List (Bytes × Bool) → List Bytes
  unfolding value_at
  forbidden_present [] forbidden = []
  forbidden_present (h ∷ hs) forbidden =
      let rest : List Bytes = forbidden_present hs forbidden in
      if value_at false h.id forbidden then h.id ∷ rest else rest
