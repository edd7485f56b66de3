-- ===== src/Fusion/Rrf.antt =====
-- `RRF` of internal/embed/rrf.go. The order in which Go walks a map is the parameter `walk`.
pub mod Keys
pub mod Scored
pub mod Ordered
use pixkb.Base.{
  Bytes, ℕ, suc, ◌+◌, ◌≡◌, refl, sym, ap, ◌∙◌, subst, List, [], ◌∷◌, ◌++◌, if◌then◌else◌,
  Bool-cases, inl, inr,
}
use pixkb.Text.Ascii.{equal}
use pixkb.Text.Number.{ℤ, pos}
use pixkb.Fusion.Sort.{
  sort_stable, IsSorted, sort_stable-Permᴰ, sort_stable-IsSorted, sort_stable-is_Permᴰ,
}
use pixkb.Fusion.Rank.{Float, IsFloat, value_at, has, set, keys, ranks_before, ranks_before-IsOrder}
use mathlib.Core.List.{Permᴰ}
use mathlib.Core.List.Permᴰ
use mathlib.Core.List.Permᴰ.{trans}

-- `scores`, `firstSeen` and `order`
pub record Tally (Num : Type 0) : Type 0 where
  pub scores : List (Bytes × Num)
  pub first_seen : List (Bytes × ℕ)
  pub order : ℕ

-- A non-positive `k` is 60.
unfoldable pub offset : ℤ → ℕ
offset (pos (suc n)) = suc n
offset _ = 60

module _ (float : Float) where
  open float use {Num, add, reciprocal}

  -- the body of the inner loop
  unfoldable pub count_id : ℕ → Bytes → Tally Num → Tally Num
  count_id n id t = record {
    scores = set id (add (value_at float.zero id t.scores) (reciprocal n)) t.scores;
    first_seen = if has id t.first_seen then t.first_seen else set id t.order t.first_seen;
    order = if has id t.first_seen then t.order else t.order + 1;
  }

  -- the loop over one list, `n` for `k+rank`
  unfoldable pub count_list : ℕ → List Bytes → Tally Num → Tally Num
  unfolding count_id
  count_list n [] t = t
  count_list n (id ∷ ids) t = count_list (suc n) ids (count_id n id t)

  unfoldable pub count_lists : ℕ → List (List Bytes) → Tally Num → Tally Num
  unfolding count_list
  count_lists k [] t = t
  count_lists k (list ∷ lists) t = count_lists k lists (count_list k list t)

  unfoldable pub tally : List (List Bytes) → ℤ → Tally Num
  unfolding count_lists
  tally lists k = count_lists (offset k) lists (record { scores = []; first_seen = []; order = 0 })

  unfoldable pub rrf : (List Bytes → List Bytes) → List (List Bytes) → ℤ → List Bytes
  unfolding tally
  rrf walk lists k =
      let t = tally lists k in
      sort_stable (ranks_before float t.scores t.first_seen) (walk (keys t.scores))

  -- The result does not depend on the order in which the map is walked.
  pub rrf-walk :
      (walk walk' : List Bytes → List Bytes) (lists : List (List Bytes)) (k : ℤ)
      → IsFloat float
      → ((ids : List Bytes) → Permᴰ (walk ids) ids)
      → ((ids : List Bytes) → Permᴰ (walk' ids) ids)
      → rrf walk lists k ≡ rrf walk' lists k
  unfolding rrf
  rrf-walk walk walk' lists k f w w' =
      let t = tally lists k in
      let ids = keys t.scores in
      sort_stable-Permᴰ (ranks_before float t.scores t.first_seen)
        (ranks_before-IsOrder float f t.scores t.first_seen) (trans (w ids) (Permᴰ.symm (w' ids)))
