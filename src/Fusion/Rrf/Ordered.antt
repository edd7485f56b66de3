-- ===== src/Fusion/Rrf/Ordered.antt =====
-- The order of the ids that `RRF` gives.
use mathlib.Core.List.{Permᴰ}
use mathlib.Core.List.Permᴰ
use mathlib.Core.List.Permᴰ.{trans}
use pixkb.Base.{
  Bytes, ℕ, ◌≤◌, ◌≡◌, sym, subst, Bool, true, false, List, [], ◌∷◌, All, arith, ◌⊎◌, inl, inr,
  Bool-cases,
}
use pixkb.Text.Ascii.{equal}
use pixkb.Text.Ascii.Equal.{equal_refl}
use pixkb.Text.Number.{ℤ}
use pixkb.Text.Members.{mem, Distinct}
use pixkb.Fusion.Sort.{IsSorted, sort_stable, sort_stable-IsSorted, sort_stable-is_Permᴰ}
use pixkb.Fusion.Rank.{Float, IsFloat, value_at, keys, ranks_before, ranks_before-IsOrder}
use pixkb.Fusion.Keys.{Distinct-Permᴰ}
use pixkb.Fusion.Rrf.{tally, rrf}
use pixkb.Fusion.Rrf.Keys.{distinct_from, concat, keys-tally}
use pixkb.Fusion.Rrf.Scored.{place, score, tally-score, tally-place, tally-Distinct}

module _ (float : Float) where
  open float use {Num, less}

  -- The first id has the greater score, or the same one and an earlier first place.
  abbrev pub Precedes : List (List Bytes) → ℤ → Bytes → Bytes → Type 0
  Precedes lists k x y =
      (less (score float lists k y) (score float lists k x) ≡ true)
      ⊎ ((score float lists k x ≡ score float lists k y) × (place lists x ≤ place lists y))

  -- Each id precedes all behind it.
  abbrev pub InOrder : List (List Bytes) → ℤ → List Bytes → Type 0
  InOrder lists k [] = Unit
  InOrder lists k (x ∷ xs) = All (Precedes lists k x) xs × InOrder lists k xs

  by_keys :
      (scores : List (Bytes × Num)) (first_seen : List (Bytes × ℕ)) (x y : Bytes)
      → IsFloat float
      → ranks_before float scores first_seen x y ≡ true
      → (less (value_at float.zero y scores) (value_at float.zero x scores) ≡ true)
        ⊎ ((value_at float.zero x scores ≡ value_at float.zero y scores)
            × (value_at 0 x first_seen ≤ value_at 0 y first_seen))
  unfolding ranks_before
  by_keys scores first_seen x y f h =
      elim (Bool-cases (float.same (value_at float.zero x scores) (value_at float.zero y scores))) [
        | inr other ↦ inl (ground (arith, h, other))
        | inl same ↦ inr (
          (f.same_iff (value_at float.zero x scores) (value_at float.zero y scores)).0 same,
          ground (arith, h, same),
        )
      ]

  module _ (lists : List (List Bytes)) (k : ℤ) (f : IsFloat float) where
    before : Bytes → Bytes → Bool
    before = ranks_before float (tally float lists k).scores (tally float lists k).first_seen

    before-Precedes : (x y : Bytes) → before x y ≡ true → Precedes lists k x y
    unfolding before
    before-Precedes x y h =
        rw
          (
            ← tally-score float lists k x,
            ← tally-score float lists k y,
            ← tally-place float lists k x,
            ← tally-place float lists k y,
          )
          (by_keys (tally float lists k).scores (tally float lists k).first_seen x y f h)

    all_precede :
        (x : Bytes) (xs : List Bytes)
        → mem x xs ≡ false
        → All (λ y. before y x ≡ false) xs
        → All (Precedes lists k x) xs
    unfolding mem before
    all_precede x [] m h = tt
    all_precede x (y ∷ ys) m (n, h) = (
      elim ((ranks_before-IsOrder float f (tally float lists k).scores
            (tally float lists k).first_seen).total
          x y) [
            | inl same ↦ absurd (differ (ground (arith, m)) same)
            | inr (inl t) ↦ before-Precedes x y t
            | inr (inr t) ↦ cc (t, n)
          ],
      all_precede x ys (ground (arith, m)) h,
    )
      where
        differ : {x y : Bytes} → equal y x ≡ false → x ≡ y → ⊥
        differ {x} {y} h e = cc (subst (λ z. equal z x ≡ false) (sym e) h, equal_refl x)

    sorted-InOrder : (xs : List Bytes) → Distinct xs → IsSorted before xs → InOrder lists k xs
    sorted-InOrder [] d s = tt
    sorted-InOrder (x ∷ xs) d s = (all_precede x xs d.0 s.0, sorted-InOrder xs d.1 s.1)

  -- For comparisons of numbers other than NaN and whatever order the map is walked in, the result has
  -- each id of the lists once; and of two ids the one in front has the greater sum of 1/(k + rank)
  -- over the places it stands at, or the same sum and an earlier first place in the lists.
  pub rrf-InOrder :
      (walk : List Bytes → List Bytes) (lists : List (List Bytes)) (k : ℤ)
      → IsFloat float
      → ((ids : List Bytes) → Permᴰ (walk ids) ids)
      → Permᴰ (rrf float walk lists k) (distinct_from [] (concat lists))
        × InOrder lists k (rrf float walk lists k)
  unfolding rrf before
  rrf-InOrder walk lists k f w =
      let t = tally float lists k in
      let ids = keys t.scores in
      let less_than = ranks_before float t.scores t.first_seen in
      let sorted = sort_stable less_than (walk ids) in
      let p : Permᴰ sorted ids = trans (sort_stable-is_Permᴰ less_than (walk ids)) (w ids) in
      (
        subst (λ l. Permᴰ sorted l) (keys-tally float lists k) p,
        sorted-InOrder lists k f sorted
            (Distinct-Permᴰ (Permᴰ.symm p) (tally-Distinct float lists k))
            (sort_stable-IsSorted less_than (ranks_before-IsOrder float f t.scores t.first_seen)
              (walk ids)),
      )
