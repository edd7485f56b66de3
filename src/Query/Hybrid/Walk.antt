-- ===== src/Query/Hybrid/Walk.antt =====
-- The order in which Go walks the map of scores does not show.
use mathlib.Core.List.{Permᴰ}
use mathlib.Core.List.Permᴰ
use mathlib.Core.List.Permᴰ.{trans}
use pixkb.Base.{
  Bytes, ℕ, ◌+◌, ◌≡◌, refl, ap, ◌∙◌, Bool, not, List, [], ◌∷◌, if◌then◌else◌, ◌==◌, ltb, ok, ◌>>=◌,
  map_err,
}
use pixkb.Text.Number.{ℤ}
use pixkb.Text.Members.{Distinct}
use pixkb.Fusion.Sort.{sort_stable, sort_stable-Permᴰ}
use pixkb.Fusion.Rank.{IsFloat, value_at, keys, text_less, ranks_before, ranks_before-IsOrder}
use pixkb.Fusion.Keys.{Distinct-set, Distinct-Permᴰ}
use pixkb.Similar.Hits.{StoreHit, Filter}
use pixkb.Query.Tokens.{Numbers}
use pixkb.Query.Hybrid.{
  Search, Noted, nothing_noted, note, note_official, note_fts, note_vec, above_floor, weigh,
  order_of, page_from, fused_limit, fuse_arms, hybrid_core, search_failed, first_vector,
}
use pixkb.Query.Hybrid.Weighed.{weigh-Permᴰ, page_from-scores}

module _ (to_lower : Bytes → Bytes) (numbers : Numbers) where
  open numbers use {float}

  note-Distinct :
      (h : StoreHit float.Num) (rank : ℕ) (t : Noted float.Num)
      → Distinct (keys t.scores)
      → Distinct (keys (note to_lower numbers h rank t).scores)
  unfolding note
  note-Distinct h rank t d =
      Distinct-set h.id
        (float.add (value_at float.zero h.id t.scores) (float.reciprocal (60 + rank))) t.scores d

  note_fts-Distinct :
      (i : ℕ) (hs : List (StoreHit float.Num)) (t : Noted float.Num)
      → Distinct (keys t.scores)
      → Distinct (keys (note_fts to_lower numbers i hs t).scores)
  unfolding note_fts note_official
  note_fts-Distinct i [] t d = d
  note_fts-Distinct i (h ∷ hs) t d = note_fts-Distinct (i + 1) hs _ (note-Distinct h i t d)

  note_vec-Distinct :
      (i : ℕ) (hs : List (StoreHit float.Num)) (t : Noted float.Num)
      → Distinct (keys t.scores)
      → Distinct (keys (note_vec to_lower numbers i hs t).scores)
  unfolding note_vec note_official
  note_vec-Distinct i [] t d = d
  note_vec-Distinct i (h ∷ hs) t d = note_vec-Distinct (i + 1) hs _ (note-Distinct h i t d)

  -- what both arms have noted
  unfoldable pub both_noted :
      List (StoreHit float.Num) → List (StoreHit float.Num) → Noted float.Num
  both_noted fts_hits vec_hits =
      note_vec to_lower numbers 0 (above_floor to_lower numbers vec_hits)
        (note_fts to_lower numbers 0 fts_hits nothing_noted)

  pub both_noted-Distinct :
      (fts_hits vec_hits : List (StoreHit float.Num))
      → Distinct (keys (both_noted fts_hits vec_hits).scores)
  unfolding both_noted keys
  both_noted-Distinct fts_hits vec_hits =
      note_vec-Distinct 0 (above_floor to_lower numbers vec_hits) _
        (note_fts-Distinct 0 fts_hits nothing_noted tt)

  -- The order depends on the score of each id only.
  ranks_before-scores :
      (s s' : List (Bytes × float.Num)) (first_seen : List (Bytes × ℕ))
      → ((x : Bytes) → value_at float.zero x s ≡ value_at float.zero x s')
      → ranks_before float s first_seen ≡ ranks_before float s' first_seen
  unfolding ranks_before
  ranks_before-scores s s' first_seen h =
      let pointwise = λ (x y : Bytes).
        compared (value_at float.zero x s) (value_at float.zero x s') (value_at float.zero y s)
          (value_at float.zero y s') (value_at 0 x first_seen) (value_at 0 y first_seen)
          (text_less x y) (h x) (h y) in
      λ j x y. pointwise x y j
    where
      compared :
          (a a' b b' : float.Num) (m n : ℕ) (rest : Bool)
          → a ≡ a'
          → b ≡ b'
          → (if not (float.same a b)
              then float.less b a
              else if not (m == n)
              then ltb m n
              else rest)
            ≡ (if not (float.same a' b')
                then float.less b' a'
                else if not (m == n)
                then ltb m n
                else rest)
      compared a a' b b' m n rest p q = rw (p, q) refl

  -- The fusion of the two arms gives the same hits with the same explanations, in whatever order the
  -- map of scores is walked.
  pub fuse_arms-walk :
      (walk walk' : List Bytes → List Bytes) (q : Bytes) (limit : ℤ)
      (fts_hits vec_hits : List (StoreHit float.Num))
      → IsFloat float
      → ((ids : List Bytes) → Permᴰ (walk ids) ids)
      → ((ids : List Bytes) → Permᴰ (walk' ids) ids)
      → fuse_arms to_lower numbers walk q limit fts_hits vec_hits
        ≡ fuse_arms to_lower numbers walk' q limit fts_hits vec_hits
  unfolding fuse_arms order_of both_noted
  fuse_arms-walk walk walk' q limit fts_hits vec_hits f w w' =
      let t = both_noted fts_hits vec_hits in
      let d = both_noted-Distinct fts_hits vec_hits in
      let ids = keys t.scores in
      let p : Permᴰ (walk ids) (walk' ids) = trans (w ids) (Permᴰ.symm (w' ids)) in
      let s = weigh to_lower numbers q t (walk ids) t.scores in
      let s' = weigh to_lower numbers q t (walk' ids) t.scores in
      let same : (x : Bytes) → value_at float.zero x s ≡ value_at float.zero x s' = λ x.
        weigh-Permᴰ to_lower numbers q t x (walk ids) (walk' ids) t.scores p
          (Distinct-Permᴰ (Permᴰ.symm (w ids)) d) in
      let less = ranks_before float s t.first_seen in
      let sorted =
        sort_stable-Permᴰ less (ranks_before-IsOrder float f s t.first_seen) p
        ∙ ap (λ l. sort_stable l (walk' ids)) (ranks_before-scores s s' t.first_seen same) in
      ap (page_from to_lower numbers q t s 0 (fused_limit limit)) sorted
      ∙ page_from-scores to_lower numbers q t s s' 0 (fused_limit limit)
          (sort_stable (ranks_before float s' t.first_seen) (walk' ids)) same

  -- `HybridExplain` gives the same result, in whatever order the map of scores is walked.
  pub hybrid_core-walk :
      (walk walk' : List Bytes → List Bytes) (s : Search float.Num) (q : Bytes)
      (filter : Filter s.Time)
      → IsFloat float
      → ((ids : List Bytes) → Permᴰ (walk ids) ids)
      → ((ids : List Bytes) → Permᴰ (walk' ids) ids)
      → hybrid_core to_lower numbers walk s q filter ≡ hybrid_core to_lower numbers walk' s q filter
  unfolding hybrid_core first_vector
  hybrid_core-walk walk walk' s q filter f w w' = λ j. do
    fts_hits ← map_err search_failed (s.fts q filter)
    vecs ← map_err search_failed (s.embed q)
    vec ← first_vector to_lower numbers walk s vecs
    vec_hits ← map_err search_failed (s.vector vec filter)
    ok (fuse_arms-walk walk walk' q filter.limit fts_hits vec_hits f w w' j)
