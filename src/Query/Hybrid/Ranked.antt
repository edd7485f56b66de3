-- ===== src/Query/Hybrid/Ranked.antt =====
-- What a caller of `Hybrid` and `HybridExplain` gets.
use mathlib.Core.List.{Permᴰ}
use mathlib.Core.List.Permᴰ
use mathlib.Core.List.Permᴰ.{trans}
use pixkb.Base.{
  Bytes, ℕ, zero, suc, ◌+◌, ◌≤◌, ◌≡◌, refl, sym, ap, subst, false, List, [], ◌∷◌, All, All-map,
  length, take, map, arith, ok, >>=-eq-ok, ok-injective, map_err,
}
use pixkb.Text.Number.{ℤ}
use pixkb.Text.Members.{Distinct}
use pixkb.Fusion.Sort.{sort_stable, IsSorted, sort_stable-IsSorted, sort_stable-is_Permᴰ}
use pixkb.Fusion.Rank.{
  Float, IsFloat, value_at, keys, ranks_before, ranks_before-IsOrder, not_before-score,
}
use pixkb.Fusion.Keys.{Distinct-Permᴰ, Distinct-take}
use pixkb.Similar.Hits.{StoreHit, Filter}
use pixkb.Similar.Page.{count_from}
use pixkb.Query.Tokens.{Numbers}
use pixkb.Query.Hybrid.{
  Search, Noted, Explain, weigh, order_of, page_from, fused_hit, explain_of, fused_limit, fuse_arms,
  hybrid_core, search_failed, first_vector,
}
use pixkb.Query.Hybrid.Walk.{both_noted, both_noted-Distinct}

module _ (float : Float) where
  open float use {Num}

  abbrev pub hit_ids : List (StoreHit Num) → List Bytes
  hit_ids hits = map (λ h. h.id) hits

  -- the explanations are those of the hits
  abbrev pub Explains : List (StoreHit Num) → List (Explain Num) → Type 0
  Explains [] [] = Unit
  Explains [] (e ∷ es) = ⊥
  Explains (h ∷ hs) [] = ⊥
  Explains (h ∷ hs) (e ∷ es) = (e.final_score ≡ h.score) × (e.arm ≡ h.arm) × Explains hs es

  -- Hits with the ranks 1, 2, …, each id once, no more than the limit, and none behind one with a
  -- lower score; with their explanations.
  pub record IsRanked (limit : ℕ) (hits : List (StoreHit Num)) (explains : List (Explain Num))
      : Type 0 where
    pub ranked : map (λ h. h.rank) hits ≡ count_from 0 (length hits)
    pub apart : Distinct (hit_ids hits)
    pub bounded : length hits ≤ limit
    pub descending : IsSorted (λ g h. float.less h.score g.score) hits
    pub explained : Explains hits explains

module _ (to_lower : Bytes → Bytes) (numbers : Numbers) where
  open numbers use {float}

  module _ (q : Bytes) (t : Noted float.Num) (scores : List (Bytes × float.Num)) where
    abbrev page : ℕ → ℕ → List Bytes → List (StoreHit float.Num) × List (Explain float.Num)
    page i room ids = page_from to_lower numbers q t scores i room ids

    page-ranked :
        (i room : ℕ) (ids : List Bytes)
        → map (λ h. h.rank) (page i room ids).0 ≡ count_from i (length (page i room ids).0)
    unfolding page_from fused_hit
    page-ranked i room [] = refl
    page-ranked i zero (id ∷ ids) = refl
    page-ranked i (suc room) (id ∷ ids) = ap (◌∷◌ (i + 1)) (page-ranked (i + 1) room ids)

    page-ids : (i room : ℕ) (ids : List Bytes) → hit_ids float (page i room ids).0 ≡ take room ids
    unfolding page_from fused_hit
    page-ids i zero [] = refl
    page-ids i (suc room) [] = refl
    page-ids i zero (id ∷ ids) = refl
    page-ids i (suc room) (id ∷ ids) = ap (◌∷◌ id) (page-ids (i + 1) room ids)

    page-bounded : (i room : ℕ) (ids : List Bytes) → length (page i room ids).0 ≤ room
    unfolding page_from
    page-bounded i room [] = omega arith
    page-bounded i zero (id ∷ ids) = omega arith
    page-bounded i (suc room) (id ∷ ids) = omega (arith, page-bounded (i + 1) room ids)

    page-explained :
        (i room : ℕ) (ids : List Bytes) → Explains float (page i room ids).0 (page i room ids).1
    unfolding page_from fused_hit explain_of
    page-explained i room [] = tt
    page-explained i zero (id ∷ ids) = tt
    page-explained i (suc room) (id ∷ ids) = (refl, refl, page-explained (i + 1) room ids)

    page-All :
        (score : float.Num) (i room : ℕ) (ids : List Bytes)
        → All (λ y. float.less score (value_at float.zero y scores) ≡ false) ids
        → All (λ h. float.less score h.score ≡ false) (page i room ids).0
    unfolding page_from fused_hit
    page-All score i room [] a = tt
    page-All score i zero (id ∷ ids) a = tt
    page-All score i (suc room) (id ∷ ids) a = (a.0, page-All score (i + 1) room ids a.1)

    page-descending :
        (f : IsFloat float) (first_seen : List (Bytes × ℕ)) (i room : ℕ) (ids : List Bytes)
        → IsSorted (ranks_before float scores first_seen) ids
        → IsSorted (λ g h. float.less h.score g.score) (page i room ids).0
    unfolding page_from fused_hit
    page-descending f first_seen i room [] s = tt
    page-descending f first_seen i zero (id ∷ ids) s = tt
    page-descending f first_seen i (suc room) (id ∷ ids) s = (
      page-All (value_at float.zero id scores) (i + 1) room ids
          (All-map (λ y. not_before-score float f scores first_seen id y) ids s.0),
      page-descending f first_seen (i + 1) room ids s.1,
    )

  module _ (walk : List Bytes → List Bytes) where
    fuse_arms-IsRanked :
        (q : Bytes) (limit : ℤ) (fts_hits vec_hits : List (StoreHit float.Num))
        → IsFloat float
        → ((ids : List Bytes) → Permᴰ (walk ids) ids)
        → let out = fuse_arms to_lower numbers walk q limit fts_hits vec_hits in
          IsRanked float (fused_limit limit) out.0 out.1
    unfolding fuse_arms order_of both_noted
    fuse_arms-IsRanked q limit fts_hits vec_hits f w =
        let t = both_noted to_lower numbers fts_hits vec_hits in
        let ids = keys t.scores in
        let s = weigh to_lower numbers q t (walk ids) t.scores in
        let less = ranks_before float s t.first_seen in
        let sorted = sort_stable less (walk ids) in
        let room = fused_limit limit in
        let once : Distinct sorted =
          Distinct-Permᴰ (Permᴰ.symm (trans (sort_stable-is_Permᴰ less (walk ids)) (w ids)))
            (both_noted-Distinct to_lower numbers fts_hits vec_hits) in
        record {
          ranked = page-ranked q t s 0 room sorted;
          apart =
              subst Distinct (sym (page-ids q t s 0 room sorted)) (Distinct-take room sorted once);
          bounded = page-bounded q t s 0 room sorted;
          descending =
              page-descending q t s f t.first_seen 0 room sorted (
                sort_stable-IsSorted less (ranks_before-IsOrder float f s t.first_seen) (walk ids));
          explained = page-explained q t s 0 room sorted;
        }

    -- Where `HybridExplain` succeeds, its hits have the ranks 1, 2, …, each id stands once, there are
    -- no more than the limit, or 20 where none is given, no hit stands behind one with a lower score,
    -- and each has its explanation, with its score and its arm, at the same place.
    pub hybrid_core-IsRanked :
        (s : Search float.Num) (q : Bytes) (filter : Filter s.Time)
        (hits : List (StoreHit float.Num)) (explains : List (Explain float.Num))
        → IsFloat float
        → ((ids : List Bytes) → Permᴰ (walk ids) ids)
        → hybrid_core to_lower numbers walk s q filter ≡ ok (hits, explains)
        → IsRanked float (fused_limit filter.limit) hits explains
    unfolding hybrid_core
    hybrid_core-IsRanked s q filter hits explains f w h =
        let (fts_hits, e1, h1) = >>=-eq-ok (map_err search_failed (s.fts q filter)) _ h in
        let (vecs, e2, h2) = >>=-eq-ok (map_err search_failed (s.embed q)) _ h1 in
        let (vec, e3, h3) = >>=-eq-ok (first_vector to_lower numbers walk s vecs) _ h2 in
        let (vec_hits, e4, h4) = >>=-eq-ok (map_err search_failed (s.vector vec filter)) _ h3 in
        subst (λ out. IsRanked float (fused_limit filter.limit) out.0 out.1) (ok-injective h4)
          (fuse_arms-IsRanked q filter.limit fts_hits vec_hits f w)
