-- ===== src/Similar/Dispatch/Modes.antt =====
-- The result of `Similar` in every mode.
use pixkb.Base.{
  Bytes, codes, ℕ, ◌≡◌, refl, subst, Bool, true, false, List, [], ◌∷◌, All, length, take,
  if◌then◌else◌, Bool-cases, inl, inr, Result, ok, err, ◌>>=◌, >>=-eq-ok, ok-injective, err-ne-ok,
  ltb, ltb_false→le,
}
use pixkb.Text.Ascii.{equal}
use pixkb.Fusion.Rank.{Float}
use pixkb.Similar.Hits.{Hit, Concept, Sources, Error, unknown_mode}
use pixkb.Similar.Select.{limit_of}
use pixkb.Similar.Signals.{semantic_similar, graph_similar, more_like_this}
use pixkb.Similar.Page.{IsPage}
use pixkb.Similar.Dispatch.{Options, fuse, graph_lists, tag_fused, cut, hybrid_similar, similar}
use pixkb.Similar.Dispatch.Page.{
  semantic_similar-IsPage, graph_similar-IsPage, more_like_this-IsPage,
}
use pixkb.Similar.Dispatch.Hybrid.{
  Others, Ranked, fuse-Others, tag_domain-Others, take-Others, Ranked-IsPage,
}
use mathlib.Core.List.{Permᴰ}

module _ (float : Float) (walk : List Bytes → List Bytes) (sources : Sources float.Num)
    (to_valid : Bytes → Bytes) where
  open float use {Num}
  open sources use {Time, Failure, read_concept}

  graph_lists-Others :
      (id : Bytes) (opts : Options Time) {lists : List (List (Hit Num))}
      → graph_lists float walk sources to_valid id opts ≡ ok lists
      → All (λ hs. Others float id hs) lists
  unfolding graph_lists
  graph_lists-Others id opts {lists} e = go opts.include_graph e
    where
      go :
          (b : Bool)
          → (if b then (do gr ← graph_similar sources id opts.filter; ok (gr ∷ [])) else ok [])
            ≡ ok lists
          → All (λ hs. Others float id hs) lists
      go false e = subst (λ l. All (λ hs. Others float id hs) l) (ok-injective e) tt
      go true e =
          let (gr, gr_ok, e₁) = >>=-eq-ok (graph_similar sources id opts.filter) _ e in
          subst (λ l. All (λ hs. Others float id hs) l) (ok-injective e₁)
            ((graph_similar-IsPage sources id opts.filter gr_ok).others, tt)

  tag_fused-Others :
      (id : Bytes) (r : Result Failure (Concept Time)) (hs : List (Hit Num))
      → Others float id hs
      → Ranked float id 0 hs
      → Others float id (tag_fused float walk sources to_valid r hs)
        × Ranked float id 0 (tag_fused float walk sources to_valid r hs)
  unfolding tag_fused
  tag_fused-Others id (ok c) hs a r = tag_domain-Others float id c.type hs a r
  tag_fused-Others id (err e) hs a r = (a, r)

  cut-IsPage :
      (id : Bytes) (limit : ℕ) (hs : List (Hit Num))
      → Others float id hs
      → Ranked float id 0 hs
      → IsPage id limit (cut float walk sources to_valid limit hs)
  unfolding cut
  cut-IsPage id limit hs a r = elim (Bool-cases (ltb limit (length hs))) [
    | inl t ↦
        let kept = take-Others float id limit 0 hs a r in
        rw t (Ranked-IsPage float id limit (take limit hs) kept.0 kept.1 kept.2)
    | inr f ↦ rw f (Ranked-IsPage float id limit hs a r (ltb_false→le _ _ f))
  ]

  hybrid_similar-IsPage :
      (id : Bytes) (opts : Options Time) {out : List (Hit Num)}
      → ((ids : List Bytes) → Permᴰ (walk ids) ids)
      → hybrid_similar float walk sources to_valid id opts ≡ ok out
      → IsPage id (limit_of opts.filter.limit) out
  unfolding hybrid_similar
  hybrid_similar-IsPage id opts w e =
      let (sem, sem_ok, e₁) = >>=-eq-ok (semantic_similar sources id opts.filter) _ e in
      let (mlt, mlt_ok, e₂) = >>=-eq-ok (more_like_this sources to_valid id opts.filter) _ e₁ in
      let (gr, gr_ok, e₃) = >>=-eq-ok (graph_lists float walk sources to_valid id opts) _ e₂ in
      let sem_page = semantic_similar-IsPage sources id opts.filter sem_ok in
      let mlt_page = more_like_this-IsPage sources to_valid id opts.filter mlt_ok in
      let lists = sem ∷ mlt ∷ gr in
      let fused =
        fuse-Others float id walk lists w
          (sem_page.others, (mlt_page.others, graph_lists-Others id opts gr_ok)) in
      let tagged = tag_fused-Others id (read_concept id) (fuse float walk lists) fused.0 fused.1 in
      subst (IsPage id (limit_of opts.filter.limit)) (ok-injective e₃)
        (cut-IsPage id (limit_of opts.filter.limit) _ tagged.0 tagged.1)

  -- In every mode, the hits are for other concepts than the given one, there are no more of them
  -- than the limit, and their ranks count from 1, whatever order the maps are walked in.
  pub similar-IsPage :
      (id : Bytes) (opts : Options Time) {out : List (Hit Num)}
      → ((ids : List Bytes) → Permᴰ (walk ids) ids)
      → similar float walk sources to_valid id opts ≡ ok out
      → IsPage id (limit_of opts.filter.limit) out
  unfolding similar
  similar-IsPage id opts {out} w e = elim (Bool-cases (equal opts.mode (codes "semantic"))) [
    | inl t ↦ semantic_similar-IsPage sources id opts.filter (rw (← e) (rw t refl))
    | inr f₁ ↦ elim (Bool-cases (equal opts.mode (codes "graph"))) [
      | inl t ↦ graph_similar-IsPage sources id opts.filter (rw (← e) (rw (f₁, t) refl))
      | inr f₂ ↦ elim (Bool-cases (equal opts.mode (codes "more-like-this"))) [
        | inl t ↦
            more_like_this-IsPage sources to_valid id opts.filter (rw (← e) (rw (f₁, f₂, t) refl))
        | inr f₃ ↦ elim (Bool-cases (equal opts.mode (codes "hybrid"))) [
          | inl t ↦ hybrid_similar-IsPage id opts w (rw (← e) (rw (f₁, f₂, f₃, t) refl))
          | inr f₄ ↦ absurd (
              err-ne-ok {E = Error Failure} {e = unknown_mode opts.mode} {a = out}
                (rw (← e) (rw (f₁, f₂, f₃, f₄) refl)))
        ]
      ]
    ]
  ]
