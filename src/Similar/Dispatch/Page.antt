-- ===== src/Similar/Dispatch/Page.antt =====
-- The result of each mode.
use pixkb.Base.{
  Bytes, ℕ, ◌-◌, ◌≤◌, ◌≡◌, subst, false, List, [], ◌∷◌, All, length, not, ◌&&◌, ◌==◌, arith,
  Bool-cases, inl, inr, ok, >>=-eq-ok, ok-injective, map_err,
}
use pixkb.Text.Ascii.{equal, is_empty}
use pixkb.Similar.Hits.{
  StoreHit, Hit, Filter, RelatedConcept, Sources, embedding_failed, vector_failed, related_failed,
  read_failed, hybrid_failed,
}
use pixkb.Similar.Select.{limit_of, with_headroom, select, tag_and_exclude}
use pixkb.Similar.Signals.{
  semantic, semantic_similar, graph_hit, neighbours, graph_similar, why_from_arm, more_like_this,
  query_of,
}
use pixkb.Similar.Page.{IsPage, renumber-IsPage, select-others, select-bounded, one-le-limit_of}

module _ {Score : Type 0} (sources : Sources Score) where
  open sources use {Time, Failure, get_embedding, vector, related, hybrid, read_concept}

  abbrev pub Others : Bytes → List (Hit Score) → Type 0
  Others id hs = All (λ h. equal h.hit.id id ≡ false) hs

  neighbours-Others :
      (id type : Bytes) (room : ℕ) (rs : List RelatedConcept)
      → Others id (neighbours sources id type room rs)
  unfolding neighbours graph_hit
  neighbours-Others id type room [] = tt
  neighbours-Others id type room (r ∷ rs) = elim (Bool-cases (equal r.id id)) [
    | inl t ↦ rw t (neighbours-Others id type room rs)
    | inr f ↦ elim (Bool-cases (not (is_empty type) && not (equal r.type type))) [
      | inl skip ↦ rw (f, skip) (neighbours-Others id type room rs)
      | inr kept ↦ elim (Bool-cases (room == 1)) [
        | inl last ↦ rw (f, kept, last) (f, tt)
        | inr more ↦ rw (f, kept, more) (f, neighbours-Others id type (room - 1) rs)
      ]
    ]
  ]

  neighbours-bounded :
      (id type : Bytes) (room : ℕ) (rs : List RelatedConcept)
      → 1 ≤ room
      → length (neighbours sources id type room rs) ≤ room
  unfolding neighbours
  neighbours-bounded id type room [] h = omega arith
  neighbours-bounded id type room (r ∷ rs) h = elim (Bool-cases (equal r.id id)) [
    | inl t ↦ rw t (neighbours-bounded id type room rs h)
    | inr f ↦ elim (Bool-cases (not (is_empty type) && not (equal r.type type))) [
      | inl skip ↦ rw (f, skip) (neighbours-bounded id type room rs h)
      | inr kept ↦ elim (Bool-cases (room == 1)) [
        | inl last ↦ rw (f, kept, last) h
        | inr more ↦
            let left : 1 ≤ room - 1 = ground (arith, more, h) in
            rw (f, kept, more) (omega (arith, neighbours-bounded id type (room - 1) rs left))
      ]
    ]
  ]

  pub semantic_similar-IsPage :
      (id : Bytes) (f : Filter Time) {out : List (Hit Score)}
      → semantic_similar sources id f ≡ ok out
      → IsPage id (limit_of f.limit) out
  unfolding semantic_similar tag_and_exclude
  semantic_similar-IsPage id f e =
      let (vec, found, e₁) = >>=-eq-ok (map_err (embedding_failed id) (get_embedding id)) _ e in
      let searching = map_err (vector_failed id) (vector vec (with_headroom f)) in
      let (hits, searched, e₂) = >>=-eq-ok searching _ e₁ in
      let why = λ (h : StoreHit Score). semantic ∷ [] in
      subst (IsPage id (limit_of f.limit)) (ok-injective e₂) (
        renumber-IsPage id (limit_of f.limit) (select why id (limit_of f.limit) hits)
          (select-others why id (limit_of f.limit) hits)
          (select-bounded why id (limit_of f.limit) hits (one-le-limit_of f.limit)))

  pub graph_similar-IsPage :
      (id : Bytes) (f : Filter Time) {out : List (Hit Score)}
      → graph_similar sources id f ≡ ok out
      → IsPage id (limit_of f.limit) out
  unfolding graph_similar
  graph_similar-IsPage id f e =
      let (rel, found, e₁) = >>=-eq-ok (map_err (related_failed id) (related id)) _ e in
      subst (IsPage id (limit_of f.limit)) (ok-injective e₁) (
        renumber-IsPage id (limit_of f.limit) (neighbours sources id f.type (limit_of f.limit) rel)
          (neighbours-Others id f.type (limit_of f.limit) rel)
          (neighbours-bounded id f.type (limit_of f.limit) rel (one-le-limit_of f.limit)))

  pub more_like_this-IsPage :
      (to_valid : Bytes → Bytes) (id : Bytes) (f : Filter Time) {out : List (Hit Score)}
      → more_like_this sources to_valid id f ≡ ok out
      → IsPage id (limit_of f.limit) out
  unfolding more_like_this
  more_like_this-IsPage to_valid id f e =
      let (c, found, e₁) = >>=-eq-ok (map_err (read_failed id) (read_concept id)) _ e in
      let searching = map_err (hybrid_failed id) (hybrid (query_of to_valid c) (with_headroom f)) in
      let (hits, searched, e₂) = >>=-eq-ok searching _ e₁ in
      let why = λ (h : StoreHit Score). why_from_arm h.arm in
      subst (IsPage id (limit_of f.limit)) (ok-injective e₂) (
        renumber-IsPage id (limit_of f.limit) (select why id (limit_of f.limit) hits)
          (select-others why id (limit_of f.limit) hits)
          (select-bounded why id (limit_of f.limit) hits (one-le-limit_of f.limit)))
