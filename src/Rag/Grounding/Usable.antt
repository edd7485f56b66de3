-- ===== src/Rag/Grounding/Usable.antt =====
-- The ids that `BuildGrounding` reads, each of them once, and the chunks that come of them.
use pixkb.Base.{
  Bytes, ◌≡◌, refl, subst, Bool, true, false, List, [], ◌∷◌, ◌++◌, All, Option, none, some, map,
  take, if◌then◌else◌, Result, ok, err, ◌⊎◌, inl, inr, Bool-cases, Option-cases,
}
use pixkb.Text.Ascii.{is_empty}
use pixkb.Text.Space.{trim_space}
use pixkb.Similar.Hits.{Concept}
use pixkb.Text.Members.{mem, mem-All, mem-tail, mem-cons, Distinct, Distinct-snoc}
use pixkb.Rag.Types.{Hit, Chunk, Options, Retriever, ConceptSource, expand_seeds_of}
use pixkb.Rag.Grounding.{
  add, add_all, hit_ids, add_related, expand_related, add_similar, expand_similar, candidates,
  usable,
}
use pixkb.Rag.Grounding.Packed.{usable_chunks}

some-injective : {A : Type 0} {a b : A} → some a ≡ some b → a ≡ b
some-injective h = cc

abbrev pub chunk_ids : List Chunk → List Bytes
chunk_ids chunks = map (λ c. c.id) chunks

-- the ids are distinct, and none is empty
abbrev pub IsIds : List Bytes → Type 0
IsIds ids = Distinct ids × All (λ id. is_empty id ≡ false) ids

All-snoc :
    (P : Bytes → Type 0) (x : Bytes) (xs : List Bytes) → All P xs → P x → All P (xs ++ (x ∷ []))
All-snoc P x [] h p = (p, tt)
All-snoc P x (y ∷ ys) h p = (h.0, All-snoc P x ys h.1 p)

add-IsIds : (ids : List Bytes) (id : Bytes) → IsIds ids → IsIds (add ids id)
unfolding add
add-IsIds ids id h = elim (Bool-cases (is_empty id)) [
  | inl t ↦ rw t h
  | inr f ↦ elim (Bool-cases (mem id ids)) [
    | inl m ↦ rw (f, m) h
    | inr n ↦
        rw (f, n) (Distinct-snoc id ids n h.0, All-snoc (λ x. is_empty x ≡ false) id ids h.1 f)
  ]
]

add_all-IsIds : (ids more : List Bytes) → IsIds ids → IsIds (add_all ids more)
unfolding add_all
add_all-IsIds ids [] h = h
add_all-IsIds ids (id ∷ more) h = add_all-IsIds (add ids id) more (add-IsIds ids id h)

-- What holds of all ids of the longer list holds of those of the shorter one.
add-grows : (P : Bytes → Type 0) (ids : List Bytes) (id : Bytes) → All P (add ids id) → All P ids
unfolding add
add-grows P ids id h = elim (Bool-cases (is_empty id)) [
  | inl t ↦ rw t at h
  | inr f ↦ elim (Bool-cases (mem id ids)) [
    | inl m ↦ rw (f, m) at h
    | inr n ↦ front ids (rw (f, n) at h)
  ]
]
  where
    front : (xs : List Bytes) → All P (xs ++ (id ∷ [])) → All P xs
    front [] k = tt
    front (x ∷ xs) k = (k.0, front xs k.1)

add-has :
    (P : Bytes → Type 0) (ids : List Bytes) (id : Bytes)
    → All P (add ids id)
    → (is_empty id ≡ true) ⊎ P id
unfolding add
add-has P ids id h = elim (Bool-cases (is_empty id)) [
  | inl t ↦ inl t
  | inr f ↦ elim (Bool-cases (mem id ids)) [
    | inl m ↦ inr (mem-All P id ids m (rw (f, m) at h))
    | inr n ↦ inr (last ids (rw (f, n) at h))
  ]
]
  where
    last : (xs : List Bytes) → All P (xs ++ (id ∷ [])) → P id
    last [] k = k.0
    last (x ∷ xs) k = last xs k.1

add_all-grows : (P : Bytes → Type 0) (ids more : List Bytes) → All P (add_all ids more) → All P ids
unfolding add_all
add_all-grows P ids [] h = h
add_all-grows P ids (id ∷ more) h = add-grows P ids id (add_all-grows P (add ids id) more h)

add_all-has :
    (P : Bytes → Type 0) (ids more : List Bytes)
    → All P (add_all ids more)
    → All (λ id. (is_empty id ≡ true) ⊎ P id) more
unfolding add_all
add_all-has P ids [] h = tt
add_all-has P ids (id ∷ more) h =
    (add-has P ids id (add_all-grows P (add ids id) more h), add_all-has P (add ids id) more h)

module _ {Failure : Type 0} {Score : Type 0} (r : Retriever Failure Score) where
  -- Expansion only adds ids.
  record IsExpansion (ids more : List Bytes) : Type 1 where
    keeps : IsIds ids → IsIds more
    grows : (P : Bytes → Type 0) → All P more → All P ids

  nothing_added : (ids : List Bytes) → IsExpansion ids ids
  nothing_added ids = record { keeps = λ h. h; grows = λ P h. h }

  all_added : (ids more : List Bytes) → IsExpansion ids (add_all ids more)
  all_added ids more = record {
    keeps = add_all-IsIds ids more;
    grows = λ P. add_all-grows P ids more;
  }

  related-IsExpansion :
      (ids : List Bytes) (nb : Result Failure (List Bytes)) → IsExpansion ids (add_related r ids nb)
  unfolding add_related
  related-IsExpansion ids (err e) = nothing_added ids
  related-IsExpansion ids (ok nb) = all_added ids nb

  in_turn :
      {ids mid more : List Bytes}
      → IsExpansion ids mid
      → IsExpansion mid more
      → IsExpansion ids more
  in_turn one two = record {
    keeps = λ k. two.keeps (one.keeps k);
    grows = λ P k. one.grows P (two.grows P k);
  }

  expand_related-IsExpansion :
      (ids : List Bytes) (hits : List (Hit Score)) → IsExpansion ids (expand_related r ids hits)
  unfolding expand_related
  expand_related-IsExpansion ids [] = nothing_added ids
  expand_related-IsExpansion ids (h ∷ hs) =
      in_turn (related-IsExpansion ids (r.related h.id))
        (expand_related-IsExpansion (add_related r ids (r.related h.id)) hs)

  similar-IsExpansion :
      (ids : List Bytes) (nb : Result Failure (List (Hit Score)))
      → IsExpansion ids (add_similar r ids nb)
  unfolding add_similar
  similar-IsExpansion ids (err e) = nothing_added ids
  similar-IsExpansion ids (ok nb) = all_added ids (hit_ids nb)

  expand_similar-IsExpansion :
      (similar : Option (Bytes → Result Failure (List (Hit Score)))) (ids : List Bytes)
      (hits : List (Hit Score))
      → IsExpansion ids (expand_similar r similar ids hits)
  unfolding expand_similar
  expand_similar-IsExpansion none ids hits = nothing_added ids
  expand_similar-IsExpansion (some f) ids [] = nothing_added ids
  expand_similar-IsExpansion (some f) ids (h ∷ hs) = similar-IsExpansion ids (f h.id)

  if-IsExpansion :
      {ids more : List Bytes} (b : Bool)
      → IsExpansion ids more
      → IsExpansion ids (if b then more else ids)
  if-IsExpansion true e = e
  if-IsExpansion {ids} false e = nothing_added ids

  candidates-IsExpansion :
      (opts : Options Score) (hits : List (Hit Score))
      → IsExpansion (add_all [] (hit_ids hits)) (candidates r opts hits)
  unfolding candidates
  candidates-IsExpansion opts hits =
      let direct = add_all [] (hit_ids hits) in
      let seeds = take (expand_seeds_of opts) hits in
      let related = if opts.expand_related then expand_related r direct seeds else direct in
      in_turn (if-IsExpansion opts.expand_related (expand_related-IsExpansion direct seeds)) (
        if-IsExpansion opts.expand_similar
          (expand_similar-IsExpansion r.retrieve_similar related hits))

  pub candidates-IsIds :
      (opts : Options Score) (hits : List (Hit Score)) → IsIds (candidates r opts hits)
  candidates-IsIds opts hits =
      (candidates-IsExpansion opts hits).keeps (add_all-IsIds [] (hit_ids hits) (tt, tt))

  pub candidates-has :
      (P : Bytes → Type 0) (opts : Options Score) (hits : List (Hit Score))
      → All P (candidates r opts hits)
      → All (λ h. (is_empty h.id ≡ true) ⊎ P h.id) hits
  unfolding hit_ids
  candidates-has P opts hits a =
      hit_ids-All hits
        (add_all-has P [] (hit_ids hits) ((candidates-IsExpansion opts hits).grows P a))
    where
      hit_ids-All :
          (hs : List (Hit Score))
          → All (λ id. (is_empty id ≡ true) ⊎ P id) (hit_ids hs)
          → All (λ h. (is_empty h.id ≡ true) ⊎ P h.id) hs
      hit_ids-All [] k = tt
      hit_ids-All (h ∷ hs) k = (k.0, hit_ids-All hs k.1)

-- The chunk is what the bundle holds for its id, and its body is not blank.
pub record IsRead {Failure : Type 0} (cs : ConceptSource Failure) (c : Chunk) : Type 0 where
  pub concept : Concept cs.Time
  pub found : cs.concept c.id ≡ ok concept
  pub body : c.body ≡ trim_space concept.body
  pub visible : is_empty c.body ≡ false
  pub title : c.title ≡ concept.title
  pub type : c.type ≡ concept.type
  pub source_uri : c.source_uri ≡ concept.source_uri

module _ {Failure : Type 0} (cs : ConceptSource Failure) where
  usable-IsRead :
      (id : Bytes) (k : Result Failure (Concept cs.Time)) (c : Chunk)
      → cs.concept id ≡ k
      → usable id k ≡ some c
      → (c.id ≡ id) × IsRead cs c
  unfolding usable
  usable-IsRead id (err e) c g h = cc
  usable-IsRead id (ok k) c g h = elim (Bool-cases (is_empty (trim_space k.body))) [
    | inl t ↦ cc (h, t)
    | inr f ↦
        let made : some (record {
          id = id;
          title = k.title;
          type = k.type;
          source_uri = k.source_uri;
          body = trim_space k.body;
        })
            ≡ some c =
          rw f at h in
        subst (λ c. (c.id ≡ id) × IsRead cs c) (some-injective made)
          (
            refl,
            record {
              concept = k;
              found = g;
              body = refl;
              visible = f;
              title = refl;
              type = refl;
              source_uri = refl;
            },
          )
  ]

  pub usable_chunks-IsRead :
      (ids : List Bytes)
      → Distinct ids
      → All (IsRead cs) (usable_chunks cs ids) × Distinct (chunk_ids (usable_chunks cs ids))
  unfolding usable_chunks
  usable_chunks-IsRead ids d = (read ids, apart ids d)
    where
      read : (ids : List Bytes) → All (IsRead cs) (usable_chunks cs ids)
      read [] = tt
      read (id ∷ ids) = elim (Option-cases (usable id (cs.concept id))) [
        | inl n ↦ rw n (read ids)
        | inr (c, s) ↦ rw s ((usable-IsRead id (cs.concept id) c refl s).1, read ids)
      ]

      other :
          (x : Bytes) (ids : List Bytes)
          → mem x ids ≡ false
          → mem x (chunk_ids (usable_chunks cs ids)) ≡ false
      other x [] m = m
      other x (id ∷ ids) m = elim (Option-cases (usable id (cs.concept id))) [
        | inl n ↦ rw n (other x ids (mem-tail x id ids m))
        | inr (c, s) ↦ rw s (
            rw (usable-IsRead id (cs.concept id) c refl s).0 (
              mem-cons x id ids (chunk_ids (usable_chunks cs ids)) m
                (other x ids (mem-tail x id ids m))))
      ]

      apart : (ids : List Bytes) → Distinct ids → Distinct (chunk_ids (usable_chunks cs ids))
      apart [] d = tt
      apart (id ∷ ids) d = elim (Option-cases (usable id (cs.concept id))) [
        | inl n ↦ rw n (apart ids d.1)
        | inr (c, s) ↦
            rw s
              (rw (usable-IsRead id (cs.concept id) c refl s).0 (other id ids d.0), apart ids d.1)
      ]

  pub usable_chunks-none :
      (ids : List Bytes)
      → usable_chunks cs ids ≡ []
      → All (λ id. usable id (cs.concept id) ≡ none) ids
  unfolding usable_chunks
  usable_chunks-none [] h = tt
  usable_chunks-none (id ∷ ids) h = elim (Option-cases (usable id (cs.concept id))) [
    | inl n ↦ (n, usable_chunks-none ids (rw n at h))
    | inr (c, s) ↦ cc (rw s at h)
  ]
