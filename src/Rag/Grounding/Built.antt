-- ===== src/Rag/Grounding/Built.antt =====
-- What a caller of `BuildGrounding` gets.
use pixkb.Base.{
  Bytes, ℕ, ◌≤◌, ◌≡◌, refl, sym, ap, ◌∙◌, subst, true, false, List, [], ◌∷◌, ◌++◌, All, length,
  if◌then◌else◌, ok, >>=-eq-ok, ok-injective, map_err, arith, ◌⊎◌, inl, inr, Bool-cases, none,
}
use pixkb.Text.Ascii.{is_empty}
use pixkb.Fusion.Rank.{Float}
use pixkb.Text.Members.{mem, mem-append, Distinct}
use pixkb.Rag.Types.{
  Hit, Chunk, Grounding, Options, Retriever, ConceptSource, retrieve_failed, max_chars_of,
}
use pixkb.Rag.Grounding.{
  retrieve, diversify, candidates, usable, pack, weak, ground_on, build_grounding,
}
use pixkb.Rag.Grounding.Diverse.{diversify-IsDiverse, Interleaved-All, Parted-Interleaved}
use pixkb.Rag.Grounding.Packed.{total, IsPacked, everything, cut, usable_chunks, pack-IsPacked}
use pixkb.Rag.Grounding.Usable.{
  IsRead, candidates-IsIds, candidates-has, chunk_ids, usable_chunks-IsRead, usable_chunks-none,
}

-- Chunks of the bundle for distinct ids, with a budget.
pub record IsBuilt {Failure : Type 0} (cs : ConceptSource Failure) (budget : ℕ)
    (chunks : List Chunk) : Type 0 where
  pub apart : Distinct (chunk_ids chunks)
  pub read : All (IsRead cs) chunks
  pub bounded : (length chunks ≤ 1) ⊎ (total chunks ≤ budget)

front-apart :
    (xs : List Chunk) (ys : List Chunk) → Distinct (chunk_ids (xs ++ ys)) → Distinct (chunk_ids xs)
front-apart [] ys d = tt
front-apart (x ∷ xs) ys d = (front-mem x.id xs ys d.0, front-apart xs ys d.1)
  where
    front-mem :
        (id : Bytes) (xs ys : List Chunk)
        → mem id (chunk_ids (xs ++ ys)) ≡ false
        → mem id (chunk_ids xs) ≡ false
    front-mem id xs ys h = ground (arith, h, mem-append id (chunk_ids xs) (chunk_ids ys), ids xs ys)
      where
        ids : (xs ys : List Chunk) → chunk_ids (xs ++ ys) ≡ chunk_ids xs ++ chunk_ids ys
        ids [] ys = refl
        ids (x ∷ xs) ys = ap (◌∷◌ x.id) (ids xs ys)

front-All : {A : Type 0} (P : A → Type 0) (xs ys : List A) → All P (xs ++ ys) → All P xs
front-All P [] ys h = tt
front-All P (x ∷ xs) ys h = (h.0, front-All P xs ys h.1)

IsPacked-IsBuilt :
    {Failure : Type 0} (cs : ConceptSource Failure) (budget : ℕ) (taken all : List Chunk)
    → IsPacked budget taken all
    → All (IsRead cs) all × Distinct (chunk_ids all)
    → IsBuilt cs budget taken
IsPacked-IsBuilt cs budget taken all (everything fits) h = record {
  apart = h.1;
  read = h.0;
  bounded = fits;
}
IsPacked-IsBuilt cs budget taken all (cut next rest some_taken fits over e) h = record {
  apart = front-apart taken (next ∷ rest) (subst (λ l. Distinct (chunk_ids l)) e h.1);
  read = front-All (IsRead cs) taken (next ∷ rest) (subst (All (IsRead cs)) e h.0);
  bounded = fits;
}

IsPacked-none :
    {budget : ℕ} {taken all : List Chunk} → IsPacked budget taken all → taken ≡ [] → all ≡ []
IsPacked-none (everything fits) e = e
IsPacked-none (cut next rest some_taken fits over q) e =
    let none_taken : length {A = Chunk} [] ≡ 0 = refl in
    absurd (omega (arith, some_taken, ap length e))

module _ (float : Float) {Failure : Type 0} (r : Retriever Failure float.Num)
    (cs : ConceptSource Failure) where
  -- the hits in the order in which they are read
  unfoldable pub in_order : Options float.Num → List (Hit float.Num) → List (Hit float.Num)
  in_order opts hits = if opts.diversify then diversify hits else hits

  in_order-All :
      (P : Hit float.Num → Type 0) (opts : Options float.Num) (hits : List (Hit float.Num))
      → All P (in_order opts hits)
      → All P hits
  unfolding in_order
  in_order-All P opts hits a = elim (Bool-cases opts.diversify) [
    | inr f ↦ rw f at a
    | inl t ↦
        let (first, rest, e, p) = diversify-IsDiverse hits in
        Interleaved-All P (Parted-Interleaved p) (subst (All P) e (rw t at a))
  ]

  -- `BuildGrounding` gives back the question and chunks with distinct ids, each with the title, the
  -- type, the source and the trimmed body, which is not blank, of the concept that the bundle holds
  -- for its id; and there is at most one chunk, or the bodies are within the budget.
  pub build_grounding-IsBuilt :
      (q : Bytes) (opts : Options float.Num) (g : Grounding)
      → build_grounding float r cs q opts ≡ ok g
      → (g.query ≡ q) × IsBuilt cs (max_chars_of opts) g.chunks
  unfolding build_grounding ground_on in_order
  build_grounding-IsBuilt q opts g h =
      let (hits, got, made) =
        >>=-eq-ok (map_err retrieve_failed (retrieve r q opts))
          (λ hits. ok (ground_on float r cs q opts hits)) h in
      subst (λ g. (g.query ≡ q) × IsBuilt cs (max_chars_of opts) g.chunks) (ok-injective made)
        (built hits)
    where
      nothing : IsBuilt cs (max_chars_of opts) []
      nothing = record { apart = tt; read = tt; bounded = inl (omega arith) }

      packed :
          (ids : List Bytes)
          → Distinct ids
          → IsBuilt cs (max_chars_of opts) (pack cs (max_chars_of opts) false 0 ids)
      packed ids d =
          IsPacked-IsBuilt cs (max_chars_of opts) (pack cs (max_chars_of opts) false 0 ids)
            (usable_chunks cs ids) (pack-IsPacked cs (max_chars_of opts) ids)
            (usable_chunks-IsRead cs ids d)

      built :
          (hits : List (Hit float.Num))
          → ((ground_on float r cs q opts hits).query ≡ q)
            × IsBuilt cs (max_chars_of opts) (ground_on float r cs q opts hits).chunks
      built [] = (refl, nothing)
      built (x ∷ xs) = elim (Bool-cases (weak float r cs opts x)) [
        | inl t ↦ rw t (refl, nothing)
        | inr f ↦ rw f (refl, packed _ (candidates-IsIds r opts (in_order opts (x ∷ xs))).0)
      ]

  -- Where the retriever has hits, of which the first is not too weak, and the grounding is empty,
  -- then no hit can be used: each has no id, or the bundle has no text for it.
  pub build_grounding-answers :
      (q : Bytes) (opts : Options float.Num) (g : Grounding) (h : Hit float.Num)
      (hs : List (Hit float.Num))
      → retrieve r q opts ≡ ok (h ∷ hs)
      → weak float r cs opts h ≡ false
      → build_grounding float r cs q opts ≡ ok g
      → g.chunks ≡ []
      → All (λ x. (is_empty x.id ≡ true) ⊎ (usable x.id (cs.concept x.id) ≡ none)) (h ∷ hs)
  unfolding build_grounding ground_on in_order
  build_grounding-answers q opts g h hs got strong made e =
      let ids = candidates r opts (in_order opts (h ∷ hs)) in
      let grounding : g ≡ record { query = q; chunks = pack cs (max_chars_of opts) false 0 ids } =
        ok-injective (sym (rw (got, strong) at made)) in
      let nothing : pack cs (max_chars_of opts) false 0 ids ≡ [] =
        sym (ap (λ g. g.chunks) grounding) ∙ e in
      in_order-All (λ x. (is_empty x.id ≡ true) ⊎ (usable x.id (cs.concept x.id) ≡ none)) opts
        (h ∷ hs)
        (candidates-has r (λ id. usable id (cs.concept id) ≡ none) opts (in_order opts (h ∷ hs))
          (usable_chunks-none cs ids
            (IsPacked-none (pack-IsPacked cs (max_chars_of opts) ids) nothing)))
