-- ===== src/Rag/Grounding.antt =====
-- `retrieve`, `diversify` and `BuildGrounding` of internal/rag/rag.go.
pub mod Diverse
pub mod Packed
pub mod Usable
pub mod Built
use pixkb.Base.{
  Bytes, ℕ, ◌+◌, Bool, true, false, not, ◌&&◌, List, [], ◌∷◌, ◌++◌, Option, none, some, take,
  length, ltb, if◌then◌else◌, Result, ok, err, ◌>>=◌, map_err,
}
use pixkb.Text.Ascii.{is_empty}
use pixkb.Text.Space.{trim_space}
use pixkb.Fusion.Rank.{Float}
use pixkb.Similar.Hits.{Concept}
use pixkb.Text.Members.{mem}
use pixkb.Rag.Types.{
  Hit, Chunk, Grounding, Options, top_k_of, max_chars_of, expand_seeds_of, Retriever, ConceptSource,
  Error, retrieve_failed,
}

-- `add`: `seen` holds the ids of the list
unfoldable pub add : List Bytes → Bytes → List Bytes
unfolding mem
add ids id = if is_empty id then ids else if mem id ids then ids else ids ++ (id ∷ [])

unfoldable pub add_all : List Bytes → List Bytes → List Bytes
unfolding add
add_all ids [] = ids
add_all ids (id ∷ more) = add_all (add ids id) more

unfoldable pub hit_ids : {Score : Type 0} → List (Hit Score) → List Bytes
hit_ids [] = []
hit_ids (h ∷ hs) = h.id ∷ hit_ids hs

module _ {Score : Type 0} where
  -- the loop of `diversify`, with `seenType`, `first` and `rest`
  unfoldable pub split_types :
      List Bytes → List (Hit Score) → List (Hit Score) → List (Hit Score) → List (Hit Score)
  unfolding mem
  split_types seen first rest [] = first ++ rest
  split_types seen first rest (h ∷ hs) =
      let again = not (is_empty h.type) && mem h.type seen in
      split_types (if again then seen else if is_empty h.type then seen else h.type ∷ seen)
        (if again then first else first ++ (h ∷ [])) (if again then rest ++ (h ∷ []) else rest) hs

  unfoldable pub diversify : List (Hit Score) → List (Hit Score)
  unfolding split_types
  diversify hits = split_types [] [] [] hits

module _ {Failure : Type 0} {Score : Type 0} (r : Retriever Failure Score) where
  unfoldable pub retrieve_by :
      Option (Bytes → ℕ → Result Failure (List (Hit Score)))
      → Bytes
      → ℕ
      → Result Failure (List (Hit Score))
  retrieve_by none q k = r.retrieve q k
  retrieve_by (some retrieve_multi) q k = retrieve_multi q k

  unfoldable pub retrieve : Bytes → Options Score → Result Failure (List (Hit Score))
  unfolding retrieve_by
  retrieve q opts =
      if opts.multi_query
      then retrieve_by r.retrieve_multi q (top_k_of opts)
      else r.retrieve q (top_k_of opts)

  -- A failure adds nothing.
  unfoldable pub add_related : List Bytes → Result Failure (List Bytes) → List Bytes
  unfolding add_all
  add_related ids (err e) = ids
  add_related ids (ok nb) = add_all ids nb

  -- the loop over the seeds
  unfoldable pub expand_related : List Bytes → List (Hit Score) → List Bytes
  unfolding add_related
  expand_related ids [] = ids
  expand_related ids (h ∷ hs) = expand_related (add_related ids (r.related h.id)) hs

  unfoldable pub add_similar : List Bytes → Result Failure (List (Hit Score)) → List Bytes
  unfolding add_all hit_ids
  add_similar ids (err e) = ids
  add_similar ids (ok nb) = add_all ids (hit_ids nb)

  unfoldable pub expand_similar :
      Option (Bytes → Result Failure (List (Hit Score)))
      → List Bytes
      → List (Hit Score)
      → List Bytes
  unfolding add_similar
  expand_similar none ids hits = ids
  expand_similar (some retrieve_similar) ids [] = ids
  expand_similar (some retrieve_similar) ids (h ∷ hs) = add_similar ids (retrieve_similar h.id)

  -- the ids to read, from the hits in the order of `diversify`
  unfoldable pub candidates : Options Score → List (Hit Score) → List Bytes
  unfolding expand_related expand_similar add_all hit_ids
  candidates opts hits =
      let direct = add_all [] (hit_ids hits) in
      let related =
        if opts.expand_related
        then expand_related direct (take (expand_seeds_of opts) hits)
        else direct in
      if opts.expand_similar then expand_similar r.retrieve_similar related hits else related

-- the body that a concept contributes; none where it cannot be read or is blank
unfoldable pub usable :
    {Failure Time : Type 0} → Bytes → Result Failure (Concept Time) → Option Chunk
usable id (err e) = none
usable id (ok c) =
    if is_empty (trim_space c.body)
    then none
    else some (record {
      id = id;
      title = c.title;
      type = c.type;
      source_uri = c.source_uri;
      body = trim_space c.body;
    })

-- one round of the packing, with the rest of the loop
unfoldable pub pack_one : ℕ → Bool → ℕ → Option Chunk → (Bool → ℕ → List Chunk) → List Chunk
pack_one budget started used none rest = rest started used
pack_one budget started used (some c) rest =
    let more = c ∷ rest true (used + length c.body) in
    if started && ltb budget (used + length c.body) then [] else more

module _ {Failure : Type 0} (cs : ConceptSource Failure) where
  -- the packing loop; `started` where a chunk has been taken
  unfoldable pub pack : ℕ → Bool → ℕ → List Bytes → List Chunk
  unfolding pack_one usable
  pack budget started used [] = []
  pack budget started used (id ∷ ids) =
      pack_one budget started used (usable id (cs.concept id)) λ s u. pack budget s u ids

module _ (float : Float) {Failure : Type 0} (r : Retriever Failure float.Num)
    (cs : ConceptSource Failure) where
  -- the evidence is too weak
  unfoldable pub weak : Options float.Num → Hit float.Num → Bool
  weak opts h = float.less float.zero opts.min_score && float.less h.score opts.min_score

  -- `BuildGrounding` behind the retrieval
  unfoldable pub ground_on : Bytes → Options float.Num → List (Hit float.Num) → Grounding
  unfolding weak candidates diversify pack
  ground_on q opts [] = record { query = q; chunks = [] }
  ground_on q opts (h ∷ hs) = if weak opts h then record { query = q; chunks = [] } else record {
    query = q;
    chunks =
        pack cs (max_chars_of opts) false 0
          (candidates r opts (if opts.diversify then diversify (h ∷ hs) else h ∷ hs));
  }

  unfoldable pub build_grounding : Bytes → Options float.Num → Result (Error Failure) Grounding
  unfolding retrieve ground_on
  build_grounding q opts = do
    hits ← map_err retrieve_failed (retrieve r q opts)
    ok (ground_on q opts hits)
