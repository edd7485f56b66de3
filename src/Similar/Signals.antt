-- ===== src/Similar/Signals.antt =====
-- `SemanticSimilar` and `GraphSimilar` of internal/similar/signals.go, and `MoreLikeThis` of
-- internal/similar/morelikethis.go.
use pixkb.Base.{
  Bytes, codes, ℕ, ◌-◌, false, not, ◌&&◌, List, [], ◌∷◌, ◌++◌, ltb, ◌==◌, length, take,
  if◌then◌else◌, Result, ok, ◌>>=◌, map_err,
}
use pixkb.Text.Ascii.{equal, is_empty}
use pixkb.Similar.Hits.{
  Hit, Filter, RelatedConcept, Concept, Sources, Error, embedding_failed, vector_failed,
  related_failed, read_failed, hybrid_failed,
}
use pixkb.Similar.Select.{limit_of, with_headroom, renumber, select, tag_and_exclude}

abbrev pub semantic : Bytes
semantic = codes "semantic"

abbrev pub lexical : Bytes
lexical = codes "lexical"

abbrev pub graph : Bytes
graph = codes "graph"

-- `whyFromArm`
unfoldable pub why_from_arm : Bytes → List Bytes
unfolding equal
why_from_arm arm =
    if equal arm (codes "both")
    then semantic ∷ lexical ∷ []
    else if equal arm (codes "vector")
    then semantic ∷ []
    else if equal arm (codes "fts")
    then lexical ∷ []
    else []

-- `truncate`, where `to_valid` is `strings.ToValidUTF8` with no replacement
unfoldable pub truncate : (Bytes → Bytes) → Bytes → ℕ → Bytes
truncate to_valid body n = if ltb n (length body) then to_valid (take n body) else body

-- the text that `MoreLikeThis` searches for
unfoldable pub query_of : {Time : Type 0} → (Bytes → Bytes) → Concept Time → Bytes
unfolding truncate
query_of to_valid c =
    let q = if is_empty c.intent_terms then c.title else c.title ++ (codes " " ++ c.intent_terms) in
    q ++ (codes " " ++ truncate to_valid c.body 500)

module _ {Score : Type 0} (sources : Sources Score) where
  open sources use {Time, Failure, no_score, get_embedding, vector, related, hybrid, read_concept}

  unfoldable pub semantic_similar : Bytes → Filter Time → Result (Error Failure) (List (Hit Score))
  unfolding with_headroom tag_and_exclude
  semantic_similar id f = do
    vec ← map_err (embedding_failed id) (get_embedding id)
    hits ← map_err (vector_failed id) (vector vec (with_headroom f))
    ok (tag_and_exclude hits id semantic f.limit)

  -- the hit of a neighbour in the graph
  unfoldable pub graph_hit : RelatedConcept → Hit Score
  graph_hit r = record {
    hit = record {
      id = r.id;
      title = r.title;
      type = r.type;
      score = no_score;
      rank = 0;
      arm = [];
      domain = [];
      official = false;
    };
    why = graph ∷ [];
  }

  -- the loop over the neighbours, as in `select`
  unfoldable pub neighbours : Bytes → Bytes → ℕ → List RelatedConcept → List (Hit Score)
  unfolding graph_hit equal
  neighbours id type room [] = []
  neighbours id type room (r ∷ rs) =
      let rest = neighbours id type room rs in
      let fewer = neighbours id type (room - 1) rs in
      let more = if room == 1 then [] else fewer in
      if equal r.id id
      then rest
      else if not (is_empty type) && not (equal r.type type)
      then rest
      else graph_hit r ∷ more

  unfoldable pub graph_similar : Bytes → Filter Time → Result (Error Failure) (List (Hit Score))
  unfolding neighbours renumber limit_of
  graph_similar id f = do
    rel ← map_err (related_failed id) (related id)
    ok (renumber 0 (neighbours id f.type (limit_of f.limit) rel))

  unfoldable pub more_like_this :
      (Bytes → Bytes) → Bytes → Filter Time → Result (Error Failure) (List (Hit Score))
  unfolding query_of with_headroom select renumber limit_of why_from_arm
  more_like_this to_valid id f = do
    c ← map_err (read_failed id) (read_concept id)
    hits ← map_err (hybrid_failed id) (hybrid (query_of to_valid c) (with_headroom f))
    ok (renumber 0 (select (λ h. why_from_arm h.arm) id (limit_of f.limit) hits))
