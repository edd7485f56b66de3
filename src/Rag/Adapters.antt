-- ===== src/Rag/Adapters.antt =====
-- internal/rag/adapters.go: the searches as a retriever, and the agent fleet as a generator. The
-- searches, the reading of a concept and the fleet are parameters.
use pixkb.Base.{
  Bytes, Bool, false, ◌&&◌, List, [], ◌∷◌, some, if◌then◌else◌, Result, ok, err, ◌>>=◌,
}
use pixkb.Text.Number.{pos}
use pixkb.Text.Ascii.{equal}
use pixkb.Similar.Hits.{StoreHit, Filter, RelatedConcept}
use pixkb.Similar.Hits as Similar
use pixkb.Rag.Types.{Hit, Chunk, Grounding, Retriever}

unfoldable pub to_hits : {Score : Type 0} → List (StoreHit Score) → List (Hit Score)
to_hits [] = []
to_hits (x ∷ hits) =
    record { id = x.id; title = x.title; type = x.type; score = x.score } ∷ to_hits hits

-- `ph`: the hits of the search in those of `similar.Similar`
unfoldable pub search_hits : {Score : Type 0} → List (Similar.Hit Score) → List (StoreHit Score)
search_hits [] = []
search_hits (x ∷ hits) = x.hit ∷ search_hits hits

unfoldable pub related_ids : List RelatedConcept → List Bytes
related_ids [] = []
related_ids (r ∷ rel) = r.id ∷ related_ids rel

module _ {Failure Score Time : Type 0}
    (hybrid multi_hybrid : Bytes → Filter Time → Result Failure (List (StoreHit Score)))
    (similar : Bytes → Filter Time → Result Failure (List (Similar.Hit Score)))
    (store_related : Bytes → Result Failure (List RelatedConcept)) where
  -- `HybridRetriever` with its filter; it has both capabilities
  unfoldable pub hybrid_retriever : Filter Time → Retriever Failure Score
  unfolding to_hits search_hits related_ids
  hybrid_retriever filter = record {
    retrieve = λ q k. do
      hits ← hybrid q (record filter { limit = pos k })
      ok (to_hits hits);
    related = λ id. do
      rel ← store_related id
      ok (related_ids rel);
    retrieve_multi =
        some (λ q k. do hits ← multi_hybrid q (record filter { limit = pos k }); ok (to_hits hits));
    retrieve_similar = some (λ id. do hits ← similar id filter; ok (to_hits (search_hits hits)));
  }

-- `corral.Agency`, and the errors that `errors.Is` tells apart
pub record Agency (Failure World : Type 0) : Type 0 where
  -- whether the provider reports a limit, and whether it is exhausted
  pub limit_status : World → Result Failure (Bool × Bool) × World
  pub run : Bytes → World → Result Failure Bytes × World
  pub is_rate_limited : Failure → Bool
  -- `ErrRateLimited`, and what wraps it with another error
  pub rate_limited : Failure
  pub wrap_rate_limited : Failure → Failure

module _ {Failure World : Type 0} (agency : Agency Failure World) where
  -- `mapGenErr` of an error that is not nil
  unfoldable pub map_gen_err : Failure → Failure
  map_gen_err e = if agency.is_rate_limited e then agency.wrap_rate_limited e else e

  unfoldable pub reply_text : Result Failure Bytes → Result Failure Bytes
  unfolding map_gen_err
  reply_text (err e) = err (map_gen_err e)
  reply_text (ok text) = ok text

  unfoldable pub is_exhausted : Result Failure (Bool × Bool) → Bool
  is_exhausted (err e) = false
  is_exhausted (ok (supported, exhausted)) = supported && exhausted

  -- `AgentGenerator.Generate`
  unfoldable pub generate : Bytes → World → Result Failure Bytes × World
  unfolding reply_text is_exhausted
  generate prompt w =
      let (status, w') = agency.limit_status w in
      if is_exhausted status
      then (err agency.rate_limited, w')
      else (let (r, w'') = agency.run prompt w' in (reply_text r, w''))

-- `SourceFor`
unfoldable pub source_in : List Chunk → Bytes → Bytes
unfolding equal
source_in [] id = []
source_in (c ∷ cs) id = let rest = source_in cs id in if equal c.id id then c.source_uri else rest

unfoldable pub source_for : Grounding → Bytes → Bytes
unfolding source_in
source_for g id = source_in g.chunks id
