-- ===== src/Similar/Hits.antt =====
-- The hits and the filter of internal/store/postgres/search.go, the hits of internal/similar, and
-- the interface of the store. A score is a value of any type, as is a point in time.
use pixkb.Base.{Bytes, ℕ, Bool, List, Option, Result}
use pixkb.Text.Number.{ℤ}

-- `postgres.Hit`
pub record StoreHit (Score : Type 0) : Type 0 where
  pub id : Bytes
  pub title : Bytes
  pub type : Bytes
  pub score : Score
  pub rank : ℕ
  pub arm : Bytes
  pub domain : Bytes
  pub official : Bool

-- `postgres.Filter` up to `Domains`; the fields behind it are only read by the store
pub record Filter (Time : Type 0) : Type 0 where
  pub type : Bytes
  pub tag : Bytes
  pub as_of_epoch : Option ℤ
  pub as_of_time : Option Time
  pub limit : ℤ
  pub include_types : List Bytes
  pub exclude_ids : List Bytes
  pub domains : List Bytes

-- `postgres.RelatedConcept`
pub record RelatedConcept : Type 0 where
  pub id : Bytes
  pub title : Bytes
  pub type : Bytes
  pub direction : Bytes

-- `similar.Hit`
pub record Hit (Score : Type 0) : Type 0 where
  pub hit : StoreHit Score
  pub why : List Bytes

-- `okf.Concept`
pub record Concept (Time : Type 0) : Type 0 where
  pub id : Bytes
  pub type : Bytes
  pub title : Bytes
  pub description : Bytes
  pub resource : Bytes
  pub tags : List Bytes
  pub language : Bytes
  pub timestamp : Time
  pub epoch : ℤ
  pub content_sha : Bytes
  pub source_uri : Bytes
  pub domain : Bytes
  pub norm_ref : Bytes
  pub embedded_at : Time
  pub embed_model : Bytes
  pub body : Bytes
  pub links : List Bytes
  pub intent_terms : Bytes

-- What the code calls of `Store`, of `query.Hybrid` with the embedder, and of `okf.ReadConcept` on
-- the bundle; a failure has a value of its own.
pub record Sources (Score : Type 0) : Type 1 where
  pub Time : Type 0
  pub Vector : Type 0
  pub Failure : Type 0
  -- the score `0`
  pub no_score : Score
  pub get_embedding : Bytes → Result Failure Vector
  pub vector : Vector → Filter Time → Result Failure (List (StoreHit Score))
  pub related : Bytes → Result Failure (List RelatedConcept)
  pub hybrid : Bytes → Filter Time → Result Failure (List (StoreHit Score))
  pub read_concept : Bytes → Result Failure (Concept Time)

-- the errors of the package, with the id that the message shows
pub data Error (Failure : Type 0) : Type 0 where
  embedding_failed : Bytes → Failure → Error Failure
  vector_failed : Bytes → Failure → Error Failure
  related_failed : Bytes → Failure → Error Failure
  read_failed : Bytes → Failure → Error Failure
  hybrid_failed : Bytes → Failure → Error Failure
  unknown_mode : Bytes → Error Failure
