-- ===== src/Rag/Types.antt =====
-- The data of internal/rag/rag.go and internal/rag/answer.go, and what they call: the retriever with
-- its optional capabilities, and the concepts of the bundle.
use pixkb.Base.{Bytes, ℕ, suc, Bool, List, Option, Result}
use pixkb.Text.Number.{ℤ, pos}
use pixkb.Similar.Hits.{Concept}

pub record Hit (Score : Type 0) : Type 0 where
  pub id : Bytes
  pub title : Bytes
  pub type : Bytes
  pub score : Score

pub record Chunk : Type 0 where
  pub id : Bytes
  pub title : Bytes
  pub type : Bytes
  pub source_uri : Bytes
  pub body : Bytes

pub record Grounding : Type 0 where
  pub query : Bytes
  pub chunks : List Chunk

pub record Answer : Type 0 where
  pub text : Bytes
  pub citations : List Bytes
  pub refused : Bool

-- `Options`, of which `Cache` is a part of the state of `ask`
pub record Options (Score : Type 0) : Type 0 where
  pub top_k : ℤ
  pub expand_related : Bool
  pub max_chars : ℤ
  pub multi_query : Bool
  pub diversify : Bool
  pub expand_seeds : ℤ
  pub expand_similar : Bool
  pub min_score : Score
  pub no_pii_filter : Bool
  pub epoch : ℤ

-- the value where it is positive, and a default
unfoldable pub or_default : ℕ → ℤ → ℕ
or_default default (pos (suc n)) = suc n
or_default default _ = default

module _ {Score : Type 0} where
  -- `topK`
  unfoldable pub top_k_of : Options Score → ℕ
  unfolding or_default
  top_k_of o = or_default 6 o.top_k

  -- `maxChars`
  unfoldable pub max_chars_of : Options Score → ℕ
  unfolding or_default
  max_chars_of o = or_default 8000 o.max_chars

  -- `expandSeeds`
  unfoldable pub expand_seeds_of : Options Score → ℕ
  unfolding or_default
  expand_seeds_of o = or_default 1 o.expand_seeds

-- `Retriever`; the capabilities that its value may have besides are options
pub record Retriever (Failure Score : Type 0) : Type 0 where
  pub retrieve : Bytes → ℕ → Result Failure (List (Hit Score))
  pub related : Bytes → Result Failure (List Bytes)
  pub retrieve_multi : Option (Bytes → ℕ → Result Failure (List (Hit Score)))
  pub retrieve_similar : Option (Bytes → Result Failure (List (Hit Score)))

-- `ConceptSource`
pub record ConceptSource (Failure : Type 0) : Type 1 where
  pub Time : Type 0
  pub concept : Bytes → Result Failure (Concept Time)

-- The errors, each around the failure it wraps, and the end of the fuel of `strip_marker`.
pub data Error (Failure : Type 0) : Type 0 where
  retrieve_failed : Failure → Error Failure
  answerer_failed : Failure → Error Failure
  bad_reply : Bytes → Failure → Error Failure
  out_of_fuel : Error Failure
