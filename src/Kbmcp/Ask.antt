-- ===== src/Kbmcp/Ask.antt =====
-- The tool `kb_ask` of internal/kbmcp/ask.go. The state is the cache that all requests share and the
-- world of the agent; the store and the searches are parameters.
pub mod Guarded
pub mod Types
use pixkb.Base.{
  Bytes, ℕ, suc, Bool, true, false, ◌&&◌, List, [], ◌∷◌, Option, none, some, ltb, if◌then◌else◌,
  Result, ok, err,
}
use pixkb.Text.Number.{ℤ, pos, negsuc}
use pixkb.Fusion.Rank.{Float}
use pixkb.Similar.Hits.{Filter}
use pixkb.Rag.Types.{
  Grounding, Answer, Options, Retriever, ConceptSource, Error, retrieve_failed, answerer_failed,
  bad_reply, out_of_fuel,
}
use pixkb.Rag.Adapters.{source_for}
use pixkb.Rag.Cache.{LruCache}
use pixkb.Rag.Ask.{Asked, State, Env, ask}

pub record AskIn (Score : Type 0) : Type 0 where
  pub question : Bytes
  pub type : Bytes
  pub top_k : ℤ
  pub expand : Bool
  pub multi : Bool
  pub diversify : Bool
  pub expand_seeds : ℤ
  pub expand_similar : Bool
  pub min_score : Score
  pub no_pii_filter : Bool
  pub no_cache : Bool

pub record AskCitationOut : Type 0 where
  pub id : Bytes
  pub source : Bytes

pub record AskOut : Type 0 where
  pub answer : Bytes
  pub refused : Bool
  pub citations : List AskCitationOut

-- the errors of the tool
pub data AskError (Failure : Type 0) : Type 0 where
  stats_failed : Failure → AskError Failure
  rate_limited : Error Failure → AskError Failure
  ask_failed : Error Failure → AskError Failure

-- `clampInt`, at a bound that is not negative
unfoldable pub clamp_int : ℤ → ℕ → ℤ
clamp_int (pos v) max = if ltb max v then pos max else pos v
clamp_int (negsuc v) max = negsuc v

unfoldable pub citations_out : Grounding → List Bytes → List AskCitationOut
unfolding source_for
citations_out g [] = []
citations_out g (id ∷ ids) = record { id = id; source = source_for g id } ∷ citations_out g ids

-- `Deps`, with what `Ask` calls of it; `time` is a zero filter's
pub record Deps (float : Float) (Failure World : Type 0) : Type 1 where
  pub Time : Type 0
  pub env : Env Failure World float.Num
  -- `HybridRetriever` with the filter, and `BundleSource`
  pub retriever : Filter Time → Retriever Failure float.Num
  pub concepts : ConceptSource Failure
  -- the latest epoch of `Stats`
  pub latest_epoch : World → Result Failure ℤ
  pub is_rate_limited : Failure → Bool
  pub allow_pii_bypass : Bool

module _ (float : Float) {Failure World : Type 0} (d : Deps float Failure World) where
  -- `errors.Is(err, ErrRateLimited)`, through what wraps it
  unfoldable pub is_limited : Error Failure → Bool
  is_limited (retrieve_failed e) = d.is_rate_limited e
  is_limited (answerer_failed e) = d.is_rate_limited e
  is_limited (bad_reply raw e) = d.is_rate_limited e
  is_limited out_of_fuel = false

  abbrev pub type_filter : Bytes → Filter d.Time
  type_filter type = record {
    type = type;
    tag = [];
    as_of_epoch = none;
    as_of_time = none;
    limit = pos 0;
    include_types = [];
    exclude_ids = [];
    domains = [];
  }

  unfoldable pub options_of : AskIn float.Num → ℤ → Options float.Num
  unfolding clamp_int
  options_of i epoch = record {
    top_k = clamp_int i.top_k 50;
    expand_related = i.expand;
    max_chars = pos 0;
    multi_query = i.multi;
    diversify = i.diversify;
    expand_seeds = clamp_int i.expand_seeds 20;
    expand_similar = i.expand_similar;
    min_score = i.min_score;
    no_pii_filter = i.no_pii_filter && d.allow_pii_bypass;
    epoch = epoch;
  }

  unfoldable pub ask_out : Asked Failure → Result (AskError Failure) AskOut
  unfolding is_limited citations_out
  ask_out out = elim out.answer [
    | err e ↦ if is_limited e then err (rate_limited e) else err (ask_failed e)
    | ok a ↦ ok (record {
      answer = a.text;
      refused = a.refused;
      citations = citations_out out.grounding a.citations;
    })
  ]

  -- the shared cache behind the call, which had it or none
  unfoldable pub cache_after : LruCache Answer → Option (LruCache Answer) → LruCache Answer
  cache_after shared none = shared
  cache_after shared (some c) = c

  unfoldable pub kb_ask_at :
      AskIn float.Num
      → LruCache Answer
      → World
      → Result Failure ℤ
      → Result (AskError Failure) AskOut × LruCache Answer × World
  unfolding ask ask_out cache_after options_of
  kb_ask_at i shared w (err e) = (err (stats_failed e), shared, w)
  kb_ask_at i shared w (ok epoch) =
      let out =
        ask float d.env (d.retriever (type_filter i.type)) d.concepts i.question
          (options_of i epoch)
          (record { cache = if i.no_cache then none else some shared; world = w }) in
      (ask_out out.0, cache_after shared out.1.cache, out.1.world)

  unfoldable pub kb_ask :
      AskIn float.Num
      → LruCache Answer
      → World
      → Result (AskError Failure) AskOut × LruCache Answer × World
  unfolding kb_ask_at
  kb_ask i shared w = kb_ask_at i shared w (d.latest_epoch w)
