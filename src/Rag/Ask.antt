-- ===== src/Rag/Ask.antt =====
-- `Ask` of internal/rag/adapters.go. The state is the cache, where there is one, and the world of the
-- agent.
pub mod Cached
pub mod Private
pub mod Again
use pixkb.Base.{
  Bytes, Bool, true, false, not, [], Option, none, some, if◌then◌else◌, Result, ok, err,
}
use pixkb.Fusion.Rank.{Float}
use pixkb.Rag.Types.{Grounding, Answer, Options, Retriever, ConceptSource, Error}
use pixkb.Rag.Grounding.{build_grounding}
use pixkb.Rag.Answer.{synthesize}
use pixkb.Rag.Cache.{LruCache, get, put}
use pixkb.Rag.Key.{cache_key_for}
use pixkb.Rag.Pii.{Patterns, redact_pii}

-- What `Ask` returns: the answer or an error, and the grounding.
pub record Asked (Failure : Type 0) : Type 0 where
  pub answer : Result (Error Failure) Answer
  pub grounding : Grounding

-- the state of a call
pub record State (World : Type 0) : Type 0 where
  pub cache : Option (LruCache Answer)
  pub world : World

-- What `Ask` calls of other packages.
pub record Env (Failure World Score : Type 0) : Type 0 where
  pub generate : Bytes → World → Result Failure Bytes × World
  pub unmarshal : Bytes → Result Failure Answer
  pub patterns : Patterns
  pub to_lower : Bytes → Bytes
  pub hash : Bytes → Bytes
  pub format_score : Score → Bytes

module _ {Failure World Score : Type 0} (env : Env Failure World Score) where
  unfoldable pub key_of : Bytes → Options Score → Bytes
  unfolding cache_key_for
  key_of q opts = cache_key_for env.to_lower env.hash env.format_score q opts

  -- the answer with its text redacted, unless the filter is off
  unfoldable pub filtered : Options Score → Answer → Answer
  unfolding redact_pii
  filtered opts a =
      if opts.no_pii_filter then a else record a { text = redact_pii env.patterns a.text }

  -- the cache with the answer, where the cache is used
  unfoldable pub stored_in :
      Bytes → Options Score → Answer → Option (LruCache Answer) → Option (LruCache Answer)
  unfolding put key_of
  stored_in q opts a none = none
  stored_in q opts a (some c) =
      if opts.no_pii_filter then some c else some (put c (key_of q opts) a)

  -- the answer of the agent, filtered and stored
  unfoldable pub keep :
      Bytes
      → Options Score
      → Grounding
      → Option (LruCache Answer)
      → Result (Error Failure) Answer × World
      → Asked Failure × State World
  unfolding filtered stored_in
  keep q opts g cache (err e, w) =
      (record { answer = err e; grounding = g }, record { cache = cache; world = w })
  keep q opts g cache (ok a, w) = (
    record { answer = ok (filtered opts a); grounding = g },
    record { cache = stored_in q opts (filtered opts a) cache; world = w },
  )

  unfoldable pub ask_fresh :
      Bytes
      → Options Score
      → Grounding
      → Option (LruCache Answer)
      → World
      → Asked Failure × State World
  unfolding synthesize keep
  ask_fresh q opts g cache w = keep q opts g cache (synthesize env.generate env.unmarshal g w)

  -- what the cache has found, and the cache behind that
  unfoldable pub ask_found :
      Bytes
      → Options Score
      → Grounding
      → World
      → Option Answer × LruCache Answer
      → Asked Failure × State World
  unfolding ask_fresh
  ask_found q opts g w (some a, c) =
      (record { answer = ok a; grounding = g }, record { cache = some c; world = w })
  ask_found q opts g w (none, c) = ask_fresh q opts g (some c) w

  unfoldable pub ask_on :
      Bytes
      → Options Score
      → Grounding
      → Option (LruCache Answer)
      → World
      → Asked Failure × State World
  unfolding get ask_found
  ask_on q opts g none w = ask_fresh q opts g none w
  ask_on q opts g (some c) w =
      if opts.no_pii_filter
      then ask_fresh q opts g (some c) w
      else ask_found q opts g w (get c (key_of q opts))

abbrev pub no_grounding : Grounding
no_grounding = record { query = []; chunks = [] }

module _ (float : Float) {Failure World : Type 0} (env : Env Failure World float.Num)
    (r : Retriever Failure float.Num) (cs : ConceptSource Failure) where
  unfoldable pub ask_with :
      Bytes
      → Options float.Num
      → State World
      → Result (Error Failure) Grounding
      → Asked Failure × State World
  unfolding ask_on
  ask_with q opts s (err e) = (record { answer = err e; grounding = no_grounding }, s)
  ask_with q opts s (ok g) = ask_on env q opts g s.cache s.world

  unfoldable pub ask : Bytes → Options float.Num → State World → Asked Failure × State World
  unfolding build_grounding ask_with
  ask q opts s = ask_with q opts s (build_grounding float r cs q opts)
