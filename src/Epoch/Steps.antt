-- ===== src/Epoch/Steps.antt =====
-- What internal/epoch/runner.go calls of the store, the bundle, the embedder and git. A step appends
-- its call to those that were made, so that the calls made before a failure stay; whether a call fails
-- and what it returns may depend on all calls before it.
pub mod Follows
use pixkb.Base.{Bytes, ℕ, List, [], ◌∷◌, ◌++◌, Option, none, some, Result, ok, err}
use pixkb.Text.Number.{ℤ}
use pixkb.Similar.Hits.{Concept}
use pixkb.Epoch.Diff.{Shas}

pub data Call (Time Vector : Type 0) : Type 0 where
  current_shas : Call Time Vector
  as_of : ℤ → Call Time Vector
  -- the source and the numbers of ids added, changed and removed
  next_epoch : Bytes → ℕ → ℕ → ℕ → Call Time Vector
  embed : List Bytes → Call Time Vector
  write_concept : Concept Time → Call Time Vector
  upsert_concept : Concept Time → Call Time Vector
  upsert_embedding : Bytes → ℤ → Bytes → Vector → Time → Call Time Vector
  replace_edges : Bytes → List Bytes → Call Time Vector
  record_fact : Concept Time → Time → Time → Call Time Vector
  reconcile_bundle : List Bytes → Call Time Vector
  write_indexes : Call Time Vector
  append_log : Bytes → Call Time Vector
  commit : Bytes → Call Time Vector
  set_epoch_commit : ℤ → Bytes → Call Time Vector
  prune_embeddings : Call Time Vector
  read_bundle : Call Time Vector
  truncate : Call Time Vector

-- What the other packages do: a failure of a call, and what the last call returns.
pub record Env : Type 1 where
  pub Time : Type 0
  pub Vector : Type 0
  pub Failure : Type 0
  pub fails : List (Call Time Vector) → Call Time Vector → Option Failure
  pub shas : List (Call Time Vector) → Shas
  pub epoch : List (Call Time Vector) → ℤ × Time
  pub vectors : List (Call Time Vector) → List Vector
  pub sha : List (Call Time Vector) → Bytes
  pub concepts : List (Call Time Vector) → List (Concept Time)
  -- the name of the embedder, and a time in the form of RFC 3339
  pub model : Bytes
  pub format_time : Time → Bytes

-- an error shows the call that failed
pub data StepError (env : Env) : Type 0 where
  failed : Call env.Time env.Vector → env.Failure → StepError env
  -- the embedder returned so many vectors for so many concepts
  wrong_count : ℕ → ℕ → StepError env

module _ (env : Env) where
  open env use {Time, Vector, Failure}

  abbrev pub Trace : Type 0
  Trace = List (Call Time Vector)

  abbrev pub Steps : Type 0 → Type 0
  Steps A = Trace → Result (StepError env) A × Trace

  abbrev pub then_steps :
      {A B : Type 0}
      → Result (StepError env) A × Trace
      → (A → Steps B)
      → Result (StepError env) B × Trace
  then_steps (err e, tr) f = (err e, tr)
  then_steps (ok a, tr) f = f a tr

  -- a step, and the rest of the function where it does not fail
  unfoldable pub bind : {A B : Type 0} → Steps A → (A → Steps B) → Steps B
  bind m f tr = then_steps (m tr) f

  unfoldable pub pure : {A : Type 0} → A → Steps A
  pure a tr = (ok a, tr)

  abbrev pub outcome : Call Time Vector → Option Failure → Result (StepError env) (Unit {0})
  outcome c none = ok tt
  outcome c (some e) = err (failed c e)

  -- a call
  unfoldable pub perform : Call Time Vector → Steps (Unit {0})
  perform c tr = (outcome c (env.fails tr c), tr ++ (c ∷ []))

  -- what the last call returned
  unfoldable pub returned : {A : Type 0} → (Trace → A) → Steps A
  returned read tr = (ok (read tr), tr)
