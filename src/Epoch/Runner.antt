-- ===== src/Epoch/Runner.antt =====
-- `Run`, `UpsertBatch`, `Reindex` and `Diff` of internal/epoch/runner.go. The mutex makes each of them
-- one sequence of steps. The order in which Go walks a map is the parameter `walk`.
pub mod Calls
pub mod Plan
pub mod Batch
use pixkb.Base.{
  Bytes, codes, ℕ, ◌+◌, Bool, true, false, List, [], ◌∷◌, ◌++◌, length, ◌==◌, if◌then◌else◌, Result,
  ok, err,
}
use pixkb.Text.Number.{ℤ, pos, itoa}
use pixkb.Text.Number.Decimal.{format_int}
use pixkb.Fusion.Rank.{set}
use pixkb.Similar.Hits.{Concept}
use pixkb.Epoch.Diff.{Shas, DiffResult, diff_sets}
use pixkb.Epoch.Steps.{
  Call, current_shas, as_of, next_epoch, embed, write_concept, upsert_concept, upsert_embedding,
  replace_edges, record_fact, reconcile_bundle, write_indexes, append_log, commit, set_epoch_commit,
  prune_embeddings, read_bundle, truncate, Env, StepError, wrong_count, bind, pure, perform,
  returned, Steps, Trace,
}

-- `Result`
pub record EpochResult : Type 0 where
  pub epoch : ℤ
  pub added : ℕ
  pub changed : ℕ
  pub removed : ℕ
  pub commit : Bytes

module _ (env : Env) where
  open env use {Time, Vector}

  -- one call, and the rest of the function where it does not fail
  infixr 4 ◌▸◌
  abbrev pub ◌▸◌ : {A : Type 0} → Call Time Vector → Steps env A → Steps env A
  c ▸ rest = bind env (perform env c) (λ _. rest)

  unfoldable pub apply_concept : Concept Time → Time → Vector → Steps env (Unit {0})
  unfolding bind perform
  apply_concept c at vec =
      write_concept c
      ▸ upsert_concept c
      ▸ upsert_embedding c.id c.epoch env.model vec at
      ▸ replace_edges c.id c.links
      ▸ perform env (record_fact c at at)

  unfoldable pub embed_texts : List (Concept Time) → List Bytes
  embed_texts [] = []
  embed_texts (c ∷ cs) =
      (c.title ++ (codes " " ++ (c.intent_terms ++ (codes " " ++ c.body)))) ∷ embed_texts cs

  unfoldable pub counted : List (Concept Time) → List Vector → Steps env (List Vector)
  unfolding pure
  counted cs vecs tr =
      if length vecs == length cs
      then (ok vecs, tr)
      else (err (wrong_count (length vecs) (length cs)), tr)

  unfoldable pub embed_all : List (Concept Time) → Steps env (List Vector)
  unfolding embed_texts counted bind perform returned
  embed_all cs = embed (embed_texts cs) ▸ bind env (returned env env.vectors) (counted cs)

  -- the loop over the concepts and their vectors, each concept with its stamp
  unfoldable pub apply_each :
      (Concept Time → Concept Time)
      → Time
      → List (Concept Time)
      → List Vector
      → Steps env (Unit {0})
  unfolding apply_concept pure
  apply_each stamp at (c ∷ cs) (v ∷ vs) =
      bind env (apply_concept (stamp c) at v) (λ _. apply_each stamp at cs vs)
  apply_each stamp at _ _ = pure env tt

  -- the stamp of `applyAll`
  abbrev pub stamped : ℤ → Time → Concept Time → Concept Time
  stamped n at c = record c { epoch = n; embedded_at = at; embed_model = env.model }

  unfoldable pub apply_all : List (Concept Time) → ℤ → Time → Steps env (Unit {0})
  unfolding embed_all apply_each
  apply_all cs n at = bind env (embed_all cs) (apply_each (stamped n at) at cs)

  unfoldable pub finish_epoch : ℤ → Bytes → Bytes → Steps env Bytes
  unfolding bind perform returned pure
  finish_epoch n line msg =
      write_indexes
      ▸ append_log line
      ▸ commit msg
      ▸ bind env (returned env env.sha)
          (λ sha. set_epoch_commit n sha ▸ prune_embeddings ▸ pure env sha)

  -- `newSHA` and `keep`
  unfoldable pub shas_of : Shas → List (Concept Time) → Shas
  shas_of m [] = m
  shas_of m (c ∷ cs) = shas_of (set c.id c.content_sha m) cs

  unfoldable pub ids_of : List (Concept Time) → List Bytes
  ids_of [] = []
  ids_of (c ∷ cs) = c.id ∷ ids_of cs

  -- `+%d ~%d -%d`
  unfoldable pub counts : DiffResult → Bytes
  counts d =
      codes "+"
      ++ (itoa (length d.added)
          ++ (codes " ~" ++ (itoa (length d.changed) ++ (codes " -" ++ itoa (length d.removed)))))

  unfoldable pub run_line : ℤ → Time → Bytes → DiffResult → Bytes
  run_line n at source d =
      env.format_time at
      ++ (codes " epoch "
          ++ (format_int n ++ (codes " (" ++ (source ++ (codes "): " ++ counts d)))))

  unfoldable pub run_msg : ℤ → Bytes → DiffResult → Bytes
  run_msg n source d =
      codes "epoch "
      ++ (format_int n ++ (codes ": " ++ (source ++ (codes " (" ++ (counts d ++ codes ")")))))

  unfoldable pub run_result : ℤ → DiffResult → Bytes → EpochResult
  run_result n d sha = record {
    epoch = n;
    added = length d.added;
    changed = length d.changed;
    removed = length d.removed;
    commit = sha;
  }

  module _ (walk : List Bytes → List Bytes) where
    -- `Run` behind the allocation of the epoch
    unfoldable pub run_epoch :
        List (Concept Time) → Bytes → DiffResult → ℤ × Time → Steps env EpochResult
    unfolding apply_all ids_of finish_epoch run_line run_msg run_result counts bind perform pure
    run_epoch cs source d (n, at) = bind env (apply_all cs n at) (λ _.
        reconcile_bundle (ids_of cs)
        ▸ bind env (finish_epoch n (run_line n at source d) (run_msg n source d))
            (λ sha. pure env (run_result n d sha)))

    -- `Run` behind the reading of the checksums
    unfoldable pub run_diff : List (Concept Time) → Bytes → DiffResult → Steps env EpochResult
    unfolding run_epoch bind perform returned
    run_diff cs source d =
        next_epoch source (length d.added) (length d.changed) (length d.removed)
        ▸ bind env (returned env env.epoch) (run_epoch cs source d)

    unfoldable pub run : List (Concept Time) → Bytes → Steps env EpochResult
    unfolding run_diff shas_of diff_sets bind perform returned
    run cs source =
        current_shas
        ▸ bind env (returned env env.shas)
            (λ old. run_diff cs source (diff_sets walk old (shas_of [] cs)))

  unfoldable pub upsert_line : ℤ → Time → Bytes → ℕ → Bytes
  upsert_line n at source size =
      env.format_time at
      ++ (codes " epoch "
          ++ (format_int n
              ++ (codes " ("
                  ++ (source ++ (codes "): ~" ++ (itoa size ++ codes " (agent write-back)"))))))

  unfoldable pub upsert_msg : ℤ → Bytes → ℕ → Bytes
  upsert_msg n source size =
      codes "epoch "
      ++ (format_int n
          ++ (codes ": " ++ (source ++ (codes " (~" ++ (itoa size ++ codes " agent write-back)")))))

  unfoldable pub upsert_result : ℤ → ℕ → Bytes → EpochResult
  upsert_result n size sha = record {
    epoch = n;
    added = 0;
    changed = size;
    removed = 0;
    commit = sha;
  }

  -- `UpsertBatch` behind the allocation of the epoch
  unfoldable pub upsert_epoch : List (Concept Time) → Bytes → ℤ × Time → Steps env EpochResult
  unfolding apply_all finish_epoch upsert_line upsert_msg upsert_result bind pure
  upsert_epoch cs source (n, at) = bind env (apply_all cs n at) (λ _.
      bind env
        (finish_epoch n (upsert_line n at source (length cs)) (upsert_msg n source (length cs)))
        (λ sha. pure env (upsert_result n (length cs) sha)))

  unfoldable pub upsert_batch : List (Concept Time) → Bytes → Steps env EpochResult
  unfolding upsert_epoch bind perform returned pure
  upsert_batch [] source =
      pure env (record { epoch = pos 0; added = 0; changed = 0; removed = 0; commit = [] })
  upsert_batch (c ∷ cs) source =
      next_epoch source 0 (length (c ∷ cs)) 0
      ▸ bind env (returned env env.epoch) (upsert_epoch (c ∷ cs) source)

  -- `Reindex` behind the allocation of the epoch; the stamp is the epoch only
  unfoldable pub reindex_epoch : List (Concept Time) → ℤ × Time → Steps env (Unit {0})
  unfolding embed_all apply_each bind perform
  reindex_epoch cs (n, at) = bind env (embed_all cs) (λ vecs.
      bind env (apply_each (λ c. record c { epoch = n }) at cs vecs)
        (λ _. perform env prune_embeddings))

  unfoldable pub reindex : Steps env (Unit {0})
  unfolding reindex_epoch bind perform returned
  reindex =
      read_bundle
      ▸ bind env (returned env env.concepts) (λ cs.
        truncate
        ▸ next_epoch (codes "reindex") (length cs) 0 0
        ▸ bind env (returned env env.epoch) (reindex_epoch cs))

  unfoldable pub epoch_shas : ℤ → Steps env Shas
  unfolding shas_of bind perform returned pure
  epoch_shas n = as_of n ▸ bind env (returned env env.concepts) (λ cs. pure env (shas_of [] cs))

  -- `Diff`
  unfoldable pub diff : (List Bytes → List Bytes) → ℤ → ℤ → Steps env DiffResult
  unfolding epoch_shas diff_sets bind pure
  diff walk n m =
      bind env (epoch_shas n)
        (λ old. bind env (epoch_shas m) (λ new. pure env (diff_sets walk old new)))
