-- ===== src/Epoch/Runner/Plan.antt =====
-- The calls `Run` and `Reindex` make, in their order.
use pixkb.Base.{Bytes, codes, subst, List, [], ◌∷◌, ◌++◌, append-nil, length}
use pixkb.Text.Number.{ℤ}
use pixkb.Similar.Hits.{Concept}
use pixkb.Epoch.Diff.{Shas, DiffResult, diff_sets}
use pixkb.Epoch.Steps.{
  Call, current_shas, next_epoch, reconcile_bundle, prune_embeddings, read_bundle, truncate, Env,
  bind, pure, perform, returned, Steps,
}
use pixkb.Epoch.Steps.Follows.{Follows, perform-Follows, bind-Follows, call-Follows, Trace}
use pixkb.Epoch.Runner.{
  EpochResult, embed_all, apply_each, stamped, apply_all, finish_epoch, run_result, shas_of, ids_of,
  run_line, run_msg, run_epoch, run_diff, run, reindex_epoch, reindex,
}
use pixkb.Epoch.Runner.Calls.{
  apply_calls, finish_calls, pure-Follows, bind-twice, embed_and_write-Follows, read-Follows,
  finish_epoch-Follows,
}

module _ (env : Env) where
  infixr 4 ◌▸◌
  abbrev ◌▸◌ : {A : Type 0} → Call env.Time env.Vector → Steps env A → Steps env A
  c ▸ rest = bind env (perform env c) (λ _. rest)

  abbrev pub replay_calls : List (Concept env.Time) → Trace env → Trace env
  replay_calls cs tr =
      let numbered : Trace env =
        (tr ++ (truncate ∷ [])) ++ (next_epoch (codes "reindex") (length cs) 0 0 ∷ []) in
      truncate
      ∷ next_epoch (codes "reindex") (length cs) 0 0
      ∷ (apply_calls env (λ c. record c { epoch = (env.epoch numbered).0 }) (env.epoch numbered).1
            cs numbered
          ++ (prune_embeddings ∷ []))

  abbrev pub reindex_calls : Trace env → Trace env
  reindex_calls tr =
      read_bundle
      ∷ replay_calls (env.concepts (tr ++ (read_bundle ∷ []))) (tr ++ (read_bundle ∷ []))

  reindex_epoch-Follows :
      (cs : List (Concept env.Time)) (e : ℤ × env.Time) (tr : Trace env)
      → Follows env
          (apply_calls env (λ c. record c { epoch = e.0 }) e.1 cs tr ++ (prune_embeddings ∷ []))
          tr
          (reindex_epoch env cs e tr)
  unfolding reindex_epoch
  reindex_epoch-Follows cs (n, at) tr =
      let stamp : Concept env.Time → Concept env.Time = λ c. record c { epoch = n } in
      subst (Follows env (apply_calls env stamp at cs tr ++ (prune_embeddings ∷ [])) tr)
        (bind-twice env (embed_all env cs) (apply_each env stamp at cs)
          (λ _. perform env prune_embeddings) tr)
        (bind-Follows env (bind env (embed_all env cs) (apply_each env stamp at cs))
          (λ _. perform env prune_embeddings) (apply_calls env stamp at cs tr)
          (prune_embeddings ∷ []) tr (embed_and_write-Follows env stamp at cs tr)
          (λ a e. perform-Follows env prune_embeddings _))

  -- `Reindex` behind the reading of the bundle
  emptied :
      (cs : List (Concept env.Time)) (tr : Trace env)
      → Follows env (replay_calls cs tr) tr (
          (truncate
              ▸ next_epoch (codes "reindex") (length cs) 0 0
              ▸ bind env (returned env env.epoch) (reindex_epoch env cs))
            tr)
  emptied cs tr =
      let numbered : Trace env =
        (tr ++ (truncate ∷ [])) ++ (next_epoch (codes "reindex") (length cs) 0 0 ∷ []) in
      call-Follows env truncate
        (next_epoch (codes "reindex") (length cs) 0 0
          ▸ bind env (returned env env.epoch) (reindex_epoch env cs))
        _ tr
        (call-Follows env (next_epoch (codes "reindex") (length cs) 0 0)
          (bind env (returned env env.epoch) (reindex_epoch env cs)) _ _
          (read-Follows env env.epoch (reindex_epoch env cs) _ numbered
            (reindex_epoch-Follows cs (env.epoch numbered) numbered)))

  -- `Reindex` reads the bundle, empties the index, takes an epoch, embeds all concepts by one call,
  -- writes each concept with the epoch and its own vector, and prunes, in this order. Where a call
  -- fails it makes none behind it and returns that failure; it stops without one only behind the
  -- embedder, where this returned another number of vectors than there are concepts; else it makes all calls.
  pub reindex-Follows : (tr : Trace env) → Follows env (reindex_calls tr) tr (reindex env tr)
  unfolding reindex
  reindex-Follows tr = call-Follows env read_bundle _ _ tr (
      read-Follows env env.concepts
        (λ cs.
          truncate
          ▸ next_epoch (codes "reindex") (length cs) 0 0
          ▸ bind env (returned env env.epoch) (reindex_epoch env cs))
        _ _ (emptied (env.concepts (tr ++ (read_bundle ∷ []))) (tr ++ (read_bundle ∷ []))))

  module _ (walk : List Bytes → List Bytes) where
    -- `Run` behind the allocation of the epoch
    abbrev pub snapshot_calls :
        List (Concept env.Time) → Bytes → DiffResult → ℤ → env.Time → Trace env → Trace env
    snapshot_calls cs source d n at tr =
        let written : Trace env = apply_calls env (stamped env n at) at cs tr in
        written
        ++ (reconcile_bundle (ids_of env cs)
            ∷ finish_calls env n (run_line env n at source d) (run_msg env n source d)
                ((tr ++ written) ++ (reconcile_bundle (ids_of env cs) ∷ [])))

    -- The files of concepts that are not given go after all given ones are written, and the commit
    -- comes behind both.
    abbrev pub run_calls : List (Concept env.Time) → Bytes → Trace env → Trace env
    run_calls cs source tr =
        let asked : Trace env = tr ++ (current_shas ∷ []) in
        let d : DiffResult = diff_sets walk (env.shas asked) (shas_of env [] cs) in
        let taken : Call env.Time env.Vector =
          next_epoch source (length d.added) (length d.changed) (length d.removed) in
        let numbered : Trace env = asked ++ (taken ∷ []) in
        current_shas
        ∷ taken
        ∷ snapshot_calls cs source d (env.epoch numbered).0 (env.epoch numbered).1 numbered

    ended :
        (n : ℤ) (line msg : Bytes) (d : DiffResult) (tr : Trace env)
        → Follows env
            (finish_calls env n line msg tr)
            tr
            (bind env (finish_epoch env n line msg) (λ sha. pure env (run_result env n d sha)) tr)
    ended n line msg d tr =
        subst
          (λ p.
            Follows env p tr (
              bind env (finish_epoch env n line msg) (λ sha. pure env (run_result env n d sha)) tr))
          (append-nil (finish_calls env n line msg tr))
          (bind-Follows env (finish_epoch env n line msg) (λ sha. pure env (run_result env n d sha))
            (finish_calls env n line msg tr) [] tr (finish_epoch-Follows env n line msg tr)
            (λ sha e. pure-Follows env (run_result env n d sha) _))

    run_epoch-Follows :
        (cs : List (Concept env.Time)) (source : Bytes) (d : DiffResult) (n : ℤ) (at : env.Time)
        (tr : Trace env)
        → Follows env
            (snapshot_calls cs source d n at tr)
            tr
            (run_epoch env walk cs source d (n, at) tr)
    unfolding run_epoch apply_all
    run_epoch-Follows cs source d n at tr =
        let finished : Steps env EpochResult =
          bind env (finish_epoch env n (run_line env n at source d) (run_msg env n source d))
            (λ sha. pure env (run_result env n d sha)) in
        bind-Follows env (bind env (embed_all env cs) (apply_each env (stamped env n at) at cs))
          (λ _. reconcile_bundle (ids_of env cs) ▸ finished)
          (apply_calls env (stamped env n at) at cs tr) _ tr
          (embed_and_write-Follows env (stamped env n at) at cs tr)
          (λ a e.
            call-Follows env (reconcile_bundle (ids_of env cs)) finished _ _
              (ended n (run_line env n at source d) (run_msg env n source d) d _))

    run_diff-Follows :
        (cs : List (Concept env.Time)) (source : Bytes) (d : DiffResult) (tr : Trace env)
        → (let taken : Call env.Time env.Vector =
              next_epoch source (length d.added) (length d.changed) (length d.removed) in
            let numbered : Trace env = tr ++ (taken ∷ []) in
            Follows env
              (taken
                ∷ snapshot_calls cs source d (env.epoch numbered).0 (env.epoch numbered).1 numbered)
              tr
              (run_diff env walk cs source d tr))
    unfolding run_diff
    run_diff-Follows cs source d tr =
        let taken : Call env.Time env.Vector =
          next_epoch source (length d.added) (length d.changed) (length d.removed) in
        call-Follows env taken (bind env (returned env env.epoch) (run_epoch env walk cs source d))
          _ tr
          (read-Follows env env.epoch (run_epoch env walk cs source d) _ (tr ++ (taken ∷ [])) (
            run_epoch-Follows cs source d (env.epoch (tr ++ (taken ∷ []))).0
              (env.epoch (tr ++ (taken ∷ []))).1 (tr ++ (taken ∷ []))))

    -- `Run` reads the checksums of before, takes an epoch with the numbers of ids added, changed and
    -- removed, embeds all concepts by one call, writes each with its stamp and its own vector, then
    -- deletes the other files, writes the indexes and the log, commits, notes the commit with the epoch
    -- and prunes, in this order. Where a call fails it makes none behind it and returns that failure;
    -- it stops without one only behind the embedder, where this returned another number of vectors than
    -- there are concepts; else it makes all calls.
    pub run-Follows :
        (cs : List (Concept env.Time)) (source : Bytes) (tr : Trace env)
        → Follows env (run_calls cs source tr) tr (run env walk cs source tr)
    unfolding run
    run-Follows cs source tr =
        let asked : Trace env = tr ++ (current_shas ∷ []) in
        let rest : Shas → Steps env EpochResult =
          λ old. run_diff env walk cs source (diff_sets walk old (shas_of env [] cs)) in
        call-Follows env current_shas (bind env (returned env env.shas) rest) _ tr (
          read-Follows env env.shas rest _ asked (
            run_diff-Follows cs source (diff_sets walk (env.shas asked) (shas_of env [] cs)) asked))
