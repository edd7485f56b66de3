-- ===== src/Epoch/Runner/Batch.antt =====
-- The calls `UpsertBatch` makes, and the concepts they are for.
use pixkb.Base.{
  Bytes, ◌≡◌, refl, subst, true, List, [], ◌∷◌, ◌++◌, All, All-append, All-map, append-nil, length,
  arith,
}
use pixkb.Text.Ascii.Equal.{equal_refl}
use pixkb.Text.Number.{ℤ}
use pixkb.Text.Members.{mem}
use pixkb.Similar.Hits.{Concept}
use pixkb.Epoch.Steps.{
  Call, next_epoch, embed, write_concept, upsert_concept, upsert_embedding, replace_edges,
  record_fact, reconcile_bundle, truncate, Env, bind, pure, returned, Steps,
}
use pixkb.Epoch.Steps.Follows.{Follows, bind-Follows, call-Follows, Trace}
use pixkb.Epoch.Runner.{
  EpochResult, embed_all, embed_texts, apply_each, apply_all, stamped, finish_epoch, ids_of,
  upsert_line, upsert_msg, upsert_result, upsert_epoch, upsert_batch,
}
use pixkb.Epoch.Runner.Calls.{
  apply_calls, writes, finish_calls, embed_and_write-Follows, finish_epoch-Follows, pure-Follows,
  read-Follows,
}

-- The call neither empties the index nor deletes the other files of the bundle, and where it is for
-- one concept, this is one of those.
unfoldable pub Spares : {Time Vector : Type 0} → List Bytes → Call Time Vector → Type 0
unfolding mem
Spares ids (reconcile_bundle keep) = ⊥
Spares ids truncate = ⊥
Spares ids (write_concept c) = mem c.id ids ≡ true
Spares ids (upsert_concept c) = mem c.id ids ≡ true
Spares ids (upsert_embedding id n model v at) = mem id ids ≡ true
Spares ids (replace_edges id links) = mem id ids ≡ true
Spares ids (record_fact c from to) = mem c.id ids ≡ true
Spares ids _ = Unit

module _ (env : Env) where
  abbrev pub stored_calls : List (Concept env.Time) → Bytes → ℤ → env.Time → Trace env → Trace env
  stored_calls cs source n at tr =
      let written : Trace env = apply_calls env (stamped env n at) at cs tr in
      written
      ++ finish_calls env n (upsert_line env n at source (length cs))
          (upsert_msg env n source (length cs)) (tr ++ written)

  -- an epoch, all concepts embedded by one call, then written, and the commit; nothing without
  -- concepts
  abbrev pub batch_calls : List (Concept env.Time) → Bytes → Trace env → Trace env
  batch_calls [] source tr = []
  batch_calls (c ∷ cs) source tr =
      let taken : Call env.Time env.Vector = next_epoch source 0 (length (c ∷ cs)) 0 in
      let numbered : Trace env = tr ++ (taken ∷ []) in
      taken ∷ stored_calls (c ∷ cs) source (env.epoch numbered).0 (env.epoch numbered).1 numbered

  upsert_epoch-Follows :
      (cs : List (Concept env.Time)) (source : Bytes) (n : ℤ) (at : env.Time) (tr : Trace env)
      → Follows env (stored_calls cs source n at tr) tr (upsert_epoch env cs source (n, at) tr)
  unfolding upsert_epoch apply_all
  upsert_epoch-Follows cs source n at tr =
      let line = upsert_line env n at source (length cs) in
      let msg = upsert_msg env n source (length cs) in
      let written : Trace env = apply_calls env (stamped env n at) at cs tr in
      let finished : Steps env EpochResult =
        bind env (finish_epoch env n line msg)
          (λ sha. pure env (upsert_result env n (length cs) sha)) in
      bind-Follows env (bind env (embed_all env cs) (apply_each env (stamped env n at) at cs))
        (λ _. finished) written (finish_calls env n line msg (tr ++ written)) tr
        (embed_and_write-Follows env (stamped env n at) at cs tr)
        (λ a e.
          subst (λ p. Follows env p (tr ++ written) (finished (tr ++ written)))
            (append-nil (finish_calls env n line msg (tr ++ written)))
            (bind-Follows env (finish_epoch env n line msg)
              (λ sha. pure env (upsert_result env n (length cs) sha))
              (finish_calls env n line msg (tr ++ written)) [] (tr ++ written)
              (finish_epoch-Follows env n line msg (tr ++ written))
              (λ sha e. pure-Follows env (upsert_result env n (length cs) sha) _)))

  batch-Follows :
      (cs : List (Concept env.Time)) (source : Bytes) (tr : Trace env)
      → Follows env (batch_calls cs source tr) tr (upsert_batch env cs source tr)
  unfolding upsert_batch
  batch-Follows [] source tr = pure-Follows env _ tr
  batch-Follows (c ∷ cs) source tr =
      let taken : Call env.Time env.Vector = next_epoch source 0 (length (c ∷ cs)) 0 in
      let numbered : Trace env = tr ++ (taken ∷ []) in
      call-Follows env taken (bind env (returned env env.epoch) (upsert_epoch env (c ∷ cs) source))
        _ tr
        (read-Follows env env.epoch (upsert_epoch env (c ∷ cs) source) _ numbered (
          upsert_epoch-Follows (c ∷ cs) source (env.epoch numbered).0 (env.epoch numbered).1
            numbered))

  -- The calls for concepts with these ids
  writes-Spare :
      (ids : List Bytes) (n : ℤ) (at : env.Time) (cs : List (Concept env.Time))
      (vs : List env.Vector)
      → All (λ c. mem c.id ids ≡ true) cs
      → All (Spares ids) (writes env (stamped env n at) at cs vs)
  unfolding Spares
  writes-Spare ids n at [] [] h = tt
  writes-Spare ids n at [] (v ∷ vs) h = tt
  writes-Spare ids n at (c ∷ cs) [] h = tt
  writes-Spare ids n at (c ∷ cs) (v ∷ vs) (m, h) =
      (m, (m, (m, (m, (m, writes-Spare ids n at cs vs h)))))

  mem-ids : (cs : List (Concept env.Time)) → All (λ c. mem c.id (ids_of env cs) ≡ true) cs
  unfolding ids_of mem
  mem-ids [] = tt
  mem-ids (c ∷ cs) = (rw (equal_refl c.id) refl, All-map (λ d m. ground (arith, m)) cs (mem-ids cs))

  stored-Spare :
      (cs : List (Concept env.Time)) (source : Bytes) (n : ℤ) (at : env.Time) (tr : Trace env)
      → All (Spares (ids_of env cs)) (stored_calls cs source n at tr)
  unfolding Spares
  stored-Spare cs source n at tr =
      let asked : Call env.Time env.Vector = embed (embed_texts env cs) in
      let all_written = writes env (stamped env n at) at cs (env.vectors (tr ++ (asked ∷ []))) in
      (
        tt,
        All-append (Spares (ids_of env cs)) all_written _
            (writes-Spare (ids_of env cs) n at cs (env.vectors (tr ++ (asked ∷ []))) (mem-ids cs))
            (tt, (tt, (tt, (tt, (tt, tt))))),
      )

  batch-Spares :
      (cs : List (Concept env.Time)) (source : Bytes) (tr : Trace env)
      → All (Spares (ids_of env cs)) (batch_calls cs source tr)
  unfolding Spares
  batch-Spares [] source tr = tt
  batch-Spares (c ∷ cs) source tr = (tt, stored-Spare (c ∷ cs) source _ _ _)

  -- Without concepts `UpsertBatch` makes no call. Else it takes an epoch, embeds all concepts by one
  -- call, writes each with its stamp and its own vector, writes the indexes and the log, commits,
  -- notes the commit and prunes, in this order. Where a call fails it makes none behind it and returns
  -- that failure; it stops without one only behind the embedder, where this returned another number of
  -- vectors than there are concepts. None of these calls is `ReconcileBundle` or `Truncate`, and each
  -- that writes the file, the row, the embedding, the links or the fact of one concept is for the id
  -- of a concept that was given.
  pub upsert_batch-Follows :
      (cs : List (Concept env.Time)) (source : Bytes) (tr : Trace env)
      → Follows env (batch_calls cs source tr) tr (upsert_batch env cs source tr)
        × All (Spares (ids_of env cs)) (batch_calls cs source tr)
  upsert_batch-Follows cs source tr = (batch-Follows cs source tr, batch-Spares cs source tr)
