-- ===== src/Epoch/Runner/Calls.antt =====
-- The calls that `applyAll` and `finishEpoch` of internal/epoch/runner.go make, in their order.
use pixkb.Base.{
  Bytes, suc, ◌≡◌, refl, sym, ap, subst, List, [], ◌∷◌, ◌++◌, append-nil, length, ◌==◌, Bool-cases,
  inl, inr, Result, ok, err,
}
use pixkb.Text.Number.{ℤ}
use pixkb.Similar.Hits.{Concept}
use pixkb.Epoch.Steps.{
  Call, embed, write_concept, upsert_concept, upsert_embedding, replace_edges, record_fact,
  write_indexes, append_log, commit, set_epoch_commit, prune_embeddings, Env, StepError,
  wrong_count, then_steps, bind, pure, perform, returned, Steps,
}
use pixkb.Epoch.Steps.Follows.{
  Miscounted, Follows, all, stopped, perform-Follows, bind-Follows, call-Follows, Trace,
}
use pixkb.Epoch.Runner.{apply_concept, embed_texts, counted, embed_all, apply_each, finish_epoch}

module _ (env : Env) where
  -- the calls for one concept: the file first, then the row, the embedding, the links and the fact
  abbrev pub concept_calls : Concept env.Time → env.Time → env.Vector → Trace env
  concept_calls c at v =
      write_concept c
      ∷ upsert_concept c
      ∷ upsert_embedding c.id c.epoch env.model v at
      ∷ replace_edges c.id c.links
      ∷ record_fact c at at
      ∷ []

  -- each concept with the vector at its place
  abbrev pub writes :
      (Concept env.Time → Concept env.Time)
      → env.Time
      → List (Concept env.Time)
      → List env.Vector
      → Trace env
  writes stamp at (c ∷ cs) (v ∷ vs) = concept_calls (stamp c) at v ++ writes stamp at cs vs
  writes stamp at _ _ = []

  -- all concepts embedded by one call, then written
  abbrev pub apply_calls :
      (Concept env.Time → Concept env.Time)
      → env.Time
      → List (Concept env.Time)
      → Trace env
      → Trace env
  apply_calls stamp at cs tr =
      embed (embed_texts env cs)
      ∷ writes stamp at cs (env.vectors (tr ++ (embed (embed_texts env cs) ∷ [])))

  abbrev pub finish_calls : ℤ → Bytes → Bytes → Trace env → Trace env
  finish_calls n line msg tr =
      write_indexes
      ∷ append_log line
      ∷ commit msg
      ∷ set_epoch_commit n
          (env.sha (((tr ++ (write_indexes ∷ [])) ++ (append_log line ∷ [])) ++ (commit msg ∷ [])))
      ∷ prune_embeddings
      ∷ []

  apply_concept-Follows :
      (c : Concept env.Time) (at : env.Time) (v : env.Vector) (tr : Trace env)
      → Follows env (concept_calls c at v) tr (apply_concept env c at v tr)
  unfolding apply_concept
  apply_concept-Follows c at v tr = call-Follows env (write_concept c) _ _ tr (
      call-Follows env (upsert_concept c) _ _ _ (
        call-Follows env (upsert_embedding c.id c.epoch env.model v at) _ _ _ (
          call-Follows env (replace_edges c.id c.links) _ _ _
            (perform-Follows env (record_fact c at at) _))))

  pub pure-Follows : {A : Type 0} (a : A) (tr : Trace env) → Follows env [] tr (pure env a tr)
  unfolding pure
  pure-Follows {A} a tr =
      subst (λ t. Follows env {A = A} [] tr (ok a, t)) (append-nil tr) (all a tt)

  apply_each-Follows :
      (stamp : Concept env.Time → Concept env.Time) (at : env.Time) (cs : List (Concept env.Time))
      (vs : List env.Vector) (tr : Trace env)
      → Follows env (writes stamp at cs vs) tr (apply_each env stamp at cs vs tr)
  unfolding apply_each
  apply_each-Follows stamp at [] [] tr = pure-Follows tt tr
  apply_each-Follows stamp at [] (v ∷ vs) tr = pure-Follows tt tr
  apply_each-Follows stamp at (c ∷ cs) [] tr = pure-Follows tt tr
  apply_each-Follows stamp at (c ∷ cs) (v ∷ vs) tr =
      bind-Follows env (apply_concept env (stamp c) at v) (λ _. apply_each env stamp at cs vs)
        (concept_calls (stamp c) at v) (writes stamp at cs vs) tr
        (apply_concept-Follows (stamp c) at v tr)
        (λ a e. apply_each-Follows stamp at cs vs (tr ++ concept_calls (stamp c) at v))

  length-embed_texts : (cs : List (Concept env.Time)) → length cs ≡ length (embed_texts env cs)
  unfolding embed_texts
  length-embed_texts [] = refl
  length-embed_texts (c ∷ cs) = ap suc (length-embed_texts cs)

  -- the vectors given, or an error
  counted-apply :
      (stamp : Concept env.Time → Concept env.Time) (at : env.Time) (cs : List (Concept env.Time))
      (before : Trace env)
      → (let asked : Trace env = before ++ (embed (embed_texts env cs) ∷ []) in
          Follows env
            (writes stamp at cs (env.vectors asked))
            asked
            (bind env (counted env cs (env.vectors asked)) (apply_each env stamp at cs) asked))
  unfolding counted bind
  counted-apply stamp at cs before =
      let asked : Trace env = before ++ (embed (embed_texts env cs) ∷ []) in
      let vs : List env.Vector = env.vectors asked in
      elim (Bool-cases (length vs == length cs)) [
        | inl t ↦ rw t (apply_each-Follows stamp at cs vs asked)
        | inr f ↦ rw f (
            subst
              (λ t.
                Follows env {A = Unit {0}} (writes stamp at cs vs) asked
                  (err (wrong_count (length vs) (length cs)), t))
              (append-nil asked)
              (stopped (length vs) (length cs) [] (writes stamp at cs vs)
                (subst (Miscounted env (length vs) (length cs)) (sym (append-nil asked))
                  (f, refl, before, embed_texts env cs, refl, length-embed_texts cs))
                refl tt))
      ]

  then_steps-twice :
      {A B C : Type 0} (r : Result (StepError env) A × Trace env) (f : A → Steps env B)
      (g : B → Steps env C)
      → then_steps env (then_steps env r f) g ≡ then_steps env r (λ a. bind env (f a) g)
  unfolding bind
  then_steps-twice (err e, tr) f g = refl
  then_steps-twice (ok a, tr) f g = refl

  pub bind-twice :
      {A B C : Type 0} (m : Steps env A) (f : A → Steps env B) (g : B → Steps env C)
      (tr : Trace env)
      → bind env (bind env m f) g tr ≡ bind env m (λ a. bind env (f a) g) tr
  unfolding bind
  bind-twice m f g tr = then_steps-twice (m tr) f g

  -- reading what the last call returned
  pub read-Follows :
      {A B : Type 0} (read : Trace env → A) (f : A → Steps env B) (p tr : Trace env)
      → Follows env p tr (f (read tr) tr)
      → Follows env p tr (bind env (returned env read) f tr)
  unfolding bind returned
  read-Follows read f p tr h = h

  pub embed_and_write-Follows :
      (stamp : Concept env.Time → Concept env.Time) (at : env.Time) (cs : List (Concept env.Time))
      (tr : Trace env)
      → Follows env
          (apply_calls stamp at cs tr)
          tr
          (bind env (embed_all env cs) (apply_each env stamp at cs) tr)
  unfolding embed_all
  embed_and_write-Follows stamp at cs tr =
      let asked : Trace env = tr ++ (embed (embed_texts env cs) ∷ []) in
      subst (Follows env (apply_calls stamp at cs tr) tr)
        (sym (
          bind-twice (perform env (embed (embed_texts env cs)))
            (λ _. bind env (returned env env.vectors) (counted env cs)) (apply_each env stamp at cs)
            tr))
        (call-Follows env (embed (embed_texts env cs))
          (bind env (bind env (returned env env.vectors) (counted env cs))
            (apply_each env stamp at cs))
          (writes stamp at cs (env.vectors asked)) tr
          (subst (Follows env (writes stamp at cs (env.vectors asked)) asked)
            (sym (
              bind-twice (returned env env.vectors) (counted env cs) (apply_each env stamp at cs)
                asked))
            (read-Follows env.vectors
              (λ vs. bind env (counted env cs vs) (apply_each env stamp at cs)) _ asked
              (counted-apply stamp at cs tr))))

  infixr 4 ◌▸◌
  abbrev ◌▸◌ : {A : Type 0} → Call env.Time env.Vector → Steps env A → Steps env A
  c ▸ rest = bind env (perform env c) (λ _. rest)

  -- the end of `finishEpoch`
  marked :
      (n : ℤ) (sha : Bytes) (tr : Trace env)
      → Follows env
          (set_epoch_commit n sha ∷ prune_embeddings ∷ [])
          tr
          ((set_epoch_commit n sha ▸ prune_embeddings ▸ pure env sha) tr)
  marked n sha tr =
      call-Follows env (set_epoch_commit n sha) (prune_embeddings ▸ pure env sha)
        (prune_embeddings ∷ []) tr
        (call-Follows env prune_embeddings (pure env sha) [] _ (pure-Follows sha _))

  pub finish_epoch-Follows :
      (n : ℤ) (line msg : Bytes) (tr : Trace env)
      → Follows env (finish_calls n line msg tr) tr (finish_epoch env n line msg tr)
  unfolding finish_epoch
  finish_epoch-Follows n line msg tr = call-Follows env write_indexes _ _ tr (
      call-Follows env (append_log line) _ _ _ (
        call-Follows env (commit msg) _ _ _ (
          read-Follows env.sha (λ sha. set_epoch_commit n sha ▸ prune_embeddings ▸ pure env sha) _ _
            (marked n (env.sha _) _))))
