-- ===== src/Kbmcp/Ask/Types.antt =====
-- The type filter of a `kb_ask` request, which is not part of the key of its cache.
use pixkb.Base.{
  Bytes, ◌≡◌, refl, sym, ap, ◌∙◌, subst, false, ◌&&◌, none, some, if◌then◌else◌, Result, ok, err,
  err-ne-ok, ok-injective, Bool-cases, inl, inr,
}
use pixkb.Text.Number.{ℤ}
use pixkb.Fusion.Rank.{Float}
use pixkb.Rag.Types.{Grounding, Answer, Error}
use pixkb.Rag.Grounding.{build_grounding}
use pixkb.Rag.Cache.{LruCache}
use pixkb.Rag.Cache.Reachable.{IsReachable}
use pixkb.Rag.Ask.{Asked, State, ask}
use pixkb.Rag.Ask.Again.{Held, ask-Held, ask-again}
use pixkb.Kbmcp.Ask.{
  AskIn, AskOut, Deps, is_limited, type_filter, options_of, ask_out, cache_after, kb_ask_at, kb_ask,
  citations_out,
}

module _ (float : Float) {Failure World : Type 0} (d : Deps float Failure World) where
  abbrev pub asked : AskIn float.Num → ℤ → LruCache Answer → World → Asked Failure × State World
  asked i epoch shared w =
      ask float d.env (d.retriever (type_filter float d i.type)) d.concepts i.question
        (options_of float d i epoch) (record { cache = some shared; world = w })

  -- A request that uses the cache, where the store tells the epoch.
  pub kb_ask-eq :
      (i : AskIn float.Num) (shared : LruCache Answer) (w : World) (epoch : ℤ)
      → d.latest_epoch w ≡ ok epoch
      → i.no_cache ≡ false
      → kb_ask float d i shared w ≡ (
        ask_out float d (asked i epoch shared w).0,
        cache_after float d shared (asked i epoch shared w).1.cache,
        (asked i epoch shared w).1.world,
      )
  unfolding kb_ask kb_ask_at
  kb_ask-eq i shared w epoch e n =
      ap (kb_ask_at float d i shared w) e
      ∙ ap
          (λ b.
            let out =
              ask float d.env (d.retriever (type_filter float d i.type)) d.concepts i.question
                (options_of float d i epoch)
                (record { cache = if b then none else some shared; world = w }) in
            (ask_out float d out.0, cache_after float d shared out.1.cache, out.1.world))
          n

  -- What is given out is the answer of `Ask`.
  ask_out-ok :
      (x : Asked Failure) (out : AskOut)
      → ask_out float d x ≡ ok out
      → (a : Answer) × (x.answer ≡ ok a)
        × (out ≡ record {
          answer = a.text;
          refused = a.refused;
          citations = citations_out x.grounding a.citations;
        })
  unfolding ask_out
  ask_out-ok x out k = given x.answer k
    where
      given :
          (r : Result (Error Failure) Answer)
          → ask_out float d (record x { answer = r }) ≡ ok out
          → (a : Answer) × (r ≡ ok a)
            × (out ≡ record {
              answer = a.text;
              refused = a.refused;
              citations = citations_out x.grounding a.citations;
            })
      given (err e) q = elim (Bool-cases (is_limited float d e)) [
        | inl t ↦ absurd (err-ne-ok (rw t at q))
        | inr f ↦ absurd (err-ne-ok (rw f at q))
      ]
      given (ok a) q = (a, refl, sym (ok-injective q))

  pub ask_out-of :
      (x : Asked Failure) (a : Answer)
      → x.answer ≡ ok a
      → ask_out float d x
        ≡ ok (record {
          answer = a.text;
          refused = a.refused;
          citations = citations_out x.grounding a.citations;
        })
  unfolding ask_out
  ask_out-of x a e = given x.answer e
    where
      given :
          (r : Result (Error Failure) Answer)
          → r ≡ ok a
          → ask_out float d (record x { answer = r })
            ≡ ok (record {
              answer = a.text;
              refused = a.refused;
              citations = citations_out x.grounding a.citations;
            })
      given (err e) q = absurd (err-ne-ok q)
      given (ok b) q = rw (ok-injective q) refl

  abbrev pub with_type : Bytes → AskIn float.Num → AskIn float.Num
  with_type type i = record i { type = type }

  -- Where a request with the filter on and with the cache is answered, then a request that differs in
  -- the type to search for, in the same epoch, gets the same text without a run of the agent, unless
  -- its retrieval fails: the cache does not tell the types apart.
  pub kb_ask-any_type :
      (i : AskIn float.Num) (type : Bytes) (shared shared' : LruCache Answer) (w w' : World)
      (epoch : ℤ) (out : AskOut) (g : Grounding)
      → IsReachable shared
      → i.no_cache ≡ false
      → i.no_pii_filter ≡ false
      → d.latest_epoch w ≡ ok epoch
      → kb_ask float d i shared w ≡ (ok out, shared', w')
      → d.latest_epoch w' ≡ ok epoch
      → build_grounding float
          (d.retriever (type_filter float d type))
          d.concepts
          i.question
          (options_of float d i epoch)
        ≡ ok g
      → (again : AskOut) × ((kb_ask float d (with_type type i) shared' w').0 ≡ ok again)
        × (again.answer ≡ out.answer)
        × (again.refused ≡ out.refused)
        × ((kb_ask float d (with_type type i) shared' w').2 ≡ w')
  unfolding options_of Held cache_after
  kb_ask-any_type i type shared shared' w w' epoch out g reach n p e k e' b =
      let opts = options_of float d i epoch in
      let r = d.retriever (type_filter float d i.type) in
      let r' = d.retriever (type_filter float d type) in
      let x = asked i epoch shared w in
      let first = sym (kb_ask-eq i shared w epoch e n) ∙ k in
      let (a, answered, gives) = ask_out-ok x.0 out (ap (λ o. o.0) first) in
      let on : opts.no_pii_filter ≡ false = ap (λ f. f && d.allow_pii_bypass) p in
      let (c, kept, held) =
        ask-Held float d.env r d.concepts i.question opts shared w a on reach answered in
      let kept' : x.1.cache ≡ some shared' =
        kept ∙ ap some (sym (ap (cache_after float d shared) kept) ∙ ap (λ o. o.1) first) in
      let state : x.1 ≡ record { cache = some shared'; world = w' } =
        λ j. record { cache = kept' j; world = ap (λ o. o.2) first j } in
      let (answer, same) =
        ask-again float d.env r r' d.concepts d.concepts i.question opts shared w a g on reach
          answered b in
      let second = kb_ask-eq (with_type type i) shared' w' epoch e' n in
      let y = asked (with_type type i) epoch shared' w' in
      let answer' : y.0.answer ≡ ok a =
        subst (λ s. (ask float d.env r' d.concepts i.question opts s).0.answer ≡ ok a) state
          answer in
      let same' : y.1.world ≡ w' =
        subst (λ s. (ask float d.env r' d.concepts i.question opts s).1.world ≡ s.world) state
          same in
      (
        record {
          answer = a.text;
          refused = a.refused;
          citations = citations_out y.0.grounding a.citations;
        },
        ap (λ o. o.0) second ∙ ask_out-of y.0 a answer',
        sym (ap (λ o. o.answer) gives),
        sym (ap (λ o. o.refused) gives),
        ap (λ o. o.2) second ∙ same',
      )
