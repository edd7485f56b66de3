-- ===== src/Rag/Ask/Private.antt =====
-- Only redacted answers are cached, and only they are given where the filter is on.
use pixkb.Base.{
  Bytes, ◌≡◌, refl, sym, ap, subst, true, false, Option, none, some, Result, ok, err, Bool-cases,
  inl, inr, ok-injective, err-ne-ok,
}
use pixkb.Fusion.Rank.{Float}
use pixkb.Rag.Types.{Grounding, Answer, Options, Retriever, ConceptSource, Error}
use pixkb.Rag.Grounding.{build_grounding}
use pixkb.Rag.Answer.{synthesize}
use pixkb.Rag.Cache.{LruCache, get}
use pixkb.Rag.Ask.{
  Asked, State, Env, key_of, filtered, stored_in, keep, ask_fresh, ask_found, ask_on, ask_with, ask,
}
use pixkb.Rag.Ask.Cached.{
  IsRedacted, IsClean, get-IsClean, put-IsClean, filtered_on, stored_in_off, stored_in_on,
  ask_on_off, ask_on_on,
}

module _ {Failure World Score : Type 0} (env : Env Failure World Score) where
  -- what holds behind a call
  pub record IsPrivate (opts : Options Score) (before : Option (LruCache Answer))
      (out : Asked Failure × State World) : Type 0 where
    pub clean : IsClean env.patterns out.1.cache
    pub untouched : opts.no_pii_filter ≡ true → out.1.cache ≡ before
    pub redacted :
        opts.no_pii_filter ≡ false → (a : Answer) → out.0.answer ≡ ok a → IsRedacted env.patterns a

  none_stored :
      (q : Bytes) (opts : Options Score) (a : Answer)
      → IsClean env.patterns (stored_in env q opts (filtered env opts a) none)
  unfolding stored_in
  none_stored q opts a = tt

  stored-IsClean :
      (q : Bytes) (opts : Options Score) (a : Answer) (c : Option (LruCache Answer))
      → IsClean env.patterns c
      → IsClean env.patterns (stored_in env q opts (filtered env opts a) c)
  stored-IsClean q opts a c h = elim (Bool-cases opts.no_pii_filter) [
    | inl t ↦
        subst (IsClean env.patterns) (sym (stored_in_off env q opts (filtered env opts a) c t)) h
    | inr f ↦ stored_on q opts a c f h
  ]
    where
      stored_on :
          (q : Bytes) (opts : Options Score) (a : Answer) (c : Option (LruCache Answer))
          → opts.no_pii_filter ≡ false
          → IsClean env.patterns c
          → IsClean env.patterns (stored_in env q opts (filtered env opts a) c)
      stored_on q opts a none f h = none_stored q opts a
      stored_on q opts a (some c) f h =
          subst (IsClean env.patterns) (sym (stored_in_on env q opts (filtered env opts a) c f)) (
            put-IsClean env.patterns c (key_of env q opts) (filtered env opts a) h
              (a.text, ap (λ b. b.text) (filtered_on env opts a f)))

  keep-IsPrivate :
      (q : Bytes) (opts : Options Score) (g : Grounding) (c : Option (LruCache Answer))
      (r : Result (Error Failure) Answer × World)
      → IsClean env.patterns c
      → IsPrivate opts c (keep env q opts g c r)
  unfolding keep
  keep-IsPrivate q opts g c (err e, w) h = record {
    clean = h;
    untouched = λ t. refl;
    redacted = λ f a k. absurd (err-ne-ok k);
  }
  keep-IsPrivate q opts g c (ok a, w) h = record {
    clean = stored-IsClean q opts a c h;
    untouched = stored_in_off env q opts (filtered env opts a) c;
    redacted = λ f b k.
        subst (IsRedacted env.patterns) (ok-injective k)
          (a.text, ap (λ b. b.text) (filtered_on env opts a f));
  }

  fresh-IsPrivate :
      (q : Bytes) (opts : Options Score) (g : Grounding) (c : Option (LruCache Answer)) (w : World)
      → IsClean env.patterns c
      → IsPrivate opts c (ask_fresh env q opts g c w)
  unfolding ask_fresh
  fresh-IsPrivate q opts g c w h =
      keep-IsPrivate q opts g c (synthesize env.generate env.unmarshal g w) h

  found-IsPrivate :
      (q : Bytes) (opts : Options Score) (g : Grounding) (w : World)
      (before : Option (LruCache Answer)) (r : Option Answer × LruCache Answer)
      → opts.no_pii_filter ≡ false
      → IsClean env.patterns (some r.1)
      → ((a : Answer) → r.0 ≡ some a → IsRedacted env.patterns a)
      → IsPrivate opts before (ask_found env q opts g w r)
  unfolding ask_found
  found-IsPrivate q opts g w before (some a, c) f h i = record {
    clean = h;
    untouched = λ t. cc (f, t);
    redacted = λ v b k. subst (IsRedacted env.patterns) (ok-injective k) (i a refl);
  }
  found-IsPrivate q opts g w before (none, c) f h i =
      let p = fresh-IsPrivate q opts g (some c) w h in
      record { clean = p.clean; untouched = λ t. cc (f, t); redacted = p.redacted }

  pub ask_on-IsPrivate :
      (q : Bytes) (opts : Options Score) (g : Grounding) (c : Option (LruCache Answer)) (w : World)
      → IsClean env.patterns c
      → IsPrivate opts c (ask_on env q opts g c w)
  unfolding ask_on
  ask_on-IsPrivate q opts g none w h = fresh-IsPrivate q opts g none w h
  ask_on-IsPrivate q opts g (some c) w h = elim (Bool-cases opts.no_pii_filter) [
    | inl t ↦
        subst (IsPrivate opts (some c)) (sym (ask_on_off env q opts g (some c) w t))
          (fresh-IsPrivate q opts g (some c) w h)
    | inr f ↦
        let (clean, found) = get-IsClean env.patterns c (key_of env q opts) h in
        subst (IsPrivate opts (some c)) (sym (ask_on_on env q opts g c w f))
          (found-IsPrivate q opts g w (some c) (get c (key_of env q opts)) f clean found)
  ]

module _ (float : Float) {Failure World : Type 0} (env : Env Failure World float.Num)
    (r : Retriever Failure float.Num) (cs : ConceptSource Failure) where
  with-IsPrivate :
      (q : Bytes) (opts : Options float.Num) (s : State World)
      (g : Result (Error Failure) Grounding)
      → IsClean env.patterns s.cache
      → IsPrivate env opts s.cache (ask_with float env r cs q opts s g)
  unfolding ask_with
  with-IsPrivate q opts s (err e) h = record {
    clean = h;
    untouched = λ t. refl;
    redacted = λ f a k. absurd (err-ne-ok k);
  }
  with-IsPrivate q opts s (ok g) h = ask_on-IsPrivate env q opts g s.cache s.world h

  -- Where every answer in the cache is redacted, the same holds behind a call of `Ask`, however it
  -- ends; a call with the filter off leaves the cache as it is, and a call with the
  -- filter on gives only redacted answers.
  pub ask-IsPrivate :
      (q : Bytes) (opts : Options float.Num) (s : State World)
      → IsClean env.patterns s.cache
      → IsPrivate env opts s.cache (ask float env r cs q opts s)
  unfolding ask
  ask-IsPrivate q opts s h = with-IsPrivate q opts s (build_grounding float r cs q opts) h
