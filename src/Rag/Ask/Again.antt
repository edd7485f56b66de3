-- ===== src/Rag/Ask/Again.antt =====
-- A question that is asked again is answered from the cache.
use pixkb.Base.{
  Bytes, ◌≡◌, refl, sym, ap, ◌∙◌, subst, false, Option, none, some, Result, ok, err, err-ne-ok,
  ok-injective,
}
use pixkb.Fusion.Rank.{Float}
use pixkb.Rag.Types.{Grounding, Answer, Options, Retriever, ConceptSource, Error}
use pixkb.Rag.Grounding.{build_grounding}
use pixkb.Rag.Answer.{synthesize}
use pixkb.Rag.Cache.{LruCache, get, put}
use pixkb.Rag.Cache.Entries.{entries, lookup}
use pixkb.Rag.Cache.Consistent.{get-IsConsistent}
use pixkb.Rag.Cache.Reachable.{IsReachable, after_get, IsReachable-IsConsistent, get-put}
use pixkb.Rag.Ask.{State, Env, key_of, filtered, keep, ask_fresh, ask_found, ask_on, ask_with, ask}
use pixkb.Rag.Ask.Cached.{lookup-used, stored_in_on, ask_on_on}

-- An answer that was just read is read again.
get-get :
    {c : LruCache Answer}
    → IsReachable c
    → (key : Bytes) (a : Answer) → (get c key).0 ≡ some a
    → (get (get c key).1 key).0 ≡ some a
get-get {c} r key a e =
    let (i, found, now) = get-IsConsistent c key (IsReachable-IsConsistent r).0 in
    (get-IsConsistent (get c key).1 key i).1
    ∙ ap (lookup key) now
    ∙ lookup-used key a (entries c.ll) (sym found ∙ e)

-- the cache answers the key
unfoldable pub Held : Bytes → Option (LruCache Answer) → Answer → Type 0
Held key cache a = (c : LruCache Answer) × (cache ≡ some c) × ((get c key).0 ≡ some a)

module _ {Failure World Score : Type 0} (env : Env Failure World Score) where
  keep-Held :
      (q : Bytes) (opts : Options Score) (g : Grounding) (c : LruCache Answer)
      (r : Result (Error Failure) Answer × World) (a : Answer)
      → opts.no_pii_filter ≡ false
      → IsReachable c
      → (keep env q opts g (some c) r).0.answer ≡ ok a
      → Held (key_of env q opts) (keep env q opts g (some c) r).1.cache a
  unfolding keep Held
  keep-Held q opts g c (err e, w) a f h k = absurd (err-ne-ok k)
  keep-Held q opts g c (ok b, w) a f h k = (
    put c (key_of env q opts) (filtered env opts b),
    stored_in_on env q opts (filtered env opts b) c f,
    get-put h (key_of env q opts) (filtered env opts b) ∙ ap some (ok-injective k),
  )

  found-Held :
      (q : Bytes) (opts : Options Score) (g : Grounding) (w : World)
      (r : Option Answer × LruCache Answer) (a : Answer)
      → opts.no_pii_filter ≡ false
      → IsReachable r.1
      → ((b : Answer) → r.0 ≡ some b → (get r.1 (key_of env q opts)).0 ≡ some b)
      → (ask_found env q opts g w r).0.answer ≡ ok a
      → Held (key_of env q opts) (ask_found env q opts g w r).1.cache a
  unfolding ask_found ask_fresh Held
  found-Held q opts g w (some b, c) a f h i k = (c, refl, i b refl ∙ ap some (ok-injective k))
  found-Held q opts g w (none, c) a f h i k =
      keep-Held q opts g c (synthesize env.generate env.unmarshal g w) a f h k

  found_again :
      (q : Bytes) (opts : Options Score) (g : Grounding) (w : World)
      (r : Option Answer × LruCache Answer) (a : Answer)
      → r.0 ≡ some a
      → ((ask_found env q opts g w r).0.answer ≡ ok a) × ((ask_found env q opts g w r).1.world ≡ w)
  unfolding ask_found
  found_again q opts g w (some b, c) a e = (cc e, refl)
  found_again q opts g w (none, c) a e = cc

module _ (float : Float) {Failure World : Type 0} (env : Env Failure World float.Num) where
  with-Held :
      (r : Retriever Failure float.Num) (cs : ConceptSource Failure) (q : Bytes)
      (opts : Options float.Num) (c : LruCache Answer) (w : World)
      (g : Result (Error Failure) Grounding) (a : Answer)
      → opts.no_pii_filter ≡ false
      → IsReachable c
      → (ask_with float env r cs q opts (record { cache = some c; world = w }) g).0.answer ≡ ok a
      → Held
          (key_of env q opts)
          (ask_with float env r cs q opts (record { cache = some c; world = w }) g).1.cache
          a
  unfolding ask_with
  with-Held r cs q opts c w (err e) a f h k = absurd (err-ne-ok k)
  with-Held r cs q opts c w (ok g) a f h k =
      let key = key_of env q opts in
      let on = ask_on_on env q opts g c w f in
      subst (λ o. Held key o.1.cache a) (sym on)
        (found-Held env q opts g w (get c key) a f (after_get h key) (get-get h key)
          (sym (ap (λ o. o.0.answer) on) ∙ k))

  with_again :
      (r : Retriever Failure float.Num) (cs : ConceptSource Failure) (q : Bytes)
      (opts : Options float.Num) (s : State World) (g : Grounding) (a : Answer)
      → opts.no_pii_filter ≡ false
      → Held (key_of env q opts) s.cache a
      → ((ask_with float env r cs q opts s (ok g)).0.answer ≡ ok a)
        × ((ask_with float env r cs q opts s (ok g)).1.world ≡ s.world)
  unfolding ask_with Held
  with_again r cs q opts s g a f (c, e, k) =
      subst
        (λ o.
          ((ask_on env q opts g o s.world).0.answer ≡ ok a)
          × ((ask_on env q opts g o s.world).1.world ≡ s.world))
        (sym e)
        (subst (λ out. (out.0.answer ≡ ok a) × (out.1.world ≡ s.world))
          (sym (ask_on_on env q opts g c s.world f))
          (found_again env q opts g s.world (get c (key_of env q opts)) a k))

  -- the cache behind an answer holds it
  pub ask-Held :
      (r : Retriever Failure float.Num) (cs : ConceptSource Failure) (q : Bytes)
      (opts : Options float.Num) (c : LruCache Answer) (w : World) (a : Answer)
      → opts.no_pii_filter ≡ false
      → IsReachable c
      → (ask float env r cs q opts (record { cache = some c; world = w })).0.answer ≡ ok a
      → Held
          (key_of env q opts)
          (ask float env r cs q opts (record { cache = some c; world = w })).1.cache
          a
  unfolding ask
  ask-Held r cs q opts c w a f h k =
      with-Held r cs q opts c w (build_grounding float r cs q opts) a f h k

  -- Where the filter is on and a call of `Ask` with a cache that a program comes to gives an answer,
  -- the next call with the same question and options gives the same answer and does not run the
  -- agent, if its own retrieval does not fail; the retriever and the concepts may be others.
  pub ask-again :
      (r r' : Retriever Failure float.Num) (cs cs' : ConceptSource Failure) (q : Bytes)
      (opts : Options float.Num) (c : LruCache Answer) (w : World) (a : Answer) (g : Grounding)
      → opts.no_pii_filter ≡ false
      → IsReachable c
      → (ask float env r cs q opts (record { cache = some c; world = w })).0.answer ≡ ok a
      → build_grounding float r' cs' q opts ≡ ok g
      → let s = (ask float env r cs q opts (record { cache = some c; world = w })).1 in
        ((ask float env r' cs' q opts s).0.answer ≡ ok a)
        × ((ask float env r' cs' q opts s).1.world ≡ s.world)
  unfolding ask
  ask-again r r' cs cs' q opts c w a g f h k b =
      let first = build_grounding float r cs q opts in
      let s = (ask_with float env r cs q opts (record { cache = some c; world = w }) first).1 in
      subst
        (λ x.
          ((ask_with float env r' cs' q opts s x).0.answer ≡ ok a)
          × ((ask_with float env r' cs' q opts s x).1.world ≡ s.world))
        (sym b) (with_again r' cs' q opts s g a f (with-Held r cs q opts c w first a f h k))
