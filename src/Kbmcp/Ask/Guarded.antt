-- ===== src/Kbmcp/Ask/Guarded.antt =====
-- What the tool `kb_ask` lets out, and what it takes from its cache.
use pixkb.Base.{
  Bytes, ◌≡◌, refl, sym, ap, ◌∙◌, Bool, true, false, ◌&&◌, Option, none, some, if◌then◌else◌,
  Result, ok, err, err-ne-ok, ok-injective, Bool-cases, inl, inr,
}
use pixkb.Text.Number.{ℤ}
use pixkb.Fusion.Rank.{Float}
use pixkb.Rag.Types.{Answer, Error}
use pixkb.Rag.Cache.{LruCache}
use pixkb.Rag.Pii.{redact_pii}
use pixkb.Rag.Ask.{Asked, State, ask}
use pixkb.Rag.Ask.Cached.{IsClean}
use pixkb.Rag.Ask.Private.{ask-IsPrivate}
use pixkb.Kbmcp.Ask.{
  AskIn, AskOut, Deps, is_limited, type_filter, options_of, ask_out, cache_after, kb_ask_at, kb_ask,
}

module _ (float : Float) {Failure World : Type 0} (d : Deps float Failure World) where
  out-redacted :
      (x : Asked Failure) (out : AskOut)
      → ((a : Answer) → x.answer ≡ ok a → (t : Bytes) × (a.text ≡ redact_pii d.env.patterns t))
      → ask_out float d x ≡ ok out
      → (t : Bytes) × (out.answer ≡ redact_pii d.env.patterns t)
  unfolding ask_out
  out-redacted x out h k = answered x.answer h k
    where
      answered :
          (r : Result (Error Failure) Answer)
          → ((a : Answer) → r ≡ ok a → (t : Bytes) × (a.text ≡ redact_pii d.env.patterns t))
          → ask_out float d (record x { answer = r }) ≡ ok out
          → (t : Bytes) × (out.answer ≡ redact_pii d.env.patterns t)
      answered (err e) i q = elim (Bool-cases (is_limited float d e)) [
        | inl t ↦ absurd (err-ne-ok (rw t at q))
        | inr f ↦ absurd (err-ne-ok (rw f at q))
      ]
      answered (ok a) i q =
          let (t, e) = i a refl in (t, sym (ap (λ o. o.answer) (ok-injective q)) ∙ e)

  given-IsClean :
      (b : Bool) (shared : LruCache Answer)
      → IsClean d.env.patterns (some shared)
      → IsClean d.env.patterns (if b then none else some shared)
  given-IsClean true shared h = tt
  given-IsClean false shared h = h

  after-IsClean :
      (shared : LruCache Answer) (c : Option (LruCache Answer))
      → IsClean d.env.patterns (some shared)
      → IsClean d.env.patterns c
      → IsClean d.env.patterns (some (cache_after float d shared c))
  unfolding cache_after
  after-IsClean shared none h k = h
  after-IsClean shared (some c) h k = k

  -- On a server that does not allow to bypass the filter, every answer of `kb_ask` is redacted,
  -- whatever the request asks for, and the shared cache keeps redacted answers only.
  pub kb_ask-IsPrivate :
      (i : AskIn float.Num) (shared : LruCache Answer) (w : World)
      → d.allow_pii_bypass ≡ false
      → IsClean d.env.patterns (some shared)
      → IsClean d.env.patterns (some (kb_ask float d i shared w).1)
        × ((out : AskOut)
            → (kb_ask float d i shared w).0 ≡ ok out
            → (t : Bytes) × (out.answer ≡ redact_pii d.env.patterns t))
  unfolding kb_ask kb_ask_at options_of
  kb_ask-IsPrivate i shared w f h = at (d.latest_epoch w)
    where
      and_off : (b : Bool) → (b && d.allow_pii_bypass) ≡ false
      and_off true = f
      and_off false = refl

      off : (epoch : ℤ) → (options_of float d i epoch).no_pii_filter ≡ false
      off epoch = and_off i.no_pii_filter

      at :
          (r : Result Failure ℤ)
          → IsClean d.env.patterns (some (kb_ask_at float d i shared w r).1)
            × ((out : AskOut)
                → (kb_ask_at float d i shared w r).0 ≡ ok out
                → (t : Bytes) × (out.answer ≡ redact_pii d.env.patterns t))
      at (err e) = (h, λ out k. absurd (err-ne-ok k))
      at (ok epoch) =
          let retriever = d.retriever (type_filter float d i.type) in
          let opts = options_of float d i epoch in
          let before : State World = record {
            cache = if i.no_cache then none else some shared;
            world = w;
          } in
          let x = ask float d.env retriever d.concepts i.question opts before in
          let p =
            ask-IsPrivate float d.env retriever d.concepts i.question opts before
              (given-IsClean i.no_cache shared h) in
          (
            after-IsClean shared x.1.cache h p.clean,
            λ out k. out-redacted x.0 out (p.redacted (off epoch)) k,
          )
