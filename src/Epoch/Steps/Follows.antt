-- ===== src/Epoch/Steps/Follows.antt =====
-- Steps that make the calls of a plan, in its order, up to the one that fails.
use pixkb.Base.{
  Bytes, ℕ, ◌≡◌, refl, sym, ap, ◌∙◌, subst, List, [], ◌∷◌, ◌++◌, All, All-append, none, some,
  Result, ok, err, append_assoc, append-nil, Option-cases, inl, inr, ◌==◌, false, length,
}
use pixkb.Epoch.Steps.{
  Call, embed, Env, StepError, failed, wrong_count, bind, pure, perform, returned, then_steps,
}

module _ (env : Env) where
  abbrev pub Trace : Type 0
  Trace = List (Call env.Time env.Vector)

  -- None of the calls fails, made one behind the other.
  abbrev pub Succeeds : Trace → Trace → Type 0
  Succeeds tr [] = Unit
  Succeeds tr (c ∷ cs) = (env.fails tr c ≡ none) × Succeeds (tr ++ (c ∷ [])) cs

  -- The last call asked for n vectors, and m other ones came.
  abbrev pub Miscounted : ℕ → ℕ → Trace → Type 0
  Miscounted m n tr =
      ((m == n) ≡ false)
      × (m ≡ length (env.vectors tr))
      × (before : Trace) × (texts : List Bytes) × (tr ≡ before ++ (embed texts ∷ []))
      × (n ≡ length texts)

  -- From these calls on, the steps make all calls of the plan, or those up to the first one that
  -- fails, or those up to a call of the embedder that returned another number of vectors.
  pub data Follows {A : Type 0} (plan tr : Trace) : Result (StepError env) A × Trace → Type 0 where
    all : (a : A) → Succeeds tr plan → Follows plan tr (ok a, tr ++ plan)
    part :
        (c : Call env.Time env.Vector) (e : env.Failure) (made rest : Trace)
        → plan ≡ made ++ (c ∷ rest)
        → Succeeds tr made
        → env.fails (tr ++ made) c ≡ some e
        → Follows plan tr (err (failed c e), tr ++ (made ++ (c ∷ [])))
    stopped :
        (m n : ℕ) (made rest : Trace)
        → Miscounted m n (tr ++ made)
        → plan ≡ made ++ rest
        → Succeeds tr made
        → Follows plan tr (err (wrong_count m n), tr ++ made)

  Succeeds-append : (p q tr : Trace) → Succeeds tr p → Succeeds (tr ++ p) q → Succeeds tr (p ++ q)
  Succeeds-append [] q tr h k = subst (λ t. Succeeds t q) (append-nil tr) k
  Succeeds-append (c ∷ p) q tr h k = (
    h.0,
    Succeeds-append p q (tr ++ (c ∷ [])) h.1
        (subst (λ t. Succeeds t q) (sym (append_assoc tr (c ∷ []) p)) k),
  )

  -- the calls behind the trace all have the property
  unfoldable pub Does :
      {A : Type 0}
      → (Call env.Time env.Vector → Type 0)
      → (Trace → Result (StepError env) A × Trace)
      → Type 0
  Does P m = (tr : Trace) → (made : Trace) × ((m tr).1 ≡ tr ++ made) × All P made

  pub perform-Follows :
      (c : Call env.Time env.Vector) (tr : Trace) → Follows (c ∷ []) tr (perform env c tr)
  unfolding perform
  perform-Follows c tr = elim (Option-cases (env.fails tr c)) [
    | inl n ↦ rw n (all tt (n, tt))
    | inr (e, s) ↦
        rw s (part c e [] [] refl tt (subst (λ t. env.fails t c ≡ some e) (sym (append-nil tr)) s))
  ]

  -- a plan behind the calls of another one
  shifted :
      {B : Type 0} (p q tr : Trace) (r : Result (StepError env) B × Trace)
      → Succeeds tr p
      → Follows q (tr ++ p) r
      → Follows (p ++ q) tr r
  shifted {B} p q tr _ h (all b k) =
      subst (λ t. Follows {A = B} (p ++ q) tr (ok b, t)) (sym (append_assoc tr p q))
        (all b (Succeeds-append p q tr h k))
  shifted {B} p q tr _ h (part c e made rest g k f) =
      subst (λ t. Follows {A = B} (p ++ q) tr (err (failed c e), t))
        (ap (λ l. tr ++ l) (append_assoc p made (c ∷ []))
          ∙ sym (append_assoc tr p (made ++ (c ∷ []))))
        (part c e (p ++ made) rest (ap (λ l. p ++ l) g ∙ sym (append_assoc p made (c ∷ rest)))
          (Succeeds-append p made tr h k)
          (subst (λ t. env.fails t c ≡ some e) (append_assoc tr p made) f))
  shifted {B} p q tr _ h (stopped m n made rest d g k) =
      subst (λ t. Follows {A = B} (p ++ q) tr (err (wrong_count m n), t))
        (sym (append_assoc tr p made))
        (stopped m n (p ++ made) rest (subst (Miscounted m n) (append_assoc tr p made) d)
          (ap (λ l. p ++ l) g ∙ sym (append_assoc p made rest)) (Succeeds-append p made tr h k))

  then-Follows :
      {A B : Type 0} (f : A → Trace → Result (StepError env) B × Trace) (p q tr : Trace)
      (r : Result (StepError env) A × Trace)
      → Follows p tr r
      → ((a : A) → r ≡ (ok a, tr ++ p) → Follows q (tr ++ p) (f a (tr ++ p)))
      → Follows (p ++ q) tr (then_steps env r f)
  then-Follows f p q tr _ (all a h) next = shifted p q tr (f a (tr ++ p)) h (next a refl)
  then-Follows f p q tr _ (part c e made rest g k x) next =
      part c e made (rest ++ q) (ap (λ l. l ++ q) g ∙ append_assoc made (c ∷ rest) q) k x
  then-Follows f p q tr _ (stopped m n made rest d g k) next =
      stopped m n made (rest ++ q) d (ap (λ l. l ++ q) g ∙ append_assoc made rest q) k

  pub bind-Follows :
      {A B : Type 0} (m : Trace → Result (StepError env) A × Trace)
      (f : A → Trace → Result (StepError env) B × Trace) (p q tr : Trace)
      → Follows p tr (m tr)
      → ((a : A) → m tr ≡ (ok a, tr ++ p) → Follows q (tr ++ p) (f a (tr ++ p)))
      → Follows (p ++ q) tr (bind env m f tr)
  unfolding bind
  bind-Follows m f p q tr first next = then-Follows f p q tr (m tr) first next

  -- a call, and the rest
  pub call-Follows :
      {A : Type 0} (c : Call env.Time env.Vector) (rest : Trace → Result (StepError env) A × Trace)
      (q tr : Trace)
      → Follows q (tr ++ (c ∷ [])) (rest (tr ++ (c ∷ [])))
      → Follows (c ∷ q) tr (bind env (perform env c) (λ _. rest) tr)
  call-Follows c rest q tr h =
      bind-Follows (perform env c) (λ _. rest) (c ∷ []) q tr (perform-Follows c tr) (λ a e. h)

  pub perform-Does :
      (P : Call env.Time env.Vector → Type 0) (c : Call env.Time env.Vector)
      → P c
      → Does P (perform env c)
  unfolding perform Does
  perform-Does P c h tr = (c ∷ [], refl, (h, tt))

  pub pure-Does : {A : Type 0} (P : Call env.Time env.Vector → Type 0) (a : A) → Does P (pure env a)
  unfolding pure Does
  pure-Does P a tr = ([], sym (append-nil tr), tt)

  pub returned-Does :
      {A : Type 0} (P : Call env.Time env.Vector → Type 0) (read : Trace → A)
      → Does P (returned env read)
  unfolding returned Does
  returned-Does P read tr = ([], sym (append-nil tr), tt)

  pub bind-Does :
      {A B : Type 0} (P : Call env.Time env.Vector → Type 0)
      (m : Trace → Result (StepError env) A × Trace)
      (f : A → Trace → Result (StepError env) B × Trace)
      → Does P m
      → ((a : A) → Does P (f a))
      → Does P (bind env m f)
  unfolding bind Does
  bind-Does {A} P m f h k tr = let (made, e, done) = h tr in go (m tr) made e done
    where
      go :
          (r : Result (StepError env) A × Trace) (made : Trace)
          → r.1 ≡ tr ++ made
          → All P made
          → (more : Trace) × ((then_steps env r f).1 ≡ tr ++ more) × All P more
      go (err e, tr') made q done = (made, q, done)
      go (ok a, tr') made q done =
          let (next, p, rest) = k a tr' in
          (
            made ++ next,
            p ∙ ap (λ t. t ++ next) q ∙ append_assoc tr made next,
            All-append P made next done rest,
          )
