-- ===== src/Rag/Ask/Cached.antt =====
-- What `Ask` leaves in the cache, and what it answers from it.
use pixkb.Base.{
  Bytes, ℕ, zero, suc, ◌≡◌, refl, sym, ◌∙◌, subst, true, false, List, [], ◌∷◌, All, Option, none,
  some, take, Bool-cases, Option-cases, inl, inr,
}
use pixkb.Text.Ascii.{equal}
use pixkb.Text.Ascii.Equal.{equal_refl}
use pixkb.Rag.Types.{Grounding, Answer, Options}
use pixkb.Rag.Cache.{LruCache, get, put}
use pixkb.Rag.Cache.Entries.{entries, lookup, without, used, stored}
use pixkb.Rag.Cache.Consistent.{get-IsConsistent, put-IsConsistent}
use pixkb.Rag.Cache.Reachable.{IsReachable, after_get, after_put, IsReachable-IsConsistent}
use pixkb.Rag.Pii.{Patterns, redact_pii}
use pixkb.Rag.Ask.{Env, key_of, filtered, stored_in, ask_fresh, ask_found, ask_on}

-- The text has gone through the filter.
abbrev pub IsRedacted : Patterns → Answer → Type 0
IsRedacted p a = (t : Bytes) × (a.text ≡ redact_pii p t)

-- The cache is one that a program comes to, and no answer in it has an unredacted text.
abbrev pub IsClean : Patterns → Option (LruCache Answer) → Type 0
IsClean p none = Unit
IsClean p (some c) = IsReachable c × All (λ e. IsRedacted p e.1) (entries c.ll)

module _ {A : Type 0} (P : A → Type 0) where
  abbrev Each : List (Bytes × A) → Type 0
  Each l = All (λ e. P e.1) l

  Each-without : (key : Bytes) (l : List (Bytes × A)) → Each l → Each (without key l)
  unfolding without
  Each-without key [] h = tt
  Each-without key ((k, a) ∷ l) h = elim (Bool-cases (equal k key)) [
    | inl t ↦ rw t h.1
    | inr f ↦ rw f (h.0, Each-without key l h.1)
  ]

  Each-take : (n : ℕ) (l : List (Bytes × A)) → Each l → Each (take n l)
  Each-take zero l h = tt
  Each-take (suc n) [] h = tt
  Each-take (suc n) (e ∷ l) h = (h.0, Each-take n l h.1)

  Each-lookup : (key : Bytes) (a : A) (l : List (Bytes × A)) → lookup key l ≡ some a → Each l → P a
  unfolding lookup
  Each-lookup key a [] e h = cc
  Each-lookup key a ((k, b) ∷ l) e h = elim (Bool-cases (equal k key)) [
    | inl t ↦ subst P (some-eq (rw t at e)) h.0
    | inr f ↦ Each-lookup key a l (rw f at e) h.1
  ]
    where
      some-eq : {x y : A} → some x ≡ some y → x ≡ y
      some-eq q = cc

  Each-used : (key : Bytes) (l : List (Bytes × A)) → Each l → Each (used key l)
  unfolding used
  Each-used key l h = elim (Option-cases (lookup key l)) [
    | inl n ↦ rw n h
    | inr (a, s) ↦ rw s (Each-lookup key a l s h, Each-without key l h)
  ]

  Each-stored :
      (n : ℕ) (key : Bytes) (a : A) (l : List (Bytes × A)) → P a → Each l → Each (stored n key a l)
  unfolding stored
  Each-stored n key a l p h = Each-take n ((key, a) ∷ without key l) (p, Each-without key l h)

-- A read leaves what it read where it is found again.
pub lookup-used :
    {A : Type 0} (key : Bytes) (a : A) (l : List (Bytes × A))
    → lookup key l ≡ some a
    → lookup key (used key l) ≡ some a
unfolding used lookup
lookup-used key a l e = rw e (rw (equal_refl key) refl)

module _ (p : Patterns) where
  pub get-IsClean :
      (c : LruCache Answer) (key : Bytes)
      → IsClean p (some c)
      → IsClean p (some (get c key).1) × ((a : Answer) → (get c key).0 ≡ some a → IsRedacted p a)
  get-IsClean c key (r, h) =
      let (i, found, now) = get-IsConsistent c key (IsReachable-IsConsistent r).0 in
      (
        (
          after_get r key,
          subst (All (λ e. IsRedacted p e.1)) (sym now)
              (Each-used (IsRedacted p) key (entries c.ll) h),
        ),
        λ a e. Each-lookup (IsRedacted p) key a (entries c.ll) (sym found ∙ e) h,
      )

  pub put-IsClean :
      (c : LruCache Answer) (key : Bytes) (a : Answer)
      → IsClean p (some c)
      → IsRedacted p a
      → IsClean p (some (put c key a))
  put-IsClean c key a (r, h) q =
      let (i, now) = put-IsConsistent c key a (IsReachable-IsConsistent r).0 in
      (
        after_put r key a,
        subst (All (λ e. IsRedacted p e.1)) (sym now)
            (Each-stored (IsRedacted p) c.capacity key a (entries c.ll) q h),
      )

module _ {Failure World Score : Type 0} (env : Env Failure World Score) where
  pub filtered_on :
      (opts : Options Score) (a : Answer)
      → opts.no_pii_filter ≡ false
      → filtered env opts a ≡ record a { text = redact_pii env.patterns a.text }
  unfolding filtered
  filtered_on opts a f = rw f refl

  pub stored_in_off :
      (q : Bytes) (opts : Options Score) (a : Answer) (c : Option (LruCache Answer))
      → opts.no_pii_filter ≡ true
      → stored_in env q opts a c ≡ c
  unfolding stored_in
  stored_in_off q opts a none t = refl
  stored_in_off q opts a (some c) t = rw t refl

  pub stored_in_on :
      (q : Bytes) (opts : Options Score) (a : Answer) (c : LruCache Answer)
      → opts.no_pii_filter ≡ false
      → stored_in env q opts a (some c) ≡ some (put c (key_of env q opts) a)
  unfolding stored_in
  stored_in_on q opts a c f = rw f refl

  pub ask_on_off :
      (q : Bytes) (opts : Options Score) (g : Grounding) (c : Option (LruCache Answer)) (w : World)
      → opts.no_pii_filter ≡ true
      → ask_on env q opts g c w ≡ ask_fresh env q opts g c w
  unfolding ask_on
  ask_on_off q opts g none w t = refl
  ask_on_off q opts g (some c) w t = rw t refl

  pub ask_on_on :
      (q : Bytes) (opts : Options Score) (g : Grounding) (c : LruCache Answer) (w : World)
      → opts.no_pii_filter ≡ false
      → ask_on env q opts g (some c) w ≡ ask_found env q opts g w (get c (key_of env q opts))
  unfolding ask_on
  ask_on_on q opts g c w f = rw f refl
