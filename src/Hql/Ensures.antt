-- ===== src/Hql/Ensures.antt =====
-- A postcondition on the parsers: a run neither reads behind the last token nor runs out of fuel,
-- and what it leaves is shorter than a bound and still has an end-of-input token.
use pixkb.Base.{
  Bytes, ℕ, suc, ◌<◌, ◌≤◌, Bool, true, false, ◌&&◌, [], ◌∷◌, ◌≡◌, ◌⊎◌, inl, inr, refl, length,
  Result, ok, err, arith, Bool-cases, &&-eq-true,
}
use pixkb.Text.Ascii.{equal_fold}
use pixkb.Hql.Errors.{Error, out_of_range, out_of_fuel}
use pixkb.Hql.Lexer.{TokKind, Token, eof, word}
use pixkb.Hql.Monad.{Tokens, Parser, then_run, same_kind, at_kind, is_keyword, fail}

-- The error is one that the program reports.
abbrev pub refuses : Error → Bool
refuses out_of_range = false
refuses out_of_fuel = false
refuses _ = true

-- An end-of-input token is among them.
abbrev pub HasEnd : Tokens → Type 0
HasEnd [] = ⊥
HasEnd (t ∷ ts) = (t.kind ≡ eof) ⊎ HasEnd ts

pub data Ensures {A : Type 0} (bound : ℕ) : Result Error (A × Tokens) → Type 0 where
  holds : {a : A} {rest : Tokens} → HasEnd rest → length rest < bound → Ensures bound (ok (a, rest))
  refused : {e : Error} → refuses e ≡ true → Ensures bound (err e)

pub HasEnd-tail :
    (t : Token) (ts : Tokens) → HasEnd (t ∷ ts) → same_kind t.kind eof ≡ false → HasEnd ts
HasEnd-tail t ts (inl e) h = ground arith
HasEnd-tail t ts (inr r) h = r

pub widen :
    {A : Type 0} {n m : ℕ} {r : Result Error (A × Tokens)} → n ≤ m → Ensures n r → Ensures m r
widen p (holds h l) = holds h (omega arith)
widen p (refused h) = refused h

kinds_differ :
    (a k : TokKind) → same_kind eof k ≡ false → same_kind a k ≡ true → same_kind a eof ≡ false
kinds_differ eof k ne at = cc
kinds_differ _ k ne at = refl

module _ {A B : Type 0} where
  pub Ensures-then :
      {n m : ℕ} {r : Result Error (A × Tokens)} {f : A → Parser B}
      → Ensures n r
      → ((a : A) (rest : Tokens) → HasEnd rest → length rest < n → Ensures m (f a rest))
      → Ensures m (then_run r f)
  Ensures-then (holds {a} {rest} h l) k = k a rest h l
  Ensures-then (refused h) k = refused h

module _ {A : Type 0} (bound : ℕ) where
  pub Ensures-fail :
      (e : ℕ → Error) (ts : Tokens)
      → HasEnd ts
      → ((i : ℕ) → refuses (e i) ≡ true)
      → Ensures {A = A} bound (fail e ts)
  unfolding fail
  Ensures-fail e [] h r = absurd h
  Ensures-fail e (t ∷ ts) h r = refused (r t.pos)

  -- A branch on the kind of the current token, which in the first case can be taken.
  pub Ensures-kind :
      (k : TokKind) (p q : Parser A) (ts : Tokens)
      → same_kind eof k ≡ false
      → HasEnd ts
      → ((t : Token) (rest : Tokens)
          → length ts ≡ suc (length rest)
          → HasEnd rest
          → Ensures bound (p (t ∷ rest)))
      → Ensures bound (q ts)
      → Ensures bound (then_run (at_kind k ts) (λ b. elim b [ true ↦ p | false ↦ q ]))
  unfolding at_kind
  Ensures-kind k p q [] ne h yes_case no_case = absurd h
  Ensures-kind k p q (t ∷ ts) ne h yes_case no_case = elim (Bool-cases (same_kind t.kind k)) [
    | inl at ↦ rw at (yes_case t ts refl (HasEnd-tail t ts h (kinds_differ t.kind k ne at)))
    | inr other ↦ rw other no_case
  ]

  -- The same for a keyword.
  pub Ensures-keyword :
      (kw : Bytes) (p q : Parser A) (ts : Tokens)
      → HasEnd ts
      → ((t : Token) (rest : Tokens)
          → length ts ≡ suc (length rest)
          → HasEnd rest
          → Ensures bound (p (t ∷ rest)))
      → Ensures bound (q ts)
      → Ensures bound (then_run (is_keyword kw ts) (λ b. elim b [ true ↦ p | false ↦ q ]))
  unfolding is_keyword
  Ensures-keyword kw p q [] h yes_case no_case = absurd h
  Ensures-keyword kw p q (t ∷ ts) h yes_case no_case =
      elim (Bool-cases (same_kind t.kind word && equal_fold t.val kw)) [
        | inl at ↦
            let is_word = (&&-eq-true (same_kind t.kind word) (equal_fold t.val kw) at).0 in
            rw at (yes_case t ts refl (HasEnd-tail t ts h (kinds_differ t.kind word refl is_word)))
        | inr other ↦ rw other no_case
      ]
