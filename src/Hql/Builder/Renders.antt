-- ===== src/Hql/Builder/Renders.antt =====
-- The rules by which a run of the builder renders a shape.
use pixkb.Base.{
  Bytes, ℕ, suc, ◌+◌, List, [], ◌∷◌, ◌++◌, append_assoc, length, ◌≡◌, sym, Result, ok, err,
  ok-injective, err-ne-ok, subst, arith,
}
use pixkb.Hql.Errors.{Error}
use pixkb.Hql.Builder.{then_build, with_state}
use pixkb.Hql.Builder.Shape.{Piece, lit, hole, fill, holes, placeholder}

pub fill-append :
    (n : ℕ) (ps qs : List Piece) → fill n (ps ++ qs) ≡ fill n ps ++ fill (n + holes ps) qs
fill-append n [] qs = rw (no_more n)
  where
    no_more : (n : ℕ) → n + 0 ≡ n
    no_more n = omega arith
fill-append n (lit s ∷ ps) qs = rw (fill-append n ps qs, append_assoc)
fill-append n (hole ∷ ps) qs =
    rw (fill-append (n + 1) ps qs, one_more)
      (sym (append_assoc (placeholder (n + 1)) (fill (n + 1) ps) _))
  where
    one_more : n + 1 + holes ps ≡ n + suc (holes ps)
    one_more = omega arith

pub holes-append : (ps qs : List Piece) → holes (ps ++ qs) ≡ holes ps + holes qs
holes-append [] qs = omega arith
holes-append (lit s ∷ ps) qs = holes-append ps qs
holes-append (hole ∷ ps) qs = omega (arith, holes-append ps qs)

-- A run that succeeds returns a value and arguments with `P`.
pub data Builds {S A : Type 0} (P : A → List S → Type 0) : Result Error (A × List S) → Type 0 where
  built : {a : A} {args : List S} → P a args → Builds P (ok (a, args))
  failed : {e : Error} → Builds P (err e)

-- The text is the filled shape, and there are as many arguments more as there are holes.
pub record IsRendered {S : Type 0} (base : ℕ) (args : List S) (ps : List Piece) (t : Bytes)
    (args' : List S) : Type 0 where
  pub text_is : t ≡ fill (base + length args) ps
  pub count_is : length args' ≡ length args + holes ps

-- A run from `args` renders `ps`, or fails.
abbrev pub Renders : {S : Type 0} → ℕ → List S → List Piece → Result Error (Bytes × List S) → Type 0
Renders base args ps = Builds (IsRendered base args ps)

module _ {S A : Type 0} {P : A → List S → Type 0} where
  pub Builds-lift :
      {B : Type 0} (args : List S) (r : Result Error B) (k : B → List S → Result Error (A × List S))
      → ((b : B) → Builds P (k b args))
      → Builds P (then_build (with_state r args) k)
  Builds-lift args (ok a) k h = h a
  Builds-lift args (err e) k h = failed

  -- A part built first, and the rest from what it leaves.
  pub Builds-then :
      {B : Type 0} {Q : B → List S → Type 0} {r : Result Error (B × List S)}
      (k : B → List S → Result Error (A × List S))
      → Builds Q r
      → ((b : B) (args : List S) → Q b args → Builds P (k b args))
      → Builds P (then_build r k)
  Builds-then k (built q) h = h _ _ q
  Builds-then k failed h = failed

  pub Builds-ok :
      {r : Result Error (A × List S)} {a : A} {args : List S}
      → Builds P r
      → r ≡ ok (a, args)
      → P a args
  Builds-ok (built {a} {args} p) e = subst (λ x. P x.0 x.1) (ok-injective e) p
  Builds-ok failed e = absurd (err-ne-ok e)
