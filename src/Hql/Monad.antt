-- ===== src/Hql/Monad.antt =====
-- The parser's state and its reads, from internal/hql/parser.go: the tokens from `p.pos` on. A read
-- behind the last token panics in the program, and is `out_of_range` here.
use pixkb.Base.{Bytes, ℕ, Bool, true, false, ◌&&◌, List, [], ◌∷◌, Result, ok, err}
use pixkb.Text.Ascii.{equal_fold}
use pixkb.Hql.Errors.{Error, out_of_range}
use pixkb.Hql.Lexer.{TokKind, Token, eof, word, string, op, lparen, rparen, comma}

abbrev pub Tokens : Type 0
Tokens = List Token

abbrev pub Parser : Type 0 → Type 0
Parser A = Tokens → Result Error (A × Tokens)

-- what a run hands to the rest of the program
abbrev pub then_run :
    {A B : Type 0} → Result Error (A × Tokens) → (A → Parser B) → Result Error (B × Tokens)
then_run (ok (a, ts)) f = f a ts
then_run (err e) f = err e

infixl 5 ◌>>=◌ ◌>>◌
abbrev pub ◌>>=◌ : {A B : Type 0} → Parser A → (A → Parser B) → Parser B
◌>>=◌ p f ts = then_run (p ts) f

abbrev pub ◌>>◌ : {A B : Type 0} → Parser A → Parser B → Parser B
◌>>◌ p q ts = then_run (p ts) (λ _. q)

abbrev pub pure : {A : Type 0} → A → Parser A
pure a ts = ok (a, ts)

abbrev pub same_kind : TokKind → TokKind → Bool
same_kind eof eof = true
same_kind word word = true
same_kind string string = true
same_kind op op = true
same_kind lparen lparen = true
same_kind rparen rparen = true
same_kind comma comma = true
same_kind _ _ = false

unfoldable pub peek : Parser Token
peek [] = err out_of_range
peek (t ∷ ts) = ok (t, t ∷ ts)

unfoldable pub next : Parser Token
next [] = err out_of_range
next (t ∷ ts) = ok (t, ts)

-- `p.peek().kind == k`
unfoldable pub at_kind : TokKind → Parser Bool
unfolding peek
at_kind k = do t ← peek; pure (same_kind t.kind k)

unfoldable pub is_keyword : Bytes → Parser Bool
unfolding peek
is_keyword kw = do t ← peek; pure (same_kind t.kind word && equal_fold t.val kw)

-- `p.errf(…)`, which shows the offset of the current token
unfoldable pub fail : {A : Type 0} → (ℕ → Error) → Parser A
fail e [] = err out_of_range
fail e (t ∷ ts) = err (e t.pos)
