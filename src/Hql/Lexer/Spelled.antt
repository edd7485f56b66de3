-- ===== src/Hql/Lexer/Spelled.antt =====
-- The tokens that `lex` finds are those that the text spells.
use pixkb.Base.{
  Bytes, ℕ, zero, suc, ◌+◌, ◌≡◌, refl, sym, ap, ◌∙◌, subst, Bool, true, false, ◌||◌, List, [], ◌∷◌,
  ◌++◌, All, Option, none, some, length, length-append, append_assoc, drop, drop-append, ◌==◌,
  if◌then◌else◌, Result, ok, err, >>=-eq-ok, ok-injective, arith, inl, inr, Bool-cases,
}
use pixkb.Hql.Errors.{Error}
use pixkb.Hql.Lexer.{
  TokKind, Token, word, string, op, lparen, rparen, comma, token, is_word_byte, word_run, lex_op,
  lex_string, string_token, scan, lex_from, lex,
}
use pixkb.Hql.Lexer.Spells.{
  starts, is_blank, is_pair, is_op_byte, doubled, Spells, paren_open, paren_close, separator, pair,
  single, name, quoted, IsSpelled, ended, blank, placed, IsLiteral, closed, same_byte,
  lex_string-IsLiteral,
}

-- what one round does with a text at an offset: nothing, where it passes over white space, or it
-- takes the text of one token
data IsRound (i : ℕ) (whole : Bytes) : Result Error (List Token × ℕ) → Type 0 where
  failed : {e : Error} → IsRound i whole (err e)
  passed : (c : ℕ) (s : Bytes) → is_blank c ≡ true → whole ≡ c ∷ s → IsRound i whole (ok ([], 1))
  taken :
      (k : TokKind) (v text rest : Bytes) {w : ℕ}
      → whole ≡ text ++ rest
      → w ≡ length text
      → Spells k v text rest
      → IsRound i whole (ok (token k v i ∷ [], w))

IsRound-if :
    (i : ℕ) (s : Bytes) (b : Bool) (x y : Result Error (List Token × ℕ))
    → (b ≡ true → IsRound i s x)
    → (b ≡ false → IsRound i s y)
    → IsRound i s (if b then x else y)
IsRound-if i s true x y h k = h refl
IsRound-if i s false x y h k = k refl

string_token-IsRound :
    (i c : ℕ) (s : Bytes) (o : Option (Bytes × ℕ))
    → (c == b'\'' || c == b'"') ≡ true
    → IsLiteral c s o
    → IsRound i (c ∷ s) (string_token i o)
unfolding string_token
string_token-IsRound i c s none h l = failed
string_token-IsRound i c s (some _) h (closed v rest e w f) =
    taken string v (c ∷ (doubled c v ++ (c ∷ []))) rest
      (ap (◌∷◌ c) (e ∙ sym (append_assoc (doubled c v) (c ∷ []) rest)))
      (omega (arith, w, length-append (doubled c v) (c ∷ []))) (quoted c v h f)

word_run-All : (s : Bytes) → All (λ b. is_word_byte b ≡ true) (word_run s)
unfolding word_run
word_run-All [] = tt
word_run-All (c ∷ s) = elim (Bool-cases (is_word_byte c)) [
  | inl t ↦ rw t (t, word_run-All s)
  | inr f ↦ rw f tt
]

unfoldable behind_word : Bytes → Bytes
behind_word [] = []
behind_word (c ∷ s) = let rest = behind_word s in if is_word_byte c then rest else c ∷ s

word_run-append : (s : Bytes) → s ≡ word_run s ++ behind_word s
unfolding word_run behind_word
word_run-append [] = refl
word_run-append (c ∷ s) = elim (Bool-cases (is_word_byte c)) [
  | inl t ↦ rw t (ap (◌∷◌ c) (word_run-append s))
  | inr f ↦ rw f refl
]

behind_word-starts : (s : Bytes) → starts is_word_byte (behind_word s) ≡ false
unfolding behind_word
behind_word-starts [] = refl
behind_word-starts (c ∷ s) = elim (Bool-cases (is_word_byte c)) [
  | inl t ↦ rw t (behind_word-starts s)
  | inr f ↦ rw f f
]

lex_op-IsRound :
    (i c : ℕ) (s : Bytes)
    → is_op_byte c ≡ true
    → IsRound i (c ∷ s) (ok (token op (lex_op c s).0 i ∷ [], (lex_op c s).1))
unfolding lex_op
lex_op-IsRound i c [] h = taken op (c ∷ []) (c ∷ []) [] refl refl (single c h refl)
lex_op-IsRound i c (n ∷ s) h = elim (Bool-cases (is_pair c n)) [
  | inl t ↦ rw t (taken op (c ∷ n ∷ []) (c ∷ n ∷ []) s refl refl (pair c n t))
  | inr f ↦ rw f (taken op (c ∷ []) (c ∷ []) (n ∷ s) refl refl (single c h f))
]

-- `=` and `~` do not begin an operator of two bytes.
lone : (c : ℕ) (s : Bytes) → (c == b'=' || c == b'~') ≡ true → starts (is_pair c) s ≡ false
lone c [] h = refl
lone c (n ∷ s) h = ground (arith, h)

angle : (c : ℕ) → (c == b'!' || c == b'<' || c == b'>') ≡ true → is_op_byte c ≡ true
angle c h = ground (arith, h)

even : (c : ℕ) → (c == b'=' || c == b'~') ≡ true → is_op_byte c ≡ true
even c h = ground (arith, h)

one_byte :
    (i c d : ℕ) (s : Bytes) (k : TokKind)
    → (c == d) ≡ true
    → Spells k (d ∷ []) (d ∷ []) s
    → IsRound i (c ∷ s) (ok (token k (d ∷ []) i ∷ [], 1))
one_byte i c d s k h sp = taken k (d ∷ []) (d ∷ []) s (ap (λ b. b ∷ s) (same_byte c d h)) refl sp

scan-IsRound : (i c : ℕ) (s : Bytes) → IsRound i (c ∷ s) (scan i c s)
unfolding scan
scan-IsRound i c s =
    let whole = c ∷ s in
    IsRound-if i whole _ _ _ (λ t. passed c s t refl)
      λ _.
        IsRound-if i whole _ _ _ (λ t. one_byte i c b'(' s lparen t paren_open)
          λ _.
            IsRound-if i whole _ _ _ (λ t. one_byte i c b')' s rparen t paren_close)
              λ _.
                IsRound-if i whole _ _ _ (λ t. one_byte i c b',' s comma t separator)
                  λ _.
                    IsRound-if i whole _ _ _
                      (λ t.
                        string_token-IsRound i c s (lex_string c s) t (lex_string-IsLiteral c s))
                      λ _.
                        IsRound-if i whole _ _ _
                          (λ t.
                            taken op (c ∷ []) (c ∷ []) s refl refl
                              (single c (even c t) (lone c s t)))
                          λ _.
                            IsRound-if i whole _ _ _ (λ t. lex_op-IsRound i c s (angle c t))
                              λ _.
                                IsRound-if i whole _ _ _
                                  (λ t.
                                    taken word (c ∷ word_run s) (c ∷ word_run s) (behind_word s)
                                      (ap (◌∷◌ c) (word_run-append s)) (omega arith)
                                      (name c (word_run s) (t, word_run-All s)
                                        (behind_word-starts s)))
                                  λ _. failed

-- A round, and the tokens of what it leaves.
round-IsSpelled :
    (i : ℕ) (whole : Bytes) (r : List Token × ℕ) (rest : List Token)
    → IsRound i whole (ok r)
    → IsSpelled (i + r.1) (drop r.1 whole) rest
    → IsSpelled i whole (r.0 ++ rest)
round-IsSpelled i whole _ rest (passed c s b e) h =
    subst (λ l. IsSpelled i l rest) (sym e) (blank c b (rw e at h))
round-IsSpelled i whole _ rest (taken k v text more e w sp) h =
    let behind : IsSpelled (i + length text) more rest =
      subst (λ l. IsSpelled (i + length text) l rest) (drop-append text more) (rw (w, e) at h) in
    subst (λ l. IsSpelled i l (token k v i ∷ rest)) (sym e) (placed k v text sp behind)

lex_from-IsSpelled :
    (fuel i : ℕ) (s : Bytes) {ts : List Token} → lex_from fuel i s ≡ ok ts → IsSpelled i s ts
unfolding lex_from
lex_from-IsSpelled zero i s e = cc
lex_from-IsSpelled (suc fuel) i [] e = subst (IsSpelled i []) (ok-injective e) ended
lex_from-IsSpelled (suc fuel) i (c ∷ s) e =
    let (r, scanned, e₁) = >>=-eq-ok (scan i c s) _ e in
    let (rest, lexed, e₂) = >>=-eq-ok (lex_from fuel (i + r.1) (drop r.1 (c ∷ s))) _ e₁ in
    subst (IsSpelled i (c ∷ s)) (ok-injective e₂) (
      round-IsSpelled i (c ∷ s) r rest (subst (IsRound i (c ∷ s)) scanned (scan-IsRound i c s))
        (lex_from-IsSpelled fuel (i + r.1) (drop r.1 (c ∷ s)) lexed))

-- Where `lex` succeeds, the text is made up of white space and the texts of the tokens, in their
-- order: each token stands at its offset and has the kind and value that its text spells (a name and
-- an operator as long as it can be, a quoted literal without its quotes and with one quote for two),
-- and the end-of-input token, which is the last one and stands nowhere else, has the offset of the
-- end.
pub lex-IsSpelled : (input : Bytes) {ts : List Token} → lex input ≡ ok ts → IsSpelled 0 input ts
unfolding lex
lex-IsSpelled input e = lex_from-IsSpelled (suc (length input)) 0 input e
