-- ===== src/Hql/Lexer/Total.antt =====
-- `lex` ends: each round takes a byte at least, and an end-of-input token is among the tokens.
use pixkb.Base.{
  Bytes, ℕ, zero, suc, ◌+◌, ◌<◌, ◌≡◌, refl, inl, inr, true, List, [], ◌∷◌, ◌++◌, Option, length,
  drop, length-drop, ok, err, >>=-eq-ok, >>=-eq-err, ok-injective, arith,
}
use pixkb.Hql.Errors.{Error}
use pixkb.Hql.Lexer.{Token, lex_string, string_token, lex_op, scan, lex_from, lex}
use pixkb.Hql.Ensures.{refuses, HasEnd}

string_token-refuses :
    (i : ℕ) (o : Option (Bytes × ℕ)) (e : Error) → string_token i o ≡ err e → refuses e ≡ true
unfolding string_token
string_token-refuses i o e h = ground arith

string_token_width :
    (i : ℕ) (o : Option (Bytes × ℕ)) (r : List Token × ℕ) → string_token i o ≡ ok r → 0 < r.1
unfolding string_token
string_token_width i o r h = ground arith

scan-refuses : (i c : ℕ) (s : Bytes) (e : Error) → scan i c s ≡ err e → refuses e ≡ true
unfolding scan
scan-refuses i c s e h = ground (arith, string_token-refuses i (lex_string c s) e)

pub scan_width : (i c : ℕ) (s : Bytes) {r : List Token × ℕ} → scan i c s ≡ ok r → 0 < r.1
unfolding scan lex_op
scan_width i c s {r} h = ground (arith, string_token_width i (lex_string c s) r)

HasEnd-append : (ts us : List Token) → HasEnd us → HasEnd (ts ++ us)
HasEnd-append [] us h = h
HasEnd-append (t ∷ ts) us h = inr (HasEnd-append ts us h)

lex_from-HasEnd : (fuel i : ℕ) (s : Bytes) {ts : List Token} → lex_from fuel i s ≡ ok ts → HasEnd ts
unfolding lex_from
lex_from-HasEnd zero i s e = cc
lex_from-HasEnd (suc fuel) i [] e = rw (← ok-injective e) (inl refl)
lex_from-HasEnd (suc fuel) i (c ∷ s) e =
    let (r, scanned, e₁) = >>=-eq-ok (scan i c s) _ e in
    let (rest, lexed, e₂) = >>=-eq-ok (lex_from fuel (i + r.1) (drop r.1 (c ∷ s))) _ e₁ in
    rw (← ok-injective e₂)
      (HasEnd-append r.0 rest (lex_from-HasEnd fuel (i + r.1) (drop r.1 (c ∷ s)) lexed))

-- An end-of-input token is among the tokens.
pub lex-HasEnd : (input : Bytes) {ts : List Token} → lex input ≡ ok ts → HasEnd ts
unfolding lex
lex-HasEnd input e = lex_from-HasEnd (suc (length input)) 0 input e

lex_from-refuses :
    (fuel i : ℕ) (s : Bytes) (e : Error)
    → length s < fuel
    → lex_from fuel i s ≡ err e
    → refuses e ≡ true
unfolding lex_from
lex_from-refuses zero i s e f h = absurd (omega arith)
lex_from-refuses (suc fuel) i [] e f h = cc
lex_from-refuses (suc fuel) i (c ∷ s) e f h = elim (>>=-eq-err (scan i c s) _ h) [
  | inl refused ↦ scan-refuses i c s e refused
  | inr (r, scanned, h₁) ↦ elim (>>=-eq-err (lex_from fuel (i + r.1) (drop r.1 (c ∷ s))) _ h₁) [
    | inl later ↦
        lex_from-refuses fuel (i + r.1) (drop r.1 (c ∷ s)) e
          (omega (arith, scan_width i c s scanned, length-drop r.1 (c ∷ s))) later
    | inr (rest, lexed, h₂) ↦ cc
  ]
]

-- An error of `lex` is one that the program reports: the fuel never runs out.
pub lex-refuses : (input : Bytes) (e : Error) → lex input ≡ err e → refuses e ≡ true
unfolding lex
lex-refuses input e h = lex_from-refuses (suc (length input)) 0 input e (omega arith) h
