-- ===== src/Hql/Lexer/Spells.antt =====
-- A description of the tokens of a text that does not follow the loop of `lex`: which texts spell a
-- token, and how these and the white space make up the whole text; and what `lexString` finds.
use pixkb.Base.{
  Bytes, codes, ℕ, ◌+◌, ◌≡◌, refl, sym, ap, ◌∙◌, Bool, true, false, ◌&&◌, ◌||◌, List, [], ◌∷◌, ◌++◌,
  All, Option, none, some, length, ◌==◌, ==_refl, if◌then◌else◌, arith, inl, inr, Bool-cases,
}
use pixkb.Hql.Lexer.{
  TokKind, Token, eof, word, string, op, lparen, rparen, comma, token, is_word_byte, push,
  lex_string,
}

abbrev pub starts : (ℕ → Bool) → Bytes → Bool
starts p [] = false
starts p (c ∷ s) = p c

abbrev pub is_blank : ℕ → Bool
is_blank c = c == b' ' || c == b'\t' || c == b'\n' || c == b'\r'

-- the operators of two bytes, and the first bytes of the others
abbrev pub is_pair : ℕ → ℕ → Bool
is_pair c n = (c == b'!' && (n == b'=' || n == b'~')) || ((c == b'<' || c == b'>') && n == b'=')

abbrev pub is_op_byte : ℕ → Bool
is_op_byte c = c == b'=' || c == b'~' || (c == b'!' || c == b'<' || c == b'>')

-- the inside of a literal, with each quote twice
abbrev pub doubled : ℕ → Bytes → Bytes
doubled q [] = []
doubled q (c ∷ s) = if c == q then c ∷ c ∷ doubled q s else c ∷ doubled q s

-- The text spells the token with this kind and value, where that rest stands behind it.
pub data Spells : TokKind → Bytes → Bytes → Bytes → Type 0 where
  paren_open : {rest : Bytes} → Spells lparen (codes "(") (codes "(") rest
  paren_close : {rest : Bytes} → Spells rparen (codes ")") (codes ")") rest
  separator : {rest : Bytes} → Spells comma (codes ",") (codes ",") rest
  pair : {rest : Bytes} (c n : ℕ) → is_pair c n ≡ true → Spells op (c ∷ n ∷ []) (c ∷ n ∷ []) rest
  single :
      {rest : Bytes} (c : ℕ)
      → is_op_byte c ≡ true
      → starts (is_pair c) rest ≡ false
      → Spells op (c ∷ []) (c ∷ []) rest
  name :
      {rest : Bytes} (c : ℕ) (v : Bytes)
      → All (λ b. is_word_byte b ≡ true) (c ∷ v)
      → starts is_word_byte rest ≡ false
      → Spells word (c ∷ v) (c ∷ v) rest
  quoted :
      {rest : Bytes} (q : ℕ) (v : Bytes)
      → (q == b'\'' || q == b'"') ≡ true
      → starts (λ c. c == q) rest ≡ false
      → Spells string v (q ∷ (doubled q v ++ (q ∷ []))) rest

-- From an offset on, the text is made up of white space and of texts that spell the tokens, each of
-- which has the offset it stands at; the end-of-input token stands at the end of the text.
pub data IsSpelled : ℕ → Bytes → List Token → Type 0 where
  ended : {i : ℕ} → IsSpelled i [] (token eof [] i ∷ [])
  blank :
      {i : ℕ} {s : Bytes} {ts : List Token} (c : ℕ)
      → is_blank c ≡ true
      → IsSpelled (i + 1) s ts
      → IsSpelled i (c ∷ s) ts
  placed :
      {i : ℕ} {rest : Bytes} {ts : List Token} (k : TokKind) (v text : Bytes)
      → Spells k v text rest
      → IsSpelled (i + length text) rest ts
      → IsSpelled i (text ++ rest) (token k v i ∷ ts)

-- what `lexString` finds behind the opening quote
pub data IsLiteral (q : ℕ) (s : Bytes) : Option (Bytes × ℕ) → Type 0 where
  unclosed : IsLiteral q s none
  closed :
      (v rest : Bytes) {n : ℕ}
      → s ≡ doubled q v ++ (q ∷ rest)
      → n ≡ length (doubled q v) + 1
      → starts (λ c. c == q) rest ≡ false
      → IsLiteral q s (some (v, n))

pub same_byte : (c d : ℕ) → (c == d) ≡ true → c ≡ d
same_byte c d h = ground (arith, h)

IsLiteral-doubled :
    (q c d : ℕ) (s : Bytes) (o : Option (Bytes × ℕ))
    → (c == q) ≡ true
    → (d == q) ≡ true
    → IsLiteral q s o
    → IsLiteral q (c ∷ d ∷ s) (push q 2 o)
IsLiteral-doubled q c d s none h k l = unclosed
IsLiteral-doubled q c d s (some _) h k (closed v rest e w f) =
    let twice : doubled q (q ∷ v) ≡ q ∷ q ∷ doubled q v = rw (==_refl q) refl in
    closed (q ∷ v) rest
      (rw (same_byte c q h, same_byte d q k)
        (ap (λ l. q ∷ q ∷ l) e ∙ ap (λ l. l ++ (q ∷ rest)) (sym twice)))
      (ap (λ n. 2 + n) w ∙ omega arith ∙ ap (λ l. length l + 1) (sym twice)) f

IsLiteral-plain :
    (q c : ℕ) (s : Bytes) (o : Option (Bytes × ℕ))
    → (c == q) ≡ false
    → IsLiteral q s o
    → IsLiteral q (c ∷ s) (push c 1 o)
IsLiteral-plain q c s none h l = unclosed
IsLiteral-plain q c s (some _) h (closed v rest e w f) =
    let once : doubled q (c ∷ v) ≡ c ∷ doubled q v = rw h refl in
    closed (c ∷ v) rest (ap (◌∷◌ c) e ∙ ap (λ l. l ++ (q ∷ rest)) (sym once))
      (ap (λ n. 1 + n) w ∙ omega arith ∙ ap (λ l. length l + 1) (sym once)) f

pub lex_string-IsLiteral : (q : ℕ) (s : Bytes) → IsLiteral q s (lex_string q s)
unfolding lex_string
lex_string-IsLiteral q [] = unclosed
lex_string-IsLiteral q (c ∷ []) = elim (Bool-cases (c == q)) [
  | inl t ↦ rw t (closed [] [] (ap (λ b. b ∷ []) (same_byte c q t)) refl refl)
  | inr f ↦ rw f unclosed
]
lex_string-IsLiteral q (c ∷ d ∷ s) =
    let twice : IsLiteral q s (lex_string q s) = lex_string-IsLiteral q s in
    let later : IsLiteral q (d ∷ s) (lex_string q (d ∷ s)) = lex_string-IsLiteral q (d ∷ s) in
    elim (Bool-cases (c == q)) [
      | inr f ↦ rw f (IsLiteral-plain q c (d ∷ s) (lex_string q (d ∷ s)) f later)
      | inl t ↦ elim (Bool-cases (d == q)) [
        | inl u ↦ rw (t, u) (IsLiteral-doubled q c d s (lex_string q s) t u twice)
        | inr g ↦ rw (t, g) (closed [] (d ∷ s) (ap (λ b. b ∷ d ∷ s) (same_byte c q t)) refl g)
      ]
    ]
