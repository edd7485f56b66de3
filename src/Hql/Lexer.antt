-- ===== src/Hql/Lexer.antt =====
-- internal/hql/lexer.go. `input[i:]` is a list of bytes beside the offset `i`.
pub mod Total
pub mod Spells
pub mod Spelled
use pixkb.Base.{
  Bytes, codes, ℕ, zero, suc, ◌+◌, Bool, true, false, ◌&&◌, ◌||◌, List, [], ◌∷◌, ◌++◌, Option, none,
  some, length, drop, ◌==◌, within, if◌then◌else◌, Result, ok, err, ◌>>=◌,
}
use pixkb.Hql.Errors.{Error, unexpected_character, unterminated_string, out_of_fuel}

pub data TokKind : Type 0 where
  eof word string op lparen rparen comma : TokKind

pub record Token : Type 0 where
  pub kind : TokKind
  pub val : Bytes
  pub pos : ℕ

abbrev pub token : TokKind → Bytes → ℕ → Token
token k v i = record { kind = k; val = v; pos = i }

unfoldable pub is_word_byte : ℕ → Bool
is_word_byte b =
    (within b'a' b'z' b || within b'A' b'Z' b || within b'0' b'9' b)
    || (b == b'_'
        || b == b'.'
        || b == b':'
        || b == b'@'
        || b == b'%'
        || b == b'/'
        || b == b'-'
        || b == b'+'
        || b == b'*')

-- The longest run of word bytes at the front.
unfoldable pub word_run : Bytes → Bytes
unfolding is_word_byte
word_run [] = []
word_run (c ∷ s) = let run = word_run s in if is_word_byte c then c ∷ run else []

-- `lexOp` at a byte `c` with `s` behind it: the operator and its width
unfoldable pub lex_op : ℕ → Bytes → Bytes × ℕ
lex_op c [] = (c ∷ [], 1)
lex_op c (n ∷ s) =
    if (c == b'!' && (n == b'=' || n == b'~')) || ((c == b'<' || c == b'>') && n == b'=')
    then (c ∷ n ∷ [], 2)
    else (c ∷ [], 1)

-- one more byte of a literal, `w` bytes wide in the source
abbrev pub push : ℕ → ℕ → Option (Bytes × ℕ) → Option (Bytes × ℕ)
push c w none = none
push c w (some (s, n)) = some (c ∷ s, w + n)

-- `lexString` behind the opening quote `q`: the literal and the width up to and with its closing
-- quote
unfoldable pub lex_string : ℕ → Bytes → Option (Bytes × ℕ)
lex_string q [] = none
lex_string q (c ∷ []) = if c == q then some ([], 1) else none
lex_string q (c ∷ d ∷ s) =
    let doubled = push q 2 (lex_string q s) in
    let plain = push c 1 (lex_string q (d ∷ s)) in
    if c == q then (if d == q then doubled else some ([], 1)) else plain

-- the token of a quoted literal at `i`, and its width
unfoldable pub string_token : ℕ → Option (Bytes × ℕ) → Result Error (List Token × ℕ)
string_token i none = err (unterminated_string i)
string_token i (some (s, n)) = ok (token string s i ∷ [], n + 1)

-- One round of the loop of `lex`, at a byte `c` with `s` behind it: the tokens that it appends (one,
-- or none for white space) and the bytes that it takes.
unfoldable pub scan : ℕ → ℕ → Bytes → Result Error (List Token × ℕ)
scan i c s =
    if c == b' ' || c == b'\t' || c == b'\n' || c == b'\r'
    then ok ([], 1)
    else if c == b'('
    then ok (token lparen (codes "(") i ∷ [], 1)
    else if c == b')'
    then ok (token rparen (codes ")") i ∷ [], 1)
    else if c == b','
    then ok (token comma (codes ",") i ∷ [], 1)
    else if c == b'\'' || c == b'"'
    then string_token i (lex_string c s)
    else if c == b'=' || c == b'~'
    then ok (token op (c ∷ []) i ∷ [], 1)
    else if c == b'!' || c == b'<' || c == b'>'
    then ok (token op (lex_op c s).0 i ∷ [], (lex_op c s).1)
    else if is_word_byte c
    then ok (token word (c ∷ word_run s) i ∷ [], 1 + length (word_run s))
    else err (unexpected_character c i)

unfoldable pub lex_from : ℕ → ℕ → Bytes → Result Error (List Token)
lex_from zero i s = err out_of_fuel
lex_from (suc fuel) i [] = ok (token eof [] i ∷ [])
lex_from (suc fuel) i (c ∷ s) = do
  round ← scan i c s
  rest ← lex_from fuel (i + round.1) (drop round.1 (c ∷ s))
  ok (round.0 ++ rest)

-- Each round takes a byte at least.
unfoldable pub lex : Bytes → Result Error (List Token)
lex input = lex_from (suc (length input)) 0 input
