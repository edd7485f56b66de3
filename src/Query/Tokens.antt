-- ===== src/Query/Tokens.antt =====
-- `foldTokens`, `titleBoost` and `typeWeight` of internal/query/hybrid.go. Floating-point numbers and
-- the Unicode tables of `strings.ToLower` are parameters.
use pixkb.Base.{
  Bytes, codes, ℕ, ◌+◌, Bool, ◌||◌, List, [], ◌∷◌, Option, none, some, length, ltb, ◌==◌, within,
  if◌then◌else◌,
}
use pixkb.Text.Ascii.{equal}
use pixkb.Text.Fields.{fields}
use pixkb.Text.Members.{mem}
use pixkb.Fusion.Rank.{Float}

-- the operations on `float64` beside those of `Float`, and the constants
pub record Numbers : Type 1 where
  pub float : Float
  pub one : float.Num
  pub mul : float.Num → float.Num → float.Num
  pub div : float.Num → float.Num → float.Num
  pub of_int : ℕ → float.Num
  -- `a >= b`
  pub at_least : float.Num → float.Num → Bool
  -- 0.5, 1.15 and 0.05
  pub title_boost_weight : float.Num
  pub official_boost : float.Num
  pub vec_score_floor : float.Num

-- `titleStop`
abbrev pub title_stop : List Bytes
title_stop =
    codes "de"
    ∷ codes "da"
    ∷ codes "do"
    ∷ codes "e"
    ∷ codes "a"
    ∷ codes "o"
    ∷ codes "no"
    ∷ codes "na"
    ∷ codes "em"
    ∷ codes "para"
    ∷ codes "com"
    ∷ codes "por"
    ∷ codes "of"
    ∷ codes "the"
    ∷ codes "to"
    ∷ codes "in"
    ∷ codes "and"
    ∷ []

-- the letter of a character whose bytes are 0xC3 and this one: U+00E0 to U+00FC with a diacritic
unfoldable pub base_letter : ℕ → Option ℕ
base_letter b =
    if within 0xa0 0xa4 b
    then some b'a'
    else if within 0xa8 0xab b
    then some b'e'
    else if within 0xac 0xaf b
    then some b'i'
    else if within 0xb2 0xb6 b
    then some b'o'
    else if within 0xb9 0xbc b
    then some b'u'
    else if b == 0xa7
    then some b'c'
    else none

-- a byte of any other character
unfoldable pub plain_byte : ℕ → ℕ
plain_byte c = if within b'a' b'z' c || within b'0' b'9' c then c else 32

-- The loop over the characters. A character of several bytes gives as many spaces, which
-- `strings.FieldsSeq` takes for one.
unfoldable pub fold_bytes : Bytes → Bytes
unfolding base_letter plain_byte
fold_bytes [] = []
fold_bytes (a ∷ []) = plain_byte a ∷ []
fold_bytes (a ∷ b ∷ s) = elim (if a == 0xc3 then base_letter b else none) [
  | some c ↦ c ∷ fold_bytes s
  | none ↦ plain_byte a ∷ fold_bytes (b ∷ s)
]

unfoldable pub drop_common : List Bytes → List Bytes
unfolding mem
drop_common [] = []
drop_common (t ∷ ts) =
    let rest = drop_common ts in if ltb (length t) 2 || mem t title_stop then rest else t ∷ rest

module _ (to_lower : Bytes → Bytes) where
  unfoldable pub fold_tokens : Bytes → List Bytes
  unfolding fold_bytes fields drop_common
  fold_tokens s = drop_common (fields (fold_bytes (to_lower s)))

  -- the loop over the tokens of the query: how many there are, and how many the title has
  unfoldable pub count_tokens : List Bytes → List Bytes → ℕ → List Bytes → ℕ × ℕ
  unfolding mem
  count_tokens in_title seen matched [] = (matched, length seen)
  count_tokens in_title seen matched (t ∷ ts) =
      let known = mem t seen in
      count_tokens in_title (if known then seen else t ∷ seen)
        (if known then matched else if mem t in_title then matched + 1 else matched) ts

  module _ (numbers : Numbers) where
    open numbers use {float, one, mul, div, of_int, title_boost_weight, official_boost}

    -- the boost for the tokens that match among all
    unfoldable pub boost : ℕ × ℕ → float.Num
    boost (matched, all) =
        float.add one (div (mul title_boost_weight (of_int matched)) (of_int all))

    unfoldable pub boost_of : List Bytes → List Bytes → float.Num
    unfolding count_tokens boost
    boost_of [] in_title = one
    boost_of (t ∷ ts) in_title = boost (count_tokens in_title [] 0 (t ∷ ts))

    unfoldable pub title_boost : Bytes → Bytes → float.Num
    unfolding fold_tokens boost_of
    title_boost query title = boost_of (fold_tokens query) (fold_tokens title)

    -- the weight 1.15 is the number of `officialBoost`, too
    unfoldable pub type_weight : Bytes → float.Num
    unfolding equal
    type_weight t =
        if equal t (codes "ApiEndpoint")
          || (equal t (codes "PacsMessage") || equal t (codes "CamtMessage"))
        then official_boost
        else one
