-- ===== src/Text/Search/Fence.antt =====
-- A marker on a line of its own: a text without the marker, a line feed and the marker. The first
-- occurrence is the one behind the line feed.
use pixkb.Base.{
  Bytes, ℕ, suc, ◌≡◌, refl, Bool, true, false, ◌||◌, [], ◌∷◌, ◌++◌, some, length, ◌==◌, arith,
  ==_refl, Bool-cases, inl, inr,
}
use pixkb.Text.Ascii.{is_prefix}
use pixkb.Text.Search.{index, contains}

abbrev pub has_byte : ℕ → Bytes → Bool
has_byte b [] = false
has_byte b (c ∷ s) = (c == b) || has_byte b s

pub is_prefix-append : (p s : Bytes) → is_prefix p (p ++ s) ≡ true
unfolding is_prefix
is_prefix-append [] s = refl
is_prefix-append (c ∷ p) s = rw (==_refl c) (is_prefix-append p s)

-- A marker without line feed that stands at the front stands there without what follows the line
-- feed.
is_prefix-line :
    (p t rest : Bytes)
    → has_byte 10 p ≡ false
    → is_prefix p (t ++ (10 ∷ rest)) ≡ true
    → is_prefix p t ≡ true
unfolding is_prefix
is_prefix-line [] t rest h k = refl
is_prefix-line (c ∷ p) [] rest h k = ground arith
is_prefix-line (c ∷ p) (d ∷ t) rest h k = ground (arith, is_prefix-line p t rest)

pub index-line :
    (o : ℕ) (p t rest : Bytes)
    → has_byte 10 (o ∷ p) ≡ false
    → contains (o ∷ p) t ≡ false
    → index (o ∷ p) (t ++ (10 ∷ ((o ∷ p) ++ rest))) ≡ some (suc (length t))
unfolding index contains is_prefix
index-line o p [] rest h k =
    let front : is_prefix (o ∷ p) (10 ∷ ((o ∷ p) ++ rest)) ≡ false = ground arith in
    let here : is_prefix (o ∷ p) ((o ∷ p) ++ rest) ≡ true = is_prefix-append (o ∷ p) rest in
    rw (front, here) refl
index-line o p (d ∷ t) rest h k =
    let ih = index-line o p t rest h (ground arith) in
    elim (Bool-cases (is_prefix (o ∷ p) (d ∷ (t ++ (10 ∷ ((o ∷ p) ++ rest)))))) [
      | inr f ↦ rw (f, ih) refl
      | inl e ↦
          let stands : is_prefix (o ∷ p) (d ∷ t) ≡ true =
            is_prefix-line (o ∷ p) (d ∷ t) ((o ∷ p) ++ rest) h e in
          cc (k, stands)
    ]
