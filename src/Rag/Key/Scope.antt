-- ===== src/Rag/Key/Scope.antt =====
-- What a key of the cache tells of the question and the options.
use pixkb.Base.{
  Bytes, ℕ, zero, suc, ◌+◌, ◌≤◌, ◌≡◌, refl, sym, ap, ◌∙◌, Bool, true, false, List, [], ◌∷◌, ◌++◌,
  All, length, drop, append-nil, ◌==◌, if◌then◌else◌, arith,
}
use pixkb.Text.Number.{ℤ}
use pixkb.Text.Number.Decimal.{format_int, format_int-has_byte, format_int-injective}
use pixkb.Text.Ascii.{is_digit}
use pixkb.Text.Search.Fence.{has_byte}
use pixkb.Rag.Types.{Options}
use pixkb.Rag.Key.{format_bool, barred, normalized, option_fields, payload, cache_key_for}

-- The text has no bar.
abbrev NoBar : Bytes → Type 0
NoBar t = has_byte b'|' t ≡ false

bars : Bytes → ℕ
bars [] = 0
bars (c ∷ s) = if c == b'|' then suc (bars s) else bars s

bars-append : (s t : Bytes) → bars (s ++ t) ≡ bars s + bars t
unfolding bars
bars-append [] t = omega arith
bars-append (c ∷ s) t = ground (arith, bars-append s t)

bars_none : (t : Bytes) → NoBar t → bars t ≡ 0
unfolding bars
bars_none [] h = refl
bars_none (c ∷ t) h = ground (arith, h, bars_none t)

bars-barred : (ts : List Bytes) → All NoBar ts → bars (barred ts) ≡ length ts
unfolding bars barred
bars-barred [] h = refl
bars-barred (t ∷ ts) h =
    omega (arith, bars-append t (barred ts), bars_none t h.0, bars-barred ts h.1)

abbrev first : Bytes → ℕ
first [] = 0
first (c ∷ s) = c

starts_bar : (x : Bytes) (xs : List Bytes) → b'|' ≡ first (barred (x ∷ xs))
unfolding barred
starts_bar x xs = refl

-- A text without bar in front of barred texts is found again.
cut_bar :
    (s t : Bytes) (xs ys : List Bytes)
    → NoBar s
    → NoBar t
    → s ++ barred xs ≡ t ++ barred ys
    → (s ≡ t) × (barred xs ≡ barred ys)
unfolding barred
cut_bar [] [] xs ys h k e = (refl, e)
cut_bar [] (d ∷ t) [] ys h k e = cc
cut_bar [] (d ∷ t) (x ∷ xs) ys h k e =
    let bar : b'|' ≡ d = ap first e in absurd (ground (arith, k, bar))
cut_bar (c ∷ s) [] xs [] h k e = cc
cut_bar (c ∷ s) [] xs (y ∷ ys) h k e =
    let bar : c ≡ b'|' = ap first e in absurd (ground (arith, h, bar))
cut_bar (c ∷ s) (d ∷ t) xs ys h k e =
    let same : c ≡ d = ap first e in
    let (r, q) = cut_bar s t xs ys (ground (arith, h)) (ground (arith, k)) (ap (drop 1) e) in
    (cc (same, r), q)

cut_rest :
    (s t r r' : Bytes) → NoBar s → NoBar t → s ++ (b'|' ∷ r) ≡ t ++ (b'|' ∷ r') → (s ≡ t) × (r ≡ r')
unfolding barred
cut_rest s t r r' h k e =
    let bar = λ (s r : Bytes). ap (λ u. s ++ (b'|' ∷ u)) (append-nil r) in
    let (q, rest) = cut_bar s t (r ∷ []) (r' ∷ []) h k (bar s r ∙ e ∙ sym (bar t r')) in
    (q, sym (append-nil r) ∙ ap (drop 1) rest ∙ append-nil r')

barred-injective :
    (xs ys : List Bytes) → All NoBar xs → All NoBar ys → barred xs ≡ barred ys → xs ≡ ys
unfolding barred
barred-injective [] [] h k e = refl
barred-injective [] (y ∷ ys) h k e = cc
barred-injective (x ∷ xs) [] h k e = cc
barred-injective (x ∷ xs) (y ∷ ys) h k e =
    let (q, r) = cut_bar x y xs ys h.0 k.0 (ap (drop 1) e) in
    cc (q, barred-injective xs ys h.1 k.1 r)

-- More bars than there are.
too_many :
    (c : ℕ) (t : Bytes) (xs ys : List Bytes)
    → All NoBar xs
    → All NoBar ys
    → length xs ≡ length ys
    → 1 ≤ length xs
    → barred xs ≡ c ∷ (t ++ barred ys)
    → ⊥
unfolding bars
too_many c t [] ys h k l one e = absurd (omega (arith, one))
too_many c t (x ∷ xs) ys h k l one e =
    let bar : b'|' ≡ c = starts_bar x xs ∙ ap first e in
    let here : bars (c ∷ (t ++ barred ys)) ≡ suc (bars (t ++ barred ys)) = rw⁻¹ bar refl in
    omega (
      arith,
      l,
      here,
      bars-append t (barred ys),
      bars-barred ys k,
      bars-barred (x ∷ xs) h,
      ap bars e,
    )

-- Any text in front of as many barred texts is found again, even if it has bars.
cut_front :
    (s t : Bytes) (xs ys : List Bytes)
    → All NoBar xs
    → All NoBar ys
    → length xs ≡ length ys
    → 1 ≤ length xs
    → s ++ barred xs ≡ t ++ barred ys
    → (s ≡ t) × (xs ≡ ys)
cut_front [] [] xs ys h k l one e = (refl, barred-injective xs ys h k e)
cut_front [] (d ∷ t) xs ys h k l one e = absurd (too_many d t xs ys h k l one e)
cut_front (c ∷ s) [] xs ys h k l one e =
    absurd (too_many c s ys xs k h (sym l) (omega (arith, l, one)) (sym e))
cut_front (c ∷ s) (d ∷ t) xs ys h k l one e =
    let same : c ≡ d = ap first e in
    let (r, q) = cut_front s t xs ys h k l one (ap (drop 1) e) in (cc (same, r), q)

NoBar-append : (s t : Bytes) → NoBar s → NoBar t → NoBar (s ++ t)
NoBar-append [] t h k = k
NoBar-append (c ∷ s) t h k = ground (arith, h, NoBar-append s t)

format_int-NoBar : (z : ℤ) → NoBar (format_int z)
unfolding is_digit
format_int-NoBar z = format_int-has_byte b'|' z refl refl

format_bool-NoBar : (b : Bool) → NoBar (format_bool b)
unfolding format_bool
format_bool-NoBar true = refl
format_bool-NoBar false = refl

format_bool-injective : (a b : Bool) → format_bool a ≡ format_bool b → a ≡ b
unfolding format_bool
format_bool-injective true true h = refl
format_bool-injective true false h = absurd (omega (arith, ap first h))
format_bool-injective false true h = absurd (omega (arith, ap first h))
format_bool-injective false false h = refl

abbrev nth : ℕ → List Bytes → Bytes
nth n [] = []
nth zero (t ∷ ts) = t
nth (suc n) (t ∷ ts) = nth n ts

module _ {Score : Type 0} where
  -- the options agree in all that a cached answer depends on
  pub record SameOptions (o p : Options Score) : Type 0 where
    pub epoch : o.epoch ≡ p.epoch
    pub top_k : o.top_k ≡ p.top_k
    pub max_chars : o.max_chars ≡ p.max_chars
    pub expand_related : o.expand_related ≡ p.expand_related
    pub expand_seeds : o.expand_seeds ≡ p.expand_seeds
    pub multi_query : o.multi_query ≡ p.multi_query
    pub diversify : o.diversify ≡ p.diversify
    pub expand_similar : o.expand_similar ≡ p.expand_similar
    pub min_score : o.min_score ≡ p.min_score
    pub no_pii_filter : o.no_pii_filter ≡ p.no_pii_filter

module _ {Score : Type 0} (format_score : Score → Bytes) where
  module _ (to_lower hash : Bytes → Bytes) where
    option_fields-NoBar :
        (o : Options Score)
        → ((s : Score) → NoBar (format_score s))
        → All NoBar (option_fields to_lower hash format_score o)
    unfolding option_fields
    option_fields-NoBar o h = (
      format_int-NoBar o.top_k,
      (
        format_int-NoBar o.max_chars,
        (
          format_bool-NoBar o.expand_related,
          (
            format_int-NoBar o.expand_seeds,
            (
              format_bool-NoBar o.multi_query,
              (
                format_bool-NoBar o.diversify,
                (
                  format_bool-NoBar o.expand_similar,
                  (h o.min_score, (format_bool-NoBar o.no_pii_filter, tt)),
                ),
              ),
            ),
          ),
        ),
      ),
    )

    option_fields-injective :
        (o p : Options Score)
        → ((s t : Score) → format_score s ≡ format_score t → s ≡ t)
        → o.epoch ≡ p.epoch
        → option_fields to_lower hash format_score o ≡ option_fields to_lower hash format_score p
        → SameOptions o p
    unfolding option_fields
    option_fields-injective o p distinct t e = record {
      epoch = t;
      top_k = format_int-injective o.top_k p.top_k (ap (λ l. drop 5 (nth 0 l)) e);
      max_chars = format_int-injective o.max_chars p.max_chars (ap (λ l. drop 4 (nth 1 l)) e);
      expand_related =
          format_bool-injective o.expand_related p.expand_related (ap (λ l. drop 4 (nth 2 l)) e);
      expand_seeds =
          format_int-injective o.expand_seeds p.expand_seeds (ap (λ l. drop 6 (nth 3 l)) e);
      multi_query =
          format_bool-injective o.multi_query p.multi_query (ap (λ l. drop 6 (nth 4 l)) e);
      diversify = format_bool-injective o.diversify p.diversify (ap (λ l. drop 4 (nth 5 l)) e);
      expand_similar =
          format_bool-injective o.expand_similar p.expand_similar (ap (λ l. drop 4 (nth 6 l)) e);
      min_score = distinct o.min_score p.min_score (ap (λ l. drop 4 (nth 7 l)) e);
      no_pii_filter =
          format_bool-injective o.no_pii_filter p.no_pii_filter (ap (λ l. drop 6 (nth 8 l)) e);
    }

    same_length :
        (o p : Options Score)
        → length (option_fields to_lower hash format_score o)
          ≡ length (option_fields to_lower hash format_score p)
    unfolding option_fields
    same_length o p = refl

    some_fields : (o : Options Score) → 1 ≤ length (option_fields to_lower hash format_score o)
    unfolding option_fields
    some_fields o = omega arith

    -- Where the hash has no collision, and different scores have different texts without bars, two
    -- questions share a key only if they are the same in lower case with single spaces, and all
    -- options, the epoch among them, are the same, even if a question has bars in it.
    pub cache_key_for-SameOptions :
        (q q' : Bytes) (o p : Options Score)
        → ((s t : Bytes) → hash s ≡ hash t → s ≡ t)
        → ((s : Score) → has_byte b'|' (format_score s) ≡ false)
        → ((s t : Score) → format_score s ≡ format_score t → s ≡ t)
        → cache_key_for to_lower hash format_score q o
          ≡ cache_key_for to_lower hash format_score q' p
        → (normalized to_lower hash q ≡ normalized to_lower hash q') × SameOptions o p
    unfolding cache_key_for payload
    cache_key_for-SameOptions q q' o p injective no_bar distinct e =
        let fields_of = option_fields to_lower hash format_score in
        let rest = normalized to_lower hash q ++ barred (fields_of o) in
        let rest' = normalized to_lower hash q' ++ barred (fields_of p) in
        let (epochs, behind) =
          cut_rest (format_int o.epoch) (format_int p.epoch) rest rest' (format_int-NoBar o.epoch)
            (format_int-NoBar p.epoch) (injective _ _ e) in
        let (questions, options) =
          cut_front (normalized to_lower hash q) (normalized to_lower hash q') (fields_of o)
            (fields_of p) (option_fields-NoBar o no_bar) (option_fields-NoBar p no_bar)
            (same_length o p) (some_fields o) behind in
        (
          questions,
          option_fields-injective o p distinct (format_int-injective o.epoch p.epoch epochs)
              options,
        )
