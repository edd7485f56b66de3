-- ===== src/Brcode/Tlv/RoundTrip.antt =====
-- What `encodeTLVs` wrote `parseTLVs` reads back, and the other way round.
use pixkb.Base.{
  Bytes, ℕ, zero, suc, ◌+◌, ◌<◌, ◌≡◌, refl, ap, ◌∙◌, ◌↔◌, List, [], ◌∷◌, ◌++◌, length,
  length-append, take-append, drop-append, take-append-drop, length-take, All, ltb, ok, ◌>>=◌,
  >>=-eq-ok, arith, Bool-cases, inl, inr, tests, le→ltb, err-ne-ok, ok-injective,
}
use pixkb.Text.Number.{two_digits}
use pixkb.Brcode.Tlv.{Tlv, field_length, take_value, parse_from, parse_tlvs, encode_tlvs}

-- An id of two bytes, as the format has it.
abbrev pub IsFramed : Tlv → Type 0
IsFramed f = length f.id ≡ 2

field_length-two_digits : (id : Bytes) (n : ℕ) → n < 100 → field_length id (two_digits n) ≡ ok n
unfolding field_length two_digits
field_length-two_digits id n h = ground arith

take_value-append : (id v rest : Bytes) → take_value id (length v) (v ++ rest) ≡ ok (v, rest)
unfolding take_value
take_value-append id v rest =
    ground (arith, length-append v rest, take-append v rest, drop-append v rest)

parse_from_step :
    (fuel i a b : ℕ) (v rest : Bytes)
    → length v < 100
    → parse_from (suc fuel) i (a ∷ b ∷ (two_digits (length v) ++ (v ++ rest))) ≡ (
        parse_from fuel (i + 4 + length v) rest >>= λ fields.
        ok (record { id = a ∷ b ∷ []; val = v } ∷ fields))
unfolding parse_from two_digits
parse_from_step fuel i a b v rest h =
    rw (field_length-two_digits (a ∷ b ∷ []) (length v) h, take_value-append)

two_bytes : (s : Bytes) → length s ≡ 2 → (a : ℕ) × (b : ℕ) × (s ≡ a ∷ b ∷ [])
two_bytes (a ∷ b ∷ []) h = (a, b, refl)
two_bytes [] h = absurd (omega arith)
two_bytes (a ∷ []) h = absurd (omega arith)
two_bytes (a ∷ b ∷ c ∷ s) h = absurd (omega arith)

-- The parts of an encoding of at least one field.
pub record Encoded (f : Tlv) (fields : List Tlv) (s : Bytes) : Type 0 where
  pub rest : Bytes
  pub short : length f.val < 100
  pub encoded_rest : encode_tlvs fields ≡ ok rest
  pub text_is : s ≡ f.id ++ (two_digits (length f.val) ++ (f.val ++ rest))

Encoded-length :
    (f : Tlv) (fields : List Tlv) {s : Bytes} (c : Encoded f fields s) → length c.rest < length s
unfolding two_digits
Encoded-length f fields c = rw c.text_is (
    omega (
      arith,
      length-append f.id (two_digits (length f.val) ++ (f.val ++ c.rest)),
      length-append f.val c.rest,
    ))

pub encode-Encoded :
    (f : Tlv) (fields : List Tlv) {s : Bytes} → encode_tlvs (f ∷ fields) ≡ ok s → Encoded f fields s
unfolding encode_tlvs
encode-Encoded f fields {s} e = elim (Bool-cases (ltb 99 (length f.val))) [
  | inl long ↦ absurd (err-ne-ok (rw long at e))
  | inr fits ↦
      let (r, er, es) = >>=-eq-ok (encode_tlvs fields) _ (rw fits at e) in
      record { rest = r; short = omega tests; encoded_rest = er; text_is = cc }
]

nil-encode : {s : Bytes} → encode_tlvs [] ≡ ok s → s ≡ []
unfolding encode_tlvs
nil-encode e = cc

-- The loop reads back what was encoded, from any offset and with any fuel above the length.
parse_from-encode :
    (fields : List Tlv) (fuel i : ℕ) {s : Bytes}
    → All IsFramed fields
    → encode_tlvs fields ≡ ok s
    → length s < fuel
    → parse_from fuel i s ≡ ok fields
parse_from-encode fields zero i fr e h = absurd (omega arith)
parse_from-encode [] (suc fuel) i fr e h = rw (nil-encode e) (unfold parse_from in refl)
parse_from-encode (f ∷ fields) (suc fuel) i {s} fr e h =
    let c = encode-Encoded f fields e in
    let (a, b, id_is) = two_bytes f.id fr.0 in
    let parts : s ≡ a ∷ b ∷ (two_digits (length f.val) ++ (f.val ++ c.rest)) = cc in
    rw
      (
        parts,
        parse_from_step fuel i a b f.val c.rest c.short,
        parse_from-encode fields fuel (i + 4 + length f.val) fr.1 c.encoded_rest
            (omega (arith, Encoded-length f fields c)),
      )
      (rw (← id_is))

-- Any list of fields with ids of two bytes that can be encoded is read back unchanged.
pub parse_tlvs-encode_tlvs :
    (fields : List Tlv) {s : Bytes}
    → All IsFramed fields
    → encode_tlvs fields ≡ ok s
    → parse_tlvs s ≡ ok fields
unfolding parse_tlvs
parse_tlvs-encode_tlvs fields {s} fr e =
    parse_from-encode fields (suc (length s)) 0 fr e (omega arith)

-- The other direction: what is parsed is an encoding of the result.
digits-two_digits :
    (id : Bytes) (c d : ℕ) {n : ℕ}
    → field_length id (c ∷ d ∷ []) ≡ ok n
    → (c ∷ d ∷ [] ≡ two_digits n) × (n < 100)
unfolding field_length two_digits
digits-two_digits id c d h = ground arith

take_value-eq-ok :
    (id : Bytes) (n : ℕ) (rest v r : Bytes)
    → take_value id n rest ≡ ok (v, r)
    → (rest ≡ v ++ r) × (length v ≡ n)
unfolding take_value
take_value-eq-ok id n rest v r h = ground (arith, take-append-drop n rest, length-take n rest)

-- One round of the loop that succeeded.
record Round (fuel i a b c d : ℕ) (rest : Bytes) (fields : List Tlv) : Type 0 where
  n : ℕ
  v : Bytes
  r : Bytes
  tail : List Tlv
  length_read : field_length (a ∷ b ∷ []) (c ∷ d ∷ []) ≡ ok n
  cut : take_value (a ∷ b ∷ []) n rest ≡ ok (v, r)
  tail_read : parse_from fuel (i + 4 + n) r ≡ ok tail
  fields_is : record { id = a ∷ b ∷ []; val = v } ∷ tail ≡ fields

parse_from-Round :
    (fuel i a b c d : ℕ) (rest : Bytes) {fields : List Tlv}
    → parse_from (suc fuel) i (a ∷ b ∷ c ∷ d ∷ rest) ≡ ok fields
    → Round fuel i a b c d rest fields
unfolding parse_from
parse_from-Round fuel i a b c d rest e =
    let (n, en, e₁) = >>=-eq-ok (field_length (a ∷ b ∷ []) (c ∷ d ∷ [])) _ e in
    let (cut, ev, e₂) = >>=-eq-ok (take_value (a ∷ b ∷ []) n rest) _ e₁ in
    let (tail, et, e₃) = >>=-eq-ok (parse_from fuel (i + 4 + n) cut.1) _ e₂ in
    record {
      n = n;
      v = cut.0;
      r = cut.1;
      tail = tail;
      length_read = en;
      cut = ev;
      tail_read = et;
      fields_is = cc;
    }

encode_cons :
    (id v : Bytes) (tail : List Tlv) {r : Bytes}
    → length v < 100
    → encode_tlvs tail ≡ ok r
    → encode_tlvs (record { id = id; val = v } ∷ tail)
      ≡ ok (id ++ (two_digits (length v) ++ (v ++ r)))
unfolding encode_tlvs
encode_cons id v tail h e = rw (le→ltb 99 (length v) (omega arith), e)

same_text :
    (a b c d : ℕ) {n : ℕ} (v r : Bytes) {rest : Bytes}
    → length v ≡ n
    → c ∷ d ∷ [] ≡ two_digits n
    → rest ≡ v ++ r
    → ◌≡◌ {A = Bytes} (a ∷ b ∷ (two_digits (length v) ++ (v ++ r))) (a ∷ b ∷ c ∷ d ∷ rest)
same_text a b c d v r count digits split_is = rw (count, ← digits, split_is)

encode-parse_from :
    (fuel i : ℕ) (s : Bytes) {fields : List Tlv}
    → parse_from fuel i s ≡ ok fields
    → All IsFramed fields × (encode_tlvs fields ≡ ok s)
unfolding parse_from
encode-parse_from zero i s e = absurd (err-ne-ok e)
encode-parse_from (suc fuel) i [] e = rw (← ok-injective e) (tt, unfold encode_tlvs in refl)
encode-parse_from (suc fuel) i (a ∷ b ∷ c ∷ d ∷ rest) {fields} e =
    let step = parse_from-Round fuel i a b c d rest e in
    let (split_is, count) = take_value-eq-ok (a ∷ b ∷ []) step.n rest step.v step.r step.cut in
    let (digits, below) = digits-two_digits (a ∷ b ∷ []) c d step.length_read in
    let (framed, again) = encode-parse_from fuel (i + 4 + step.n) step.r step.tail_read in
    rw (← step.fields_is) (
      (refl, framed),
      encode_cons _ _ _ (omega (arith, count)) again
          ∙ ap ok (same_text a b c d step.v step.r count digits split_is),
    )
encode-parse_from (suc fuel) i (a ∷ []) e = absurd (err-ne-ok e)
encode-parse_from (suc fuel) i (a ∷ b ∷ []) e = absurd (err-ne-ok e)
encode-parse_from (suc fuel) i (a ∷ b ∷ c ∷ []) e = absurd (err-ne-ok e)

-- The parser accepts a text with these fields exactly when their ids have two bytes and the text
-- is their encoding: nothing malformed passes, and nothing is lost.
pub parse_tlvs-eq-ok_iff :
    (s : Bytes) (fields : List Tlv)
    → (parse_tlvs s ≡ ok fields) ↔ (All IsFramed fields × (encode_tlvs fields ≡ ok s))
unfolding parse_tlvs
parse_tlvs-eq-ok_iff s fields =
    (encode-parse_from (suc (length s)) 0 s, λ h. parse_tlvs-encode_tlvs fields h.0 h.1)
