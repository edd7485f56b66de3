-- ===== src/Brcode/Tlv/Append.antt =====
-- Encoding a list of fields in two parts.
use pixkb.Base.{
  Bytes, ◌≡◌, ap, ◌∙◌, List, [], ◌∷◌, ◌++◌, append_assoc, length, ltb, ok, >>=-eq-ok, Bool-cases,
  inl, inr, err-ne-ok, ok-injective,
}
use pixkb.Text.Number.{two_digits}
use pixkb.Brcode.Tlv.{Tlv, encode_tlvs}

regroup : (a b c d t : Bytes) → a ++ (b ++ (c ++ (d ++ t))) ≡ (a ++ (b ++ (c ++ d))) ++ t
regroup a b c d t = simp append_assoc

pub encode_tlvs-append :
    (fields more : List Tlv) {s t : Bytes}
    → encode_tlvs fields ≡ ok s
    → encode_tlvs more ≡ ok t
    → encode_tlvs (fields ++ more) ≡ ok (s ++ t)
unfolding encode_tlvs
encode_tlvs-append [] more {s} {t} e e' = cc
encode_tlvs-append (f ∷ fields) more {s} {t} e e' = elim (Bool-cases (ltb 99 (length f.val))) [
  | inl long ↦ absurd (err-ne-ok (rw long at e))
  | inr fits ↦
      let (r, er, es) = >>=-eq-ok (encode_tlvs fields) _ (rw fits at e) in
      rw (fits, encode_tlvs-append fields more er e')
        (ap ok (
          regroup f.id (two_digits (length f.val)) f.val r t
          ∙ ap (λ (u : Bytes). u ++ t) (ok-injective es)))
]
