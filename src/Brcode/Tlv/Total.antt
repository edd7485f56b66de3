-- ===== src/Brcode/Tlv/Total.antt =====
-- `parseTLVs` ends: the fuel of the model is never used up.
use pixkb.Base.{
  Bytes, ℕ, zero, suc, ◌+◌, ◌<◌, ◌≡◌, ◌≢◌, [], ◌∷◌, length, length-drop, ok, err, >>=-eq-err, arith,
  inl, inr,
}
use pixkb.Brcode.Errors.{out_of_fuel}
use pixkb.Brcode.Tlv.{field_length, take_value, parse_from, parse_tlvs}

field_length-ne-out_of_fuel : (id len : Bytes) → field_length id len ≢ err out_of_fuel
unfolding field_length
field_length-ne-out_of_fuel id len = ground arith

take_value-ne-out_of_fuel : (id : Bytes) (n : ℕ) (s : Bytes) → take_value id n s ≢ err out_of_fuel
unfolding take_value
take_value-ne-out_of_fuel id n s = ground arith

length-take_value :
    (id : Bytes) (n : ℕ) (s : Bytes) {cut : Bytes × Bytes}
    → take_value id n s ≡ ok cut
    → length cut.1 < length s + 1
unfolding take_value
length-take_value id n s h = ground (arith, length-drop n s)

parse_from-ne-out_of_fuel :
    (fuel i : ℕ) (s : Bytes) → length s < fuel → parse_from fuel i s ≡ err out_of_fuel → ⊥
unfolding parse_from
parse_from-ne-out_of_fuel zero i s h e = absurd (omega arith)
parse_from-ne-out_of_fuel (suc fuel) i (a ∷ b ∷ c ∷ d ∷ rest) h e =
    elim (>>=-eq-err (field_length (a ∷ b ∷ []) (c ∷ d ∷ [])) _ e) [
      | inl no_length ↦ field_length-ne-out_of_fuel _ _ no_length
      | inr (n, _, e₁) ↦ elim (>>=-eq-err (take_value (a ∷ b ∷ []) n rest) _ e₁) [
        | inl no_value ↦ take_value-ne-out_of_fuel _ _ _ no_value
        | inr (cut, taken, e₂) ↦ elim (>>=-eq-err (parse_from fuel (i + 4 + n) cut.1) _ e₂) [
          | inl later ↦
              parse_from-ne-out_of_fuel fuel (i + 4 + n) cut.1
                (omega (arith, length-take_value _ _ _ taken)) later
          | inr (fields, _, e₃) ↦ cc
        ]
      ]
    ]
parse_from-ne-out_of_fuel (suc fuel) i [] h e = cc
parse_from-ne-out_of_fuel (suc fuel) i (a ∷ []) h e = cc
parse_from-ne-out_of_fuel (suc fuel) i (a ∷ b ∷ []) h e = cc
parse_from-ne-out_of_fuel (suc fuel) i (a ∷ b ∷ c ∷ []) h e = cc

-- The fuel that `parse_tlvs` hands out suffices for every text.
pub parse_tlvs-ne-out_of_fuel : (s : Bytes) → parse_tlvs s ≢ err out_of_fuel
unfolding parse_tlvs
parse_tlvs-ne-out_of_fuel s = parse_from-ne-out_of_fuel (suc (length s)) 0 s (omega arith)
