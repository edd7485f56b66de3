-- ===== src/Brcode/Tlv.antt =====
-- The EMV fields of internal/brcode/brcode.go: `tlv`, `parseTLVs`, `encodeTLVs`, `find`.
pub mod Append
pub mod RoundTrip
pub mod Total
use pixkb.Base.{
  Bytes, ℕ, zero, suc, ◌+◌, Bool, true, false, List, [], ◌∷◌, ◌++◌, Option, none, some, length,
  take, drop, ltb, ◌==◌, if◌then◌else◌, Result, ok, err, ◌>>=◌, not, ◌&&◌,
}
use pixkb.Text.Ascii.{equal, is_empty}
use pixkb.Text.Number.{ℤ, pos, negsuc, digits_only, atoi, two_digits}
use pixkb.Brcode.Errors.{
  Error, truncated_header, non_numeric_length, bad_length, exceeds_payload, value_too_long,
  out_of_fuel,
}

pub record Tlv : Type 0 where
  pub id : Bytes
  pub val : Bytes

-- `allDigits`: at least one byte, and each a digit
unfoldable pub all_digits : Bytes → Bool
unfolding digits_only
all_digits s = digits_only s && not (is_empty s)

-- the result of `strconv.Atoi`, where `err != nil || n < 0` is the error
unfoldable pub non_negative : Bytes → Bytes → Option ℤ → Result Error ℕ
non_negative id len (some (pos n)) = ok n
non_negative id len _ = err (bad_length len id)

unfoldable pub field_length : Bytes → Bytes → Result Error ℕ
unfolding all_digits atoi non_negative
field_length id len =
    if not (all_digits len) then err (non_numeric_length len id) else non_negative id len (atoi len)

-- the value of `n` bytes and what follows it
unfoldable pub take_value : Bytes → ℕ → Bytes → Result Error (Bytes × Bytes)
take_value id n rest =
    if ltb (length rest) n then err (exceeds_payload id n) else ok (take n rest, drop n rest)

-- The loop of `parseTLVs` at offset `i`, where the text from there on is the last argument.
unfoldable pub parse_from : ℕ → ℕ → Bytes → Result Error (List Tlv)
parse_from zero i s = err out_of_fuel
parse_from (suc fuel) i [] = ok []
parse_from (suc fuel) i (a ∷ b ∷ c ∷ d ∷ rest) = do
  n ← field_length (a ∷ b ∷ []) (c ∷ d ∷ [])
  cut ← take_value (a ∷ b ∷ []) n rest
  fields ← parse_from fuel (i + 4 + n) cut.1
  ok (record { id = a ∷ b ∷ []; val = cut.0 } ∷ fields)
parse_from (suc fuel) i _ = err (truncated_header i)

-- Each round takes four bytes at least, so this fuel is more than enough.
unfoldable pub parse_tlvs : Bytes → Result Error (List Tlv)
parse_tlvs s = parse_from (suc (length s)) 0 s

unfoldable pub encode_tlvs : List Tlv → Result Error Bytes
encode_tlvs [] = ok []
encode_tlvs (f ∷ fields) =
    if ltb 99 (length f.val)
    then err (value_too_long f.id (length f.val))
    else do rest ← encode_tlvs fields; ok (f.id ++ (two_digits (length f.val) ++ (f.val ++ rest)))

unfoldable pub find : List Tlv → Bytes → Bytes
unfolding equal
find [] id = []
find (f ∷ fields) id = if equal f.id id then f.val else find fields id
