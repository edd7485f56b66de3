-- ===== src/Brcode/RoundTrip/Checksum.antt =====
-- The end of a code: the tag "6304" and the four digits of the checksum.
use pixkb.Base.{
  Bytes, ℕ, ◌-◌, ◌<◌, map, ◌==◌, ==_iff, ◌+◌, Bool, not, [], ◌∷◌, ◌++◌, append_assoc, append-nil,
  ◌≡◌, refl, ap, ◌∙◌, sym, some, length, length-append, take, take-append, if◌then◌else◌, arith,
  Bool-cases, inl, inr,
}
use pixkb.Text.Ascii.{equal, lower_byte, last_index, equal_fold}
use pixkb.Text.Ascii.Equal.{equal_iff, equal_fold_refl}
use pixkb.Text.Ascii.LastIndex.{last_index-append}
use pixkb.Text.Number.{hex04, hex_digit}
use pixkb.Text.Number.Hex.{hex04_fold-injective}
use pixkb.Brcode.Crc.{crc16, crc_from}
use pixkb.Brcode.Crc.Detection.{crc16-append, crc16_bounds}
use pixkb.Brcode.Encode.{crc_tag, with_crc}
use pixkb.Brcode.Parse.{crc_matches}

-- The checksum that `Encode` writes after a body.
unfoldable pub checksum : Bytes → ℕ
checksum body = crc16 (body ++ crc_tag)

-- Among the last eight bytes the tag is found at the front, unless the digits are the tag again.
last_index_tag :
    (a b c d : ℕ)
    → last_index crc_tag (crc_tag ++ (a ∷ b ∷ c ∷ d ∷ []))
      ≡ some (if equal (a ∷ b ∷ c ∷ d ∷ []) crc_tag then 4 else 0)
unfolding last_index equal
last_index_tag a b c d = ground arith

last_index_tag-hex04 :
    (n : ℕ)
    → last_index crc_tag (crc_tag ++ hex04 n) ≡ some (if equal (hex04 n) crc_tag then 4 else 0)
unfolding hex04
last_index_tag-hex04 n = last_index_tag _ _ _ _

abbrev number_if : Bool → ℕ
number_if b = if b then 4 else 0

tag_is_hex04 : crc_tag ≡ hex04 0x6304
unfolding hex04 hex_digit
tag_is_hex04 = refl

equal-hex04 : (n : ℕ) → n < 65536 → equal (hex04 n) crc_tag ≡ (n == 0x6304)
equal-hex04 n p = elim (Bool-cases (n == 0x6304)) [
  | inl same ↦
      rw (same, (==_iff n 0x6304).0 same) ((equal_iff (hex04 0x6304) crc_tag).1 (sym tag_is_hex04))
  | inr other ↦ elim (Bool-cases (equal (hex04 n) crc_tag)) [
    | inl as_tag ↦
        let digits = (equal_iff (hex04 n) crc_tag).0 as_tag ∙ tag_is_hex04 in
        let same = hex04_fold-injective n 0x6304 p (omega arith) (ap (map lower_byte) digits) in
        absurd (ground arith)
    | inr no_tag ↦ cc
  ]
]

-- Where the digits are no second tag, the tag is found behind the body.
last_index-with_crc :
    (body : Bytes)
    → last_index crc_tag (with_crc body)
      ≡ some (length body + (if checksum body == 0x6304 then 4 else 0))
unfolding with_crc checksum
last_index-with_crc body =
    let n = checksum body in
    let found =
      last_index_tag-hex04 n
      ∙ ap (λ b. some (number_if b)) (equal-hex04 n (crc16_bounds (body ++ crc_tag))) in
    rw append_assoc (last_index-append crc_tag body (crc_tag ++ hex04 n) found)

take_tagged : (body : Bytes) → take (length body + 0 + 4) (with_crc body) ≡ body ++ crc_tag
unfolding with_crc
take_tagged body =
    let n : length body + 0 + 4 ≡ length (body ++ crc_tag) =
      omega (arith, length-append body crc_tag) in
    rw n (take-append (body ++ crc_tag) (hex04 (crc16 (body ++ crc_tag))))

length-hex04 : (n : ℕ) → length (hex04 n) ≡ 4
unfolding hex04
length-hex04 n = refl

take_whole : (s : Bytes) → take (length s) s ≡ s
take_whole s = rw append-nil at (take-append s [])

take_all : (body : Bytes) → take (length body + 4 + 4) (with_crc body) ≡ with_crc body
unfolding with_crc
take_all body =
    let t = body ++ crc_tag in
    let n = crc16 t in
    let whole : length body + 4 + 4 ≡ length (t ++ hex04 n) =
      omega (arith, length-append t (hex04 n), length-append body crc_tag, length-hex04 n) in
    rw whole (take_whole (t ++ hex04 n))

crc16_twice :
    (body : Bytes) → checksum body ≡ 0x6304 → crc16 (with_crc body) ≡ crc_from 0x6304 crc_tag
unfolding with_crc checksum
crc16_twice body e =
    crc16-append (body ++ crc_tag) (hex04 (crc16 (body ++ crc_tag)))
    ∙ rw e (ap (crc_from 0x6304) (sym tag_is_hex04))

-- The checksum of a code compares equal exactly when it is not itself the tag.
pub crc_matches-with_crc :
    (body : Bytes)
    → crc_matches (with_crc body) (hex04 (checksum body)) (last_index crc_tag (with_crc body))
      ≡ not (checksum body == 0x6304)
unfolding crc_matches
crc_matches-with_crc body = elim (Bool-cases (checksum body == 0x6304)) [
  | inl as_tag ↦
      rw
        (
          last_index-with_crc body,
          as_tag,
          take_all body,
          crc16_twice body ((==_iff _ _).0 as_tag),
          (==_iff _ _).0 as_tag,
        )
        (unfold equal_fold hex04 hex_digit crc_from in refl)
  | inr other ↦
      rw (last_index-with_crc body, other, take_tagged body)
        (unfold checksum in equal_fold_refl (hex04 (checksum body)))
]

-- The text before the four digits.
pub take_front :
    (body : Bytes) → take (length (with_crc body) - 4) (with_crc body) ≡ body ++ crc_tag
unfolding with_crc
take_front body =
    let t = body ++ crc_tag in
    let n = crc16 t in
    let front : length (t ++ hex04 n) - 4 ≡ length t =
      omega (arith, length-append t (hex04 n), length-hex04 n) in
    rw front (take-append t (hex04 n))
