-- ===== src/Brcode/Crc/Detection.antt =====
-- What `CRC16` guarantees of the code that carries it.
use pixkb.Base.{Bytes, ℕ, ◌<◌, ◌≡◌, ◌∙◌, sym, ◌∷◌, ◌++◌, arith}
use pixkb.Brcode.Crc.{add_byte, crc_from, crc16}
use pixkb.Brcode.Crc.Shift.{
  add_byte_bounds, add_byte-injective_byte, crc_from_bounds, crc_from-injective, crc_from-append,
}

-- The result is a uint16.
pub crc16_bounds : (s : Bytes) → crc16 s < 65536
unfolding crc16
crc16_bounds s = crc_from_bounds s 0xffff (omega arith)

pub crc16-append : (s t : Bytes) → crc16 (s ++ t) ≡ crc_from (crc16 s) t
unfolding crc16
crc16-append s t = crc_from-append s t 0xffff

-- Two texts that differ in exactly one byte have different checksums.
pub crc16_detects :
    (before after : Bytes) (b c : ℕ)
    → b < 256
    → c < 256
    → crc16 (before ++ (b ∷ after)) ≡ crc16 (before ++ (c ∷ after))
    → b ≡ c
crc16_detects before after b c p q e =
    let r = crc16 before in
    let chained = sym (crc16-append before (b ∷ after)) ∙ e ∙ crc16-append before (c ∷ after) in
    let apart =
      crc_from-injective after (add_byte r b) (add_byte r c)
        (add_byte_bounds r b (crc16_bounds before)) (add_byte_bounds r c (crc16_bounds before))
        (unfold crc_from in chained) in
    add_byte-injective_byte r b c (crc16_bounds before) p q apart
