-- ===== src/Brcode.antt =====
-- internal/brcode: the Pix BR Code.
pub mod Errors
pub mod Id
pub mod Tlv
pub mod Crc
pub mod Payload
pub mod Encode
pub mod Parse
pub mod RoundTrip
