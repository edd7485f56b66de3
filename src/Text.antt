-- ===== src/Text.antt =====
-- The functions of Go's `strings`, `strconv` and `fmt` that the program calls, on byte strings.
pub mod Ascii
pub mod Space
pub mod Number
pub mod Search
pub mod Fields
pub mod Members
