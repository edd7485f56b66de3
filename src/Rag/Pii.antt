-- ===== src/Rag/Pii.antt =====
-- `RedactPII` of internal/rag/pii.go. A regular expression is a parameter: what
-- `ReplaceAllString` makes of a text with a replacement.
use pixkb.Base.{Bytes, codes}

pub record Patterns : Type 0 where
  pub cnpj_formatted : Bytes → Bytes → Bytes
  pub cpf_formatted : Bytes → Bytes → Bytes
  pub cnpj_bare : Bytes → Bytes → Bytes
  pub cpf_bare : Bytes → Bytes → Bytes
  pub phone : Bytes → Bytes → Bytes
  pub email : Bytes → Bytes → Bytes

unfoldable pub redact_pii : Patterns → Bytes → Bytes
redact_pii p s0 =
    let s1 = p.cnpj_formatted s0 (codes "[REDACTED:CNPJ]") in
    let s2 = p.cpf_formatted s1 (codes "[REDACTED:CPF]") in
    let s3 = p.cnpj_bare s2 (codes "[REDACTED:CNPJ]") in
    let s4 = p.cpf_bare s3 (codes "[REDACTED:CPF]") in
    let s5 = p.phone s4 (codes "[REDACTED:PHONE]") in p.email s5 (codes "[REDACTED:EMAIL]")
