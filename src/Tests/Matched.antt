-- ===== src/Tests/Matched.antt =====
-- A query with a repeated word and one that is nowhere.
use pixkb.Base.{codes, ◌≡◌, refl, [], ◌∷◌}
use pixkb.Text.Ascii.{equal, is_prefix}
use pixkb.Text.Members.{mem}
use pixkb.Text.Search.{contains}
use pixkb.Query.Matched.{first_seen, matches, matched, tokenize_matched, compute_matched_fields}

title_and_body :
    compute_matched_fields
      (λ t. t)
      (λ t. codes "pix" ∷ codes "key" ∷ codes "pix" ∷ codes "no" ∷ [])
      (codes "pix key pix no")
      (codes "a pix")
      []
      (codes "the key")
    ≡ record { tokens = codes "pix" ∷ codes "key" ∷ []; fields = codes "title" ∷ codes "body" ∷ [] }
unfolding compute_matched_fields tokenize_matched first_seen matches matched mem equal contains
    is_prefix
title_and_body = refl
