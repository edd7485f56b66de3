-- ===== src/Text/Fields.antt =====
-- `strings.Fields` on UTF-8 bytes: the words between the characters that `unicode.IsSpace` accepts.
use mathlib.Core.List.{reverse}
use pixkb.Base.{Bytes, List, [], ◌∷◌, if◌then◌else◌}
use pixkb.Text.Space.{is_space1, is_space2, is_space3}

-- the word that was read, if it is one, in front of the next ones; a word is read in reverse
unfoldable pub flush : Bytes → List Bytes → List Bytes
flush [] words = words
flush (c ∷ word) words = reverse (c ∷ word) ∷ words

unfoldable pub fields_from : Bytes → Bytes → List Bytes
unfolding is_space1 is_space2 is_space3 flush
fields_from word [] = flush word []
fields_from word (a ∷ []) = if is_space1 a then flush word [] else flush (a ∷ word) []
fields_from word (a ∷ b ∷ []) =
    let one = flush word (fields_from [] (b ∷ [])) in
    let more = fields_from (a ∷ word) (b ∷ []) in
    if is_space1 a then one else if is_space2 a b then flush word [] else more
fields_from word (a ∷ b ∷ c ∷ s) =
    let one = flush word (fields_from [] (b ∷ c ∷ s)) in
    let two = flush word (fields_from [] (c ∷ s)) in
    let three = flush word (fields_from [] s) in
    let more = fields_from (a ∷ word) (b ∷ c ∷ s) in
    if is_space1 a
    then one
    else if is_space2 a b
    then two
    else if is_space3 a b c
    then three
    else more

unfoldable pub fields : Bytes → List Bytes
unfolding fields_from
fields s = fields_from [] s
