-- ===== src/Query/Vocab.antt =====
-- internal/query/vocab.go: the vocabularies by domain. The embedded files, as they are parsed, are a
-- parameter, as is the order in which Go walks a map.
use pixkb.Base.{Bytes, Bool, not, ◌&&◌, List, [], ◌∷◌, ◌++◌, if◌then◌else◌}
use pixkb.Text.Members.{mem}
use pixkb.Fusion.Sort.{sort_stable}
use pixkb.Fusion.Rank.{text_less, value_at, has, keys}

pub record VocabEntry : Type 0 where
  pub stems : List Bytes
  pub subquery : Bytes
  pub enabled : Bool
  pub reason : Bytes

-- the registry, a map from domains
abbrev pub Registry : Type 0
Registry = List (Bytes × List VocabEntry)

-- the domains that are asked for and known, each once
unfoldable pub known_domains : Registry → List Bytes → List Bytes → List Bytes
unfolding mem
known_domains reg seen [] = []
known_domains reg seen (d ∷ ds) =
    let new = d ∷ known_domains reg (d ∷ seen) ds in
    let old = known_domains reg seen ds in if has d reg && not (mem d seen) then new else old

unfoldable pub entries_of : Registry → List Bytes → List VocabEntry
entries_of reg [] = []
entries_of reg (k ∷ ks) = value_at [] k reg ++ entries_of reg ks

module _ (walk : List Bytes → List Bytes) where
  unfoldable pub domain_keys : Registry → List Bytes → List Bytes
  unfolding known_domains
  domain_keys reg [] = walk (keys reg)
  domain_keys reg (d ∷ ds) = known_domains reg [] (d ∷ ds)

  unfoldable pub select_vocabulary : Registry → List Bytes → List VocabEntry
  unfolding domain_keys entries_of
  select_vocabulary reg domains = entries_of reg (sort_stable text_less (domain_keys reg domains))

  unfoldable pub vocabulary : Registry → List VocabEntry
  unfolding select_vocabulary
  vocabulary vocabularies = select_vocabulary vocabularies []

  unfoldable pub vocabulary_for : Registry → List Bytes → List VocabEntry
  unfolding select_vocabulary
  vocabulary_for vocabularies domains = select_vocabulary vocabularies domains

unfoldable pub active_vocabulary : List VocabEntry → List VocabEntry
active_vocabulary [] = []
active_vocabulary (e ∷ es) = let rest = active_vocabulary es in if e.enabled then e ∷ rest else rest
