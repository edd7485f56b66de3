-- ===== src/Tests/Answers.antt =====
-- A bundle with a concept for each id, two hits, and an agent that counts its runs.
use pixkb.Base.{
  Bytes, codes, ℕ, ◌+◌, ◌≡◌, ◌≢◌, refl, ap, ◌∙◌, false, true, List, [], ◌∷◌, ◌++◌, All, none, some,
  Result, ok, err, ◌⊎◌, inl, inr,
}
use pixkb.Text.Ascii.{equal, is_prefix, is_empty}
use pixkb.Text.Space.{trim_space, trim_left, trim_right_reversed, is_space1, is_space2, is_space3}
use pixkb.Text.Search.{index}
use pixkb.Text.Number.{pos}
use pixkb.Text.Members.{mem}
use pixkb.Rag.Types.{
  Hit, Chunk, Grounding, Answer, Options, Retriever, ConceptSource, Error, max_chars_of, top_k_of,
  or_default, expand_seeds_of,
}
use pixkb.Rag.Grounding.{
  add, add_all, hit_ids, split_types, diversify, retrieve, retrieve_by, candidates, usable, pack,
  pack_one, weak, ground_on, build_grounding,
}
use pixkb.Rag.Grounding.Diverse.{IsDiverse, diversify-IsDiverse}
use pixkb.Rag.Grounding.Packed.{IsPacked, usable_chunks, pack-IsPacked}
use pixkb.Rag.Grounding.Built.{IsBuilt, build_grounding-IsBuilt, build_grounding-answers}
use pixkb.Rag.Render.{render}
use pixkb.Rag.Render.Fenced.{Fenced, blocks, render-Fenced}
use pixkb.Rag.Answer.{
  extract_json, ticks, unfenced, up_to_ticks, behind_line, object_at, synthesize,
  build_answer_prompt, no_context, reply, read_reply, settle, valid_citations, valid_from,
  chunk_keys,
}
use pixkb.Text.Search.{index_byte}
use pixkb.Rag.Answer.Object.{IsBalanced, IsString, extract_json-object}
use pixkb.Rag.Answer.Content.{IsContent}
use pixkb.Rag.Answer.Grounded.{
  IsGrounded, IsError, synthesize-cases, synthesize-IsGrounded, synthesize-errors,
}
use pixkb.Tests.Fusion.{millionths}
use pixkb.Tests.Similar.{concept}

abbrev pub bundle : ConceptSource ℕ
bundle = record { Time = ℕ; concept = λ id. ok (record (concept id) { body = codes " text\n" }) }

abbrev hit : Bytes → Bytes → Hit ℕ
hit id type = record { id = id; title = id; type = type; score = 5 }

abbrev hits : List (Hit ℕ)
hits = hit (codes "a") (codes "T") ∷ hit (codes "b") (codes "T") ∷ hit (codes "c") (codes "U") ∷ []

abbrev pub retriever : Retriever ℕ ℕ
retriever = record {
  retrieve = λ q k. ok hits;
  related = λ id. ok (codes "d" ∷ []);
  retrieve_multi = none;
  retrieve_similar = none;
}

-- two hits, whatever is asked
abbrev pub retriever_of_two : Retriever ℕ ℕ
retriever_of_two = record retriever {
  retrieve = λ q k. ok (hit (codes "a") (codes "T") ∷ hit (codes "c") (codes "U") ∷ []);
}

abbrev pub of_request : Options ℕ
of_request = record {
  top_k = pos 50;
  expand_related = false;
  max_chars = pos 0;
  multi_query = true;
  diversify = true;
  expand_seeds = pos 0;
  expand_similar = true;
  min_score = 3;
  no_pii_filter = false;
  epoch = pos 1;
}

abbrev pub options : Options ℕ
options = record {
  top_k = pos 0;
  expand_related = false;
  max_chars = pos 8;
  multi_query = true;
  diversify = true;
  expand_seeds = pos 0;
  expand_similar = true;
  min_score = 3;
  no_pii_filter = false;
  epoch = pos 1;
}

diversify-IsDiverse_example : IsDiverse hits (diversify hits)
diversify-IsDiverse_example = diversify-IsDiverse hits

pack-IsPacked_example :
    IsPacked 8
      (pack bundle 8 false 0 (codes "a" ∷ codes "b" ∷ codes "c" ∷ []))
      (usable_chunks bundle (codes "a" ∷ codes "b" ∷ codes "c" ∷ []))
pack-IsPacked_example = pack-IsPacked bundle 8 (codes "a" ∷ codes "b" ∷ codes "c" ∷ [])

abbrev chunk : Bytes → Chunk
chunk id = record {
  id = id;
  title = id;
  type = codes "ApiEndpoint";
  source_uri = [];
  body = codes "text";
}

-- the budget leaves room for two, of which the second has another type
abbrev pub grounding : Grounding
grounding = record { query = codes "q"; chunks = chunk (codes "a") ∷ chunk (codes "c") ∷ [] }

pub build_is : build_grounding millionths retriever bundle (codes "q") options ≡ ok grounding
unfolding build_grounding retrieve retrieve_by ground_on weak candidates add_all add mem hit_ids
    diversify split_types pack pack_one usable trim_space trim_left trim_right_reversed is_space1
    max_chars_of or_default top_k_of is_space2 is_space3 equal expand_seeds_of
build_is = refl

pub build_of_two_is :
    build_grounding millionths retriever_of_two bundle (codes "q") of_request ≡ ok grounding
unfolding build_grounding retrieve retrieve_by ground_on weak candidates add_all add mem hit_ids
    diversify split_types pack pack_one usable trim_space trim_left trim_right_reversed is_space1
    max_chars_of or_default top_k_of is_space2 is_space3 equal expand_seeds_of
build_of_two_is = refl

build_grounding-IsBuilt_example :
    (grounding.query ≡ codes "q") × IsBuilt bundle (max_chars_of options) grounding.chunks
build_grounding-IsBuilt_example =
    build_grounding-IsBuilt millionths retriever bundle (codes "q") options grounding build_is

-- a bundle in which nothing can be read
abbrev lost : ConceptSource ℕ
lost = record { Time = ℕ; concept = λ id. err 4 }

lost_is :
    build_grounding millionths retriever lost (codes "q") options
    ≡ ok (record { query = codes "q"; chunks = [] })
unfolding build_grounding retrieve retrieve_by ground_on weak candidates add_all add mem hit_ids
    diversify split_types pack pack_one usable max_chars_of or_default top_k_of equal
    expand_seeds_of
lost_is = refl

retrieve_is : retrieve retriever (codes "q") options ≡ ok hits
unfolding retrieve retrieve_by
retrieve_is = refl

strong : weak millionths retriever lost options (hit (codes "a") (codes "T")) ≡ false
unfolding weak
strong = refl

build_grounding-answers_example :
    All (λ x. (is_empty x.id ≡ true) ⊎ (usable x.id (lost.concept x.id) ≡ none)) hits
build_grounding-answers_example =
    build_grounding-answers millionths retriever lost (codes "q") options
      (record { query = codes "q"; chunks = [] }) (hit (codes "a") (codes "T"))
      (hit (codes "b") (codes "T") ∷ hit (codes "c") (codes "U") ∷ []) retrieve_is strong lost_is
      refl

render-Fenced_example :
    (bodies : List Bytes) × (render grounding ≡ some (blocks grounding.chunks bodies))
    × Fenced grounding.chunks bodies
render-Fenced_example = render-Fenced grounding

abbrev raw : Bytes
raw = codes "Yes: {\"a\": \"}\", \"b\": {}} done"

unfenced_is :
    unfenced (trim_space raw) (index ticks (trim_space raw))
    ≡ codes "Yes: " ++ (b'{' ∷ (codes "\"a\": \"}\", \"b\": {}" ++ (b'}' ∷ codes " done")))
unfolding unfenced trim_space trim_left trim_right_reversed is_space1 is_space2 is_space3 index
    is_prefix
unfenced_is = refl

text_a : IsString (codes "a")
text_a = IsString.char b'a' refl refl IsString.end

text_b : IsString (codes "b")
text_b = IsString.char b'b' refl refl IsString.end

text_brace : IsString (codes "}")
text_brace = IsString.char b'}' refl refl IsString.end

abbrev plain : {s : Bytes} → IsBalanced s → IsBalanced (b':' ∷ b' ' ∷ s)
plain b = IsBalanced.other b':' refl refl refl (IsBalanced.other b' ' refl refl refl b)

inside_is : IsBalanced (codes "\"a\": \"}\", \"b\": {}")
inside_is = IsBalanced.quoted text_a (
    plain (
      IsBalanced.quoted text_brace (
        IsBalanced.other b',' refl refl refl (
          IsBalanced.other b' ' refl refl refl (
            IsBalanced.quoted text_b
              (plain (IsBalanced.nested IsBalanced.empty IsBalanced.empty)))))))

-- a reply with a fence
abbrev in_fence : Bytes
in_fence = codes "Yes:\n```json\n{\"a\": \"}\", \"b\": {}}\n```\n"

fence_is : IsContent in_fence (trim_space (codes "{\"a\": \"}\", \"b\": {}}\n"))
unfolding trim_space trim_left trim_right_reversed is_space1 is_space2 is_space3
fence_is =
    IsContent.fenced (codes "Yes:\n") (codes "json") (codes "{\"a\": \"}\", \"b\": {}}\n") [] refl
      refl refl refl

body_is :
    trim_space (codes "{\"a\": \"}\", \"b\": {}}\n")
    ≡ b'{' ∷ (codes "\"a\": \"}\", \"b\": {}" ++ (b'}' ∷ []))
unfolding trim_space trim_left trim_right_reversed is_space1 is_space2 is_space3
body_is = refl

extract_json-object_example : extract_json in_fence ≡ codes "{\"a\": \"}\", \"b\": {}}"
extract_json-object_example =
    extract_json-object in_fence (trim_space (codes "{\"a\": \"}\", \"b\": {}}\n")) []
      (codes "\"a\": \"}\", \"b\": {}") [] fence_is body_is refl inside_is

-- A string of the object with a fence in it is taken for a fence.
fence_in_string : extract_json (codes "{\"a\": \"```x```\"}") ≡ codes "x"
unfolding extract_json unfenced up_to_ticks behind_line object_at trim_space trim_left
    trim_right_reversed is_space1 is_space2 is_space3 index index_byte is_prefix
fence_in_string = refl

-- the agent, whose state counts its runs, and how its reply is read
abbrev pub agent : Bytes → ℕ → Result ℕ Bytes × ℕ
agent prompt runs = (ok raw, runs + 1)

abbrev pub read : Bytes → Result ℕ Answer
read json = ok (record {
  text = codes "Yes";
  citations = codes "z" ∷ codes " a" ∷ codes "a" ∷ [];
  refused = false;
})

abbrev pub answer : Answer
answer = record { text = codes "Yes"; citations = codes "a" ∷ []; refused = false }

pub reply_is : reply agent read grounding (ok raw) ≡ ok answer
unfolding reply read_reply settle valid_citations valid_from chunk_keys mem equal trim_space
    trim_left trim_right_reversed is_space1 is_space2 is_space3
reply_is = refl

pub synthesize_is : synthesize agent read grounding 0 ≡ (ok answer, 1)
synthesize_is = elim (synthesize-cases agent read grounding 0) [
  | inl (e, s) ↦ cc e
  | inr (prompt, p, n, s) ↦ s ∙ ap (λ r. (r, 1)) reply_is
]

synthesize-IsGrounded_example : IsGrounded grounding answer
synthesize-IsGrounded_example =
    synthesize-IsGrounded agent read grounding 0 answer (ap (λ r. r.0) synthesize_is)

synthesize-errors_example :
    ((grounding.chunks ≡ []) × (synthesize agent read grounding 0 ≡ (ok no_context, 0)))
    ⊎ ((prompt : Bytes) × (build_answer_prompt grounding ≡ some prompt)
        × (grounding.chunks ≢ [])
        × ((synthesize agent read grounding 0).1 ≡ (agent prompt 0).1)
        × ((e : Error ℕ)
            → (synthesize agent read grounding 0).0 ≡ err e
            → IsError agent read prompt 0 e))
synthesize-errors_example = synthesize-errors agent read grounding 0
