-- ===== src/Tests/KbAsk.antt =====
-- A server on the bundle with two concepts, whose hash is the text itself.
use pixkb.Base.{Bytes, codes, ℕ, ◌≡◌, refl, ap, ◌∙◌, false, true, some, ok}
use pixkb.Text.Number.{pos}
use pixkb.Text.Ascii.{is_digit}
use pixkb.Text.Number.Decimal.{format_int}
use pixkb.Rag.Types.{Answer, Options, Retriever}
use pixkb.Rag.Grounding.{build_grounding}
use pixkb.Rag.Cache.{LruCache, new_lru_cache, get, get_at, item}
use pixkb.Rag.Cache.Entries.{entries}
use pixkb.Rag.Cache.Reachable.{IsReachable, started}
use pixkb.Rag.Key.{normalized}
use pixkb.Text.Number.Decimal.{format_int, format_int-has_byte, format_int-injective}
use pixkb.Rag.Key.Scope.{SameOptions, cache_key_for-SameOptions}
use pixkb.Rag.Pii.{Patterns, redact_pii}
use pixkb.Rag.Ask.{State, Env, ask, ask_with, ask_on, ask_found, ask_fresh, keep}
use pixkb.Rag.Ask.Cached.{IsClean, ask_on_on, filtered_on}
use pixkb.Rag.Ask.Private.{IsPrivate, ask-IsPrivate}
use pixkb.Rag.Ask.Again.{ask-again}
use pixkb.Kbmcp.Ask.{AskIn, AskOut, Deps, kb_ask, options_of, clamp_int, citations_out}
use pixkb.Kbmcp.Ask.Guarded.{kb_ask-IsPrivate}
use pixkb.Kbmcp.Ask.Types.{kb_ask-any_type, with_type, kb_ask-eq, asked, ask_out-of}
use pixkb.Tests.Fusion.{millionths}
use pixkb.Tests.Answers.{
  bundle, retriever, retriever_of_two, options, of_request, build_of_two_is, grounding, build_is,
  agent, read, answer, synthesize_is,
}

abbrev patterns : Patterns
patterns = record {
  cnpj_formatted = λ s r. s;
  cpf_formatted = λ s r. s;
  cnpj_bare = λ s r. s;
  cpf_bare = λ s r. s;
  phone = λ s r. s;
  email = λ s r. s;
}

abbrev format_score : ℕ → Bytes
format_score n = format_int (pos n)

abbrev env : Env ℕ ℕ ℕ
env = record {
  generate = agent;
  unmarshal = read;
  patterns = patterns;
  to_lower = λ s. s;
  hash = λ s. s;
  format_score = λ n. codes "5";
}

-- a score in hundredths
abbrev decimal : ℕ → Bytes
decimal n = format_int (pos n)

cache_key_for-SameOptions_example :
    (normalized (λ s. s) (λ s. s) (codes "a|b") ≡ normalized (λ s. s) (λ s. s) (codes "a|b"))
    × SameOptions options options
unfolding is_digit
cache_key_for-SameOptions_example =
    cache_key_for-SameOptions decimal (λ s. s) (λ s. s) (codes "a|b") (codes "a|b") options options
      (λ s t e. e) (λ n. format_int-has_byte b'|' (pos n) refl refl)
      (λ m n e. cc (format_int-injective (pos m) (pos n) e)) refl

abbrev empty : LruCache Answer
empty = new_lru_cache (pos 2)

empty-IsReachable : IsReachable empty
empty-IsReachable = started (pos 2)

abbrev state : State ℕ
state = record { cache = some empty; world = 0 }

empty-IsClean : IsClean patterns (some empty)
unfolding new_lru_cache entries
empty-IsClean = (started (pos 2), tt)

ask-IsPrivate_example :
    IsPrivate env options
      (some empty)
      (ask millionths env retriever bundle (codes "q") options state)
ask-IsPrivate_example =
    ask-IsPrivate millionths env retriever bundle (codes "q") options state empty-IsClean

fresh_is :
    (opts : Options ℕ)
    → opts.no_pii_filter ≡ false
    → (ask_on env (codes "q") opts grounding (some empty) 0).0.answer ≡ ok answer
unfolding ask_found ask_fresh keep redact_pii get get_at item new_lru_cache
fresh_is opts f =
    ap (λ o. o.0.answer) (ask_on_on env (codes "q") opts grounding empty 0 f)
    ∙ ap (λ r. (keep env (codes "q") opts grounding (some empty) r).0.answer) synthesize_is
    ∙ ap ok (filtered_on env opts answer f)

ask_is :
    (r : Retriever ℕ ℕ) (opts : Options ℕ)
    → opts.no_pii_filter ≡ false
    → build_grounding millionths r bundle (codes "q") opts ≡ ok grounding
    → (ask millionths env r bundle (codes "q") opts state).0.answer ≡ ok answer
unfolding ask ask_with
ask_is r opts f g = rw g (fresh_is opts f)

ask-again_example :
    let s = (ask millionths env retriever bundle (codes "q") options state).1 in
    ((ask millionths env retriever bundle (codes "q") options s).0.answer ≡ ok answer)
    × ((ask millionths env retriever bundle (codes "q") options s).1.world ≡ s.world)
ask-again_example =
    ask-again millionths env retriever retriever bundle bundle (codes "q") options empty 0 answer
      grounding refl empty-IsReachable (ask_is retriever options refl build_is) build_is

abbrev deps : Deps millionths ℕ ℕ
deps = record {
  Time = ℕ;
  env = env;
  retriever = λ f. retriever_of_two;
  concepts = bundle;
  latest_epoch = λ w. ok (pos 1);
  is_rate_limited = λ e. false;
  allow_pii_bypass = false;
}

abbrev request : AskIn ℕ
request = record {
  question = codes "q";
  type = codes "T";
  top_k = pos 70;
  expand = false;
  multi = true;
  diversify = true;
  expand_seeds = pos 0;
  expand_similar = true;
  min_score = 3;
  no_pii_filter = false;
  no_cache = false;
}

abbrev unfiltered : AskIn ℕ
unfiltered = record request { no_pii_filter = true }

kb_ask-IsPrivate_example :
    IsClean patterns (some (kb_ask millionths deps unfiltered empty 0).1)
    × ((out : AskOut)
        → (kb_ask millionths deps unfiltered empty 0).0 ≡ ok out
        → (t : Bytes) × (out.answer ≡ redact_pii patterns t))
kb_ask-IsPrivate_example = kb_ask-IsPrivate millionths deps unfiltered empty 0 refl empty-IsClean

-- the answer to the first request
abbrev out : AskOut
out = record {
  answer = codes "Yes";
  refused = false;
  citations =
      citations_out (asked millionths deps request (pos 1) empty 0).0.grounding answer.citations;
}

request_is : (kb_ask millionths deps request empty 0).0 ≡ ok out
unfolding options_of clamp_int
request_is =
    ap (λ o. o.0) (kb_ask-eq millionths deps request empty 0 (pos 1) refl refl)
    ∙ ask_out-of millionths deps (asked millionths deps request (pos 1) empty 0).0 answer
        (ask_is retriever_of_two of_request refl build_of_two_is)

kb_ask-any_type_example :
    let r = kb_ask millionths deps request empty 0 in
    let again = kb_ask millionths deps (with_type millionths deps (codes "U") request) r.1 r.2 in
    (o : AskOut) × (again.0 ≡ ok o)
    × (o.answer ≡ out.answer)
    × (o.refused ≡ out.refused)
    × (again.2 ≡ r.2)
unfolding options_of clamp_int
kb_ask-any_type_example =
    kb_ask-any_type millionths deps request (codes "U") empty
      (kb_ask millionths deps request empty 0).1 0 (kb_ask millionths deps request empty 0).2
      (pos 1) out grounding empty-IsReachable refl refl refl
      (ap
        (λ x. (
          x,
          (kb_ask millionths deps request empty 0).1,
          (kb_ask millionths deps request empty 0).2,
        ))
        request_is)
      refl build_of_two_is
