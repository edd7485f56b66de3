-- ===== src/Rag/Answer/Grounded.antt =====
-- The answers that `Synthesize` gives, and its errors.
use pixkb.Base.{
  Bytes, ◌≡◌, ◌≢◌, refl, sym, ap, ◌∙◌, subst, true, false, not, ◌&&◌, List, [], ◌∷◌, All, some,
  Result, ok, err, arith, ◌⊎◌, inl, inr, Bool-cases, ok-injective, err-injective,
}
use pixkb.Text.Ascii.{equal, is_empty}
use pixkb.Text.Ascii.Equal.{equal_iff}
use pixkb.Text.Space.{trim_space}
use pixkb.Text.Members.{mem, Distinct}
use pixkb.Rag.Types.{Chunk, Grounding, Answer, Error, answerer_failed, bad_reply}
use pixkb.Rag.Grounding.Usable.{chunk_ids}
use pixkb.Rag.Render.Fenced.{render-Fenced, blocks}
use pixkb.Rag.Answer.{
  chunk_keys, valid_from, valid_citations, extract_json, prompt_around, build_answer_prompt,
  none_cited, settle, read_reply, reply, ask_agent, no_context, synthesize, synthesize_on,
}

-- an answer that a reader may trust: it cites concepts of the context only, each once, and one at
-- least unless it is a refusal, and then its text is not blank
pub record IsGrounded (g : Grounding) (a : Answer) : Type 0 where
  pub cited : All (λ id. mem id (chunk_ids g.chunks) ≡ true) a.citations
  pub apart : Distinct a.citations
  pub supported : a.refused ≡ false → none_cited a.citations ≡ false
  pub visible : a.refused ≡ false → is_empty (trim_space a.text) ≡ false

chunk_keys-eq : (cs : List Chunk) → chunk_keys cs ≡ chunk_ids cs
unfolding chunk_keys
chunk_keys-eq [] = refl
chunk_keys-eq (c ∷ cs) = ap (◌∷◌ c.id) (chunk_keys-eq cs)

valid_from-cited :
    (ctx seen cited : List Bytes) → All (λ id. mem id ctx ≡ true) (valid_from ctx seen cited)
unfolding valid_from
valid_from-cited ctx seen [] = tt
valid_from-cited ctx seen (c ∷ cited) =
    elim (Bool-cases (mem (trim_space c) ctx && not (mem (trim_space c) seen))) [
      | inl t ↦ rw t (ground (arith, t), valid_from-cited ctx (trim_space c ∷ seen) cited)
      | inr f ↦ rw f (valid_from-cited ctx seen cited)
    ]

valid_from-unseen :
    (x : Bytes) (ctx seen cited : List Bytes)
    → mem x seen ≡ true
    → mem x (valid_from ctx seen cited) ≡ false
unfolding valid_from mem
valid_from-unseen x ctx seen [] h = refl
valid_from-unseen x ctx seen (c ∷ cited) h =
    elim (Bool-cases (mem (trim_space c) ctx && not (mem (trim_space c) seen))) [
      | inr f ↦ rw f (valid_from-unseen x ctx seen cited h)
      | inl t ↦
          let rest = valid_from-unseen x ctx (trim_space c ∷ seen) cited (ground (arith, h)) in
          let other : equal (trim_space c) x ≡ false = elim (Bool-cases (equal (trim_space c) x)) [
            | inr g ↦ g
            | inl same ↦
                let q : trim_space c ≡ x = (equal_iff (trim_space c) x).0 same in
                let again : mem (trim_space c) seen ≡ true = rw q h in ground (arith, t, again)
          ] in
          rw (t, other) rest
    ]

valid_from-Distinct : (ctx seen cited : List Bytes) → Distinct (valid_from ctx seen cited)
unfolding valid_from mem
valid_from-Distinct ctx seen [] = tt
valid_from-Distinct ctx seen (c ∷ cited) =
    elim (Bool-cases (mem (trim_space c) ctx && not (mem (trim_space c) seen))) [
      | inr f ↦ rw f (valid_from-Distinct ctx seen cited)
      | inl t ↦
          let here : mem (trim_space c) (trim_space c ∷ seen) ≡ true =
            ground (arith, (equal_iff (trim_space c) (trim_space c)).1 refl) in
          rw t (
            valid_from-unseen (trim_space c) ctx (trim_space c ∷ seen) cited here,
            valid_from-Distinct ctx (trim_space c ∷ seen) cited,
          )
    ]

settle-IsGrounded :
    (g : Grounding) (a : Answer)
    → All (λ id. mem id (chunk_ids g.chunks) ≡ true) a.citations
    → Distinct a.citations
    → IsGrounded g (settle a)
unfolding settle
settle-IsGrounded g a c d = elim (Bool-cases (not a.refused && none_cited a.citations)) [
  | inl t ↦ rw t (record { cited = c; apart = d; supported = λ r. cc; visible = λ r. cc })
  | inr f ↦ elim (Bool-cases (not a.refused && is_empty (trim_space a.text))) [
    | inl u ↦ rw (f, u) (record { cited = tt; apart = tt; supported = λ r. cc; visible = λ r. cc })
    | inr v ↦
        rw (f, v)
          (record {
            cited = c;
            apart = d;
            supported = λ r. ground (arith, f, r);
            visible = λ r. ground (arith, v, r);
          })
  ]
]

build_answer_prompt-eq-some :
    (g : Grounding)
    → (bodies : List Bytes) × (build_answer_prompt g
        ≡ some (prompt_around g (blocks g.chunks bodies)))
unfolding build_answer_prompt
build_answer_prompt-eq-some g = let (bodies, e, unused) = render-Fenced g in (bodies, rw e refl)

module _ {Failure World : Type 0} (generate : Bytes → World → Result Failure Bytes × World)
    (unmarshal : Bytes → Result Failure Answer) where
  -- What an error says: the agent failed, or its reply could not be read.
  pub data IsError (prompt : Bytes) (w : World) : Error Failure → Type 0 where
    agent : (f : Failure) → (generate prompt w).0 ≡ err f → IsError prompt w (answerer_failed f)
    reading :
        (raw : Bytes) (f : Failure)
        → (generate prompt w).0 ≡ ok raw
        → unmarshal (extract_json raw) ≡ err f
        → IsError prompt w (bad_reply raw f)

  read_reply-IsGrounded :
      (g : Grounding) (raw : Bytes) (r : Result Failure Answer) (a : Answer)
      → read_reply generate unmarshal g raw r ≡ ok a
      → IsGrounded g a
  unfolding read_reply valid_citations
  read_reply-IsGrounded g raw (err e) a h = cc
  read_reply-IsGrounded g raw (ok x) a h = subst (IsGrounded g) (ok-injective h) (
      settle-IsGrounded g (record x { citations = valid_citations x.citations g })
        (subst (λ ctx. All (λ id. mem id ctx ≡ true) (valid_citations x.citations g))
          (chunk_keys-eq g.chunks) (valid_from-cited (chunk_keys g.chunks) [] x.citations))
        (valid_from-Distinct (chunk_keys g.chunks) [] x.citations))

  reply-IsGrounded :
      (g : Grounding) (r : Result Failure Bytes) (a : Answer)
      → reply generate unmarshal g r ≡ ok a
      → IsGrounded g a
  unfolding reply
  reply-IsGrounded g (err e) a h = cc
  reply-IsGrounded g (ok raw) a h = read_reply-IsGrounded g raw (unmarshal (extract_json raw)) a h

  on_list :
      (g : Grounding) (w : World) (cs : List Chunk) (prompt : Bytes)
      → build_answer_prompt g ≡ some prompt
      → ((cs ≡ []) × (synthesize_on generate unmarshal g cs w ≡ (ok no_context, w)))
        ⊎ ((cs ≢ [])
            × (synthesize_on generate unmarshal g cs w
                ≡ (reply generate unmarshal g (generate prompt w).0, (generate prompt w).1)))
  unfolding synthesize_on ask_agent
  on_list g w [] prompt p = inl (refl, refl)
  on_list g w (c ∷ cs) prompt p = inr (λ n. cc n, rw p refl)

  -- What `Synthesize` comes to: the refusal without context, or what is made of the agent's reply.
  pub synthesize-cases :
      (g : Grounding) (w : World)
      → ((g.chunks ≡ []) × (synthesize generate unmarshal g w ≡ (ok no_context, w)))
        ⊎ ((prompt : Bytes) × (build_answer_prompt g ≡ some prompt)
            × (g.chunks ≢ [])
            × (synthesize generate unmarshal g w
                ≡ (reply generate unmarshal g (generate prompt w).0, (generate prompt w).1)))
  unfolding synthesize
  synthesize-cases g w =
      let (bodies, p) = build_answer_prompt-eq-some g in
      elim (on_list g w g.chunks (prompt_around g (blocks g.chunks bodies)) p) [
        | inl (e, s) ↦ inl (e, s)
        | inr (n, s) ↦ inr (prompt_around g (blocks g.chunks bodies), p, n, s)
      ]

  -- Whatever the agent replies and however the reply is read, an answer that `Synthesize` gives cites
  -- ids of the grounding only, each once, and unless it is a refusal it cites one at least and its
  -- text is not blank.
  pub synthesize-IsGrounded :
      (g : Grounding) (w : World) (a : Answer)
      → (synthesize generate unmarshal g w).0 ≡ ok a
      → IsGrounded g a
  synthesize-IsGrounded g w a h = elim (synthesize-cases g w) [
    | inl (e, s) ↦
        subst (IsGrounded g) (ok-injective (rw s at h))
          (record { cited = tt; apart = tt; supported = λ r. cc; visible = λ r. cc })
    | inr (prompt, p, n, s) ↦ reply-IsGrounded g (generate prompt w).0 a (rw s at h)
  ]

  read_reply-error :
      (g : Grounding) (prompt raw : Bytes) (w : World) (r : Result Failure Answer)
      (e : Error Failure)
      → (generate prompt w).0 ≡ ok raw
      → unmarshal (extract_json raw) ≡ r
      → read_reply generate unmarshal g raw r ≡ err e
      → IsError prompt w e
  unfolding read_reply
  read_reply-error g prompt raw w (ok a) e q u h = cc
  read_reply-error g prompt raw w (err f) e q u h =
      subst (IsError prompt w) (err-injective h) (reading raw f q u)

  reply-error :
      (g : Grounding) (prompt : Bytes) (w : World) (r : Result Failure Bytes) (e : Error Failure)
      → (generate prompt w).0 ≡ r
      → reply generate unmarshal g r ≡ err e
      → IsError prompt w e
  unfolding reply
  reply-error g prompt w (err f) e q h = subst (IsError prompt w) (err-injective h) (agent f q)
  reply-error g prompt w (ok raw) e q h =
      read_reply-error g prompt raw w (unmarshal (extract_json raw)) e q refl h

  -- Without context `Synthesize` does not run the agent and refuses; with context it runs the agent
  -- once, on the prompt, which can always be built, and its errors are that the agent fails or that
  -- the reply cannot be read.
  pub synthesize-errors :
      (g : Grounding) (w : World)
      → ((g.chunks ≡ []) × (synthesize generate unmarshal g w ≡ (ok no_context, w)))
        ⊎ ((prompt : Bytes) × (build_answer_prompt g ≡ some prompt)
            × (g.chunks ≢ [])
            × ((synthesize generate unmarshal g w).1 ≡ (generate prompt w).1)
            × ((e : Error Failure)
                → (synthesize generate unmarshal g w).0 ≡ err e
                → IsError prompt w e))
  synthesize-errors g w = elim (synthesize-cases g w) [
    | inl r ↦ inl r
    | inr (prompt, p, n, s) ↦ inr (
      prompt,
      p,
      n,
      ap (λ r. r.1) s,
      λ e h. reply-error g prompt w (generate prompt w).0 e refl (sym (ap (λ r. r.0) s) ∙ h),
    )
  ]
