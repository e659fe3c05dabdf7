-- ===== src/Curation/Compressed.antt =====
-- What the loop over the retained turns makes of their outputs.
use mathlib.Core.List.{append_assoc, append-nil}
use opencaw.Prelude.{
  ℕ, ◌+◌, ◌-◌, ◌≡◌, ◌∙◌, ◌⊎◌, inl, inr, refl, sym, ap, Bool, true, false, not, ◌&&◌, Option, none,
  some, List, [], ◌∷◌, ◌++◌, arith, sum_of, Bool-cases, String,
}
use opencaw.Prelude.Float.{Float}
use opencaw.Core.{CawResult, ok, err, ◌>>=◌}
use opencaw.Curation.{
  TurnRole, user, assistant, system, tool, ConversationTurn, CompressedToolOutput, CurationPipeline,
  Compressing, is_tool_output, name_of, add_output, compress_turn, compress_loop,
}

abbrev pub saving : CompressedToolOutput → ℕ
saving o = o.original_tokens - o.summary_tokens

pub bind_ok :
    {A B : Type 0}
    → (r : CawResult A) (f : A → CawResult B) (b : B) → r >>= f ≡ ok b
    → (a : A) × (r ≡ ok a) × (f a ≡ ok b)
bind_ok (ok a) f b h = (a, refl, h)
bind_ok (err e) f b h = absurd (ground arith)

abbrev pub value_or : {A : Type 0} → A → CawResult A → A
value_or a (ok b) = b
value_or a (err e) = a

-- A turn of a tool that need not be shown inline.
abbrev pub IsCompressible : ConversationTurn → Type 0
IsCompressible turn = (turn.role ≡ tool) × (turn.metadata.inline_required ≡ false)

-- The name by which a tool's output is compressed.
abbrev pub IsName : Option String → String → Type 0
IsName given name = (given ≡ some name) ⊎ ((given ≡ none) × (name ≡ "unknown"))

name_of-IsName : (given : Option String) → IsName given (name_of given)
name_of-IsName none = inr (refl, refl)
name_of-IsName (some name) = inl refl

compressible : ConversationTurn → Bool
compressible turn = is_tool_output turn && not turn.metadata.inline_required

abbrev tool_role : TurnRole → Bool
tool_role role = elim role [ tool ↦ true | _ ↦ false ]

tool_role_only : (role : TurnRole) → tool_role role ≡ true → role ≡ tool
tool_role_only tool h = refl
tool_role_only user h = ground arith
tool_role_only assistant h = ground arith
tool_role_only system h = ground arith

compressible-IsCompressible :
    (turn : ConversationTurn) → compressible turn ≡ true → IsCompressible turn
unfolding compressible
compressible-IsCompressible turn h = elim (Bool-cases (is_tool_output turn)) [
  | inl e ↦ (tool_role_only turn.role e, ground arith)
  | inr e ↦ absurd (ground arith)
]

compressible_refused : (turn : ConversationTurn) → compressible turn ≡ false → ¬ IsCompressible turn
unfolding compressible
compressible_refused turn h (r, inline) =
    let e : is_tool_output turn ≡ true = ap tool_role r in ground arith

module _ {F : Type 0} ⦃fl : Float F⦄ (self : CurationPipeline F) where
  -- What the compressor says of a turn.
  abbrev pub Says : ConversationTurn → Option CompressedToolOutput → Type 0
  Says turn o =
      (name : String) × IsName turn.metadata.tool_name name
      × (self.compress name turn.content turn.token_estimate ≡ ok o)

  -- What the compressor makes of the turns, in their order.
  unfoldable pub IsCompressed : List ConversationTurn → List CompressedToolOutput → Type 0
  IsCompressed [] outs = outs ≡ []
  IsCompressed (turn ∷ turns) outs =
      ((¬ IsCompressible turn) × IsCompressed turns outs)
      ⊎ (IsCompressible turn × Says turn none × IsCompressed turns outs)
      ⊎ ((o : CompressedToolOutput) × (rest : List CompressedToolOutput) × IsCompressible turn
          × Says turn (some o)
          × (outs ≡ o ∷ rest)
          × IsCompressed turns rest)

  pub record IsLooped (turns : List ConversationTurn) (before after : Compressing) : Type 0 where
    pub outs : List CompressedToolOutput
    pub outputs : after.outputs ≡ before.outputs ++ outs
    pub saved : after.tokens_saved ≡ before.tokens_saved + sum_of saving outs
    pub each : IsCompressed turns outs

  loop_none :
      (turn : ConversationTurn) (turns : List ConversationTurn) (before after : Compressing)
      → ((¬ IsCompressible turn) ⊎ (IsCompressible turn × Says turn none))
      → IsLooped turns before after
      → IsLooped (turn ∷ turns) before after
  unfolding IsCompressed
  loop_none turn turns before after (inl e) h = record {
    outs = h.outs;
    outputs = h.outputs;
    saved = h.saved;
    each = inl (e, h.each);
  }
  loop_none turn turns before after (inr (e, c)) h = record {
    outs = h.outs;
    outputs = h.outputs;
    saved = h.saved;
    each = inr (inl (e, c, h.each));
  }

  loop_some :
      (turn : ConversationTurn) (turns : List ConversationTurn) (before after : Compressing)
      (o : CompressedToolOutput)
      → IsCompressible turn
      → Says turn (some o)
      → IsLooped turns (add_output before (some o)) after
      → IsLooped (turn ∷ turns) before after
  unfolding IsCompressed
  loop_some turn turns before after o e c h = record {
    outs = o ∷ h.outs;
    outputs = h.outputs ∙ append_assoc before.outputs (o ∷ []) h.outs;
    saved = h.saved ∙ omega arith;
    each = inr (inr (o, h.outs, e, c, refl, h.each));
  }

  loop_either :
      (turn : ConversationTurn) (turns : List ConversationTurn) (before after : Compressing)
      (o : Option CompressedToolOutput)
      → IsCompressible turn
      → Says turn o
      → IsLooped turns (add_output before o) after
      → IsLooped (turn ∷ turns) before after
  loop_either turn turns before after none e c h = loop_none turn turns before after (inr (e, c)) h
  loop_either turn turns before after (some o) e c h = loop_some turn turns before after o e c h

  abbrev said : ConversationTurn → CawResult (Option CompressedToolOutput)
  said turn = self.compress (name_of turn.metadata.tool_name) turn.content turn.token_estimate

  pub compress_loop-IsLooped :
      (turns : List ConversationTurn) (before after : Compressing)
      → compress_loop self turns before ≡ ok after
      → IsLooped turns before after
  unfolding compress_loop compress_turn IsCompressed compressible
  compress_loop-IsLooped [] before after h =
      let same : before ≡ after = ground arith in
      record {
        outs = [];
        outputs = ap (λ c. c.outputs) (sym same) ∙ sym (append-nil before.outputs);
        saved = ap (λ c. c.tokens_saved) (sym same) ∙ omega arith;
        each = refl;
      }
  compress_loop-IsLooped (turn ∷ turns) before after h = elim (Bool-cases (compressible turn)) [
    | inl e ↦
        let (next, first, later) =
          bind_ok (said turn >>= λ o. ok (add_output before o)) (λ c. compress_loop self turns c)
            after (rw e at h) in
        let (o, c, added) = bind_ok (said turn) (λ o. ok (add_output before o)) next first in
        let same : next ≡ add_output before o = ground arith in
        loop_either turn turns before after o (compressible-IsCompressible turn e)
          (name_of turn.metadata.tool_name, name_of-IsName turn.metadata.tool_name, c)
          (compress_loop-IsLooped turns (add_output before o) after (rw same at later))
    | inr e ↦
        loop_none turn turns before after (inl (compressible_refused turn e))
          (compress_loop-IsLooped turns before after (rw e at h))
  ]
