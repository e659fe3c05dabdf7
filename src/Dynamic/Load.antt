-- ===== src/Dynamic/Load.antt =====
-- `load_fragments` and `upgrade_stub_to_body` of crates/caw-orchestrator/src/dynamic.rs, and the
-- operations that change the workspace without a retrieval.
pub mod Invariant
pub mod Upgrade
pub mod Admission
pub mod Whole
pub mod Steps
pub mod Coverage
pub mod Tests
use opencaw.Prelude.{
  ℕ, ◌+◌, ◌-◌, ◌*◌, Bool, not, ◌&&◌, String, Option, none, some, List, [], ◌∷◌, ◌++◌, ltb, leb,
  if◌then◌else◌, length, filter_b, any_b, str_eq, StrSet, StrMap, no_keys, add_key, no_entries,
  put_entry, entry_or,
}
use opencaw.Prelude.Float.{Float}
use opencaw.Core.{CawError, CawResult, ok, err, RecallFragment, total_tokens}
use opencaw.Text.{newline}
use opencaw.Text.Format.{decimal, take_chars}
use opencaw.Dynamic.{
  LoadMode, stub, full, Orchestrator, Services, Fetched, fetched, skipped, failed, fetch,
  is_history,
}

pub truncate_body : Services → ℕ → RecallFragment → RecallFragment
unfolding take_chars
truncate_body sv max_inline body =
    let remaining = body.tokens - max_inline in
    let content =
      take_chars (max_inline * 3) body.content
      ++ (newline ∷ sv.bytes "[")
      ++ decimal remaining
      ++ sv.bytes " tokens not shown. To read a specific range: `"
      ++ sv.bytes body.locator.source
      ++ sv.bytes ":start-end`]" in
    if ltb max_inline body.tokens
    then record body { content = content; tokens = sv.count_tokens content }
    else body

-- `iter().find(|f| f.stub_id == id).map(|f| f.tokens).unwrap_or(0)`
pub tokens_of : String → List RecallFragment → ℕ
tokens_of id [] = 0
tokens_of id (f ∷ fs) =
    let later = tokens_of id fs in if str_eq f.stub_id id then f.tokens else later

-- The first fragment with the id is replaced.
pub replace_first : String → RecallFragment → List RecallFragment → List RecallFragment
replace_first id body [] = []
replace_first id body (f ∷ fs) =
    let later = replace_first id body fs in if str_eq f.stub_id id then body ∷ fs else f ∷ later

unfoldable pub is_stub_of : String → RecallFragment → Bool
is_stub_of id f = str_eq f.stub_id id && str_eq f.locator.locator "stub"

-- The locals of `load_fragments` that its loop changes.
pub record Loading (F : Type 0) : Type 0 where
  pub self : Orchestrator F
  pub history_tokens : ℕ

-- How one round of the loop ends.
pub data Round (F : Type 0) : Type 0 where
  continues breaks : Loading F → Round F
  returns : CawError → Loading F → Round F

module _ {F : Type 0} ⦃fl : Float F⦄ where
  -- `f32::max`, which returns the other operand if one is NaN.
  abbrev pub max_float : F → F → F
  max_float a b = if fl.le b a then a else if fl.le a b then b else if fl.le a a then a else b

  abbrev pub pinned : F → F → Option F → F
  pinned floor effective entry =
      if fl.lt (entry_or effective entry) floor then effective else entry_or effective entry

  pub place_body : Orchestrator F → String → RecallFragment → F → Orchestrator F
  unfolding tokens_of replace_first
  place_body self id body admitted_score =
      let floor = fl.add self.config.thresholds.unload fl.epsilon in
      let effective = max_float admitted_score floor in
      let tokens_after = total_tokens self.loaded - tokens_of id self.loaded + body.tokens in
      if ltb self.config.max_workspace_tokens tokens_after then self else record self {
        loaded = replace_first id body self.loaded;
        relevance_scores =
            put_entry id (pinned floor effective (self.relevance_scores id)) self.relevance_scores;
      }

  -- It never returns an error.
  pub upgrade_stub_to_body : Services → String → String → F → Orchestrator F → Orchestrator F
  unfolding place_body truncate_body
  upgrade_stub_to_body sv id range admitted_score self = elim (sv.read_range id range) [
    | ok body ↦
        place_body self id (truncate_body sv self.config.max_inline_body_tokens body) admitted_score
    | err e ↦ self
  ]

  abbrev pub refreshed : F → Option F → Option F
  refreshed score none = none
  refreshed score (some current) = if fl.lt current score then some score else some current

  abbrev pub set_entry : String → Option F → StrMap F → StrMap F
  set_entry id none scores = scores
  set_entry id (some score) scores = put_entry id score scores

  -- A hit whose fragment is in the workspace.
  pub reload : Services → LoadMode → String → F → Orchestrator F → Orchestrator F
  unfolding upgrade_stub_to_body is_stub_of
  reload sv mode id score self =
      let fresh = record self {
        relevance_scores =
            set_entry id (refreshed score (self.relevance_scores id)) self.relevance_scores;
      } in
      elim mode [
        | stub ↦ fresh
        | full ↦
            if any_b (is_stub_of id) self.loaded
            then upgrade_stub_to_body sv id "full" score fresh
            else fresh
      ]

  abbrev pub count_of : Orchestrator F → String → ℕ
  count_of self source = entry_or 0 (self.loaded_source_counts source)

  abbrev pub source_is_full : Orchestrator F → RecallFragment → Bool
  source_is_full self f =
      not (is_history f)
      && not (self.cap_exempt_sources f.locator.source)
      && leb self.config.max_chunks_per_source (count_of self f.locator.source)

  unfoldable pub admit : String → F → RecallFragment → Loading F → Loading F
  admit id score f l =
      let self = l.self in
      let source = f.locator.source in
      record {
        self = record self {
          relevance_scores = put_entry id score self.relevance_scores;
          loaded_ids = add_key id self.loaded_ids;
          loaded_source_counts =
              if is_history f
              then self.loaded_source_counts
              else put_entry source (count_of self source + 1) self.loaded_source_counts;
          loaded = self.loaded ++ (f ∷ []);
          provenance = self.provenance ++ (f ∷ []);
          recalls = self.recalls ++ ((id, score, f.tokens) ∷ []);
        };
        history_tokens = if is_history f then l.history_tokens + f.tokens else l.history_tokens;
      }

  pub admit_if_fits : String → F → RecallFragment → Loading F → Loading F
  unfolding admit
  admit_if_fits id score f l =
      if source_is_full l.self f
      then l
      else if leb (total_tokens l.self.loaded + f.tokens) l.self.config.max_workspace_tokens
      then admit id score f l
      else l

  admit_fetched : String → F → Fetched → Loading F → Round F
  unfolding admit_if_fits
  admit_fetched id score (fetched f) l = continues (admit_if_fits id score f l)
  admit_fetched id score skipped l = continues l
  admit_fetched id score (failed e) l = returns e l

  pub load_round : Services → ℕ → LoadMode → String → F → Loading F → Round F
  unfolding reload admit_fetched
  load_round sv history_budget mode id score l =
      let self = l.self in
      if self.loaded_ids id
      then continues (record l { self = reload sv mode id score self })
      else if leb self.config.max_loaded_fragments (length self.loaded)
      then breaks l
      else if fl.lt score self.config.thresholds.load
      then continues l
      else if leb self.config.max_workspace_tokens (total_tokens self.loaded)
      then breaks l
      else admit_fetched id score
          (fetch sv history_budget l.history_tokens mode id (self.session_content id)) l

  pub load_loop :
      Services → ℕ → LoadMode → List (String × F) → Loading F → CawResult {0} Unit × Orchestrator F
  load_loop sv history_budget mode [] l = (ok tt, l.self)
  load_loop sv history_budget mode ((id, score) ∷ hits) l =
      elim (load_round sv history_budget mode id score l) [
        | continues next ↦ load_loop sv history_budget mode hits next
        | breaks next ↦ (ok tt, next.self)
        | returns e next ↦ (err e, next.self)
      ]

  pub load_fragments :
      Services → List (String × F) → LoadMode → Orchestrator F → CawResult {0} Unit × Orchestrator F
  load_fragments sv hits mode self =
      let history_budget = fl.to_ℕ (
        fl.mul (fl.of_ℕ self.config.max_workspace_tokens)
          self.config.session_history_budget_fraction) in
      load_loop sv history_budget mode hits
        (record { self = self; history_tokens = total_tokens (filter_b is_history self.loaded) })

  pub decay_relevance_scores : Orchestrator F → Orchestrator F
  decay_relevance_scores self = record self {
    relevance_scores = λ id. elim (self.relevance_scores id) [
      | none ↦ none
      | some score ↦ some (fl.mul score self.config.relevance_decay_rate)
    ];
  }

-- `provenance` is a new ledger.
pub reset_session : {F : Type 0} → Orchestrator F → Orchestrator F
reset_session self = record self {
  loaded = [];
  loaded_ids = no_keys;
  loaded_source_counts = no_entries;
  cap_exempt_sources = no_keys;
  relevance_scores = no_entries;
  provenance = [];
  consolidations = [];
}

-- `coverage_first_order`: each source's first hit, then the rest, both in their order.
module _ {T : Type 0} (source_of : T → String) where
  pub split_seen : StrSet → List T → List T × List T
  split_seen seen [] = ([], [])
  split_seen seen (hit ∷ hits) =
      let (first, rest) = split_seen (add_key (source_of hit) seen) hits in
      if seen (source_of hit) then (first, hit ∷ rest) else (hit ∷ first, rest)

  pub coverage_first_order : List T → List T
  unfolding split_seen
  coverage_first_order hits = let (first, rest) = split_seen no_keys hits in first ++ rest
