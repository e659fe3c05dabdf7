-- ===== src/Dynamic/Turn/Models.antt =====
-- The data of a turn: crates/caw-core/src/lib.rs, and what a turn calls. The embedding provider, the
-- index, the model, the file of the session, regular expressions, and the tables of Unicode are
-- parameters. A retriever answers a query in the same way during a turn.
use opencaw.Prelude.{ℕ, Bool, Option, String, List}
use opencaw.Core.{Text, CawResult, RecallFragment}
use opencaw.Degradation.{DegradationMonitor}
use opencaw.Dynamic.{Orchestrator, Services}
use opencaw.Dynamic.Evict.{Consolidator}

pub data ContentKind : Type 0 where
  markdown code plain_text tabular transcript other : ContentKind

-- The fields of `Stub` that a turn reads.
pub record Stub : Type 0 where
  pub id : String
  pub path : String
  pub token_estimate : ℕ
  pub kind : ContentKind
  pub summary : Text

pub record ScoredStub (F : Type 0) : Type 0 where
  pub stub : Stub
  pub score : F

pub record LineReference : Type 0 where
  pub source_hint : Text
  pub start : ℕ
  pub end : ℕ

pub record ModelAnnotation : Type 0 where
  pub stub_id : String
  pub content : Text

pub record ModelCapabilities : Type 0 where
  pub supports_visible_reasoning : Bool
  pub supports_passive_injection : Bool

pub record CompletionRequest : Type 0 where
  pub system : Text
  pub user : Text
  pub workspace_fragments : List RecallFragment
  pub workspace_guidance : List Text

-- `usage` is input and output tokens.
pub record CompletionResponse : Type 0 where
  pub answer : Text
  pub thinking : Option Text
  pub usage : Option (ℕ × ℕ)

-- A generation that shows its window of tokens and is told what to inject: `generate_passive`.
pub data Generation : Type 0 where
  finished : CawResult CompletionResponse → Generation
  shows : Text → (CawResult (Option Text) → Generation) → Generation

-- What changes in a turn. `index` is the points of the vector index, `calls` how often the model was
-- asked; the last three are what the evaluator, if there is one, is told.
pub record Turn (F : Type 0) : Type 0 where
  pub self : Orchestrator F
  pub degradation_monitor : Option (DegradationMonitor F)
  pub index : List (String × List F)
  pub session_turn : ℕ
  pub calls : ℕ
  pub told_probes : List (Text × Bool)
  pub told_annotations : List (String × Text)
  pub told_turns : List ℕ

pub record Models (F : Type 0) : Type 0 where
  pub services : Services
  pub consolidator : Consolidator F
  -- `bytes` the other way
  pub text_of : Text → String
  pub search : Text → ℕ → CawResult (List (ScoredStub F))
  -- the milliseconds that it takes, and the embeddings
  pub embed_query : Text → ℕ × CawResult (List (List F))
  pub embed_document : Text → CawResult (List (List F))
  pub search_index : List (String × List F) → List F → ℕ → List (String × F)
  -- whether the debug lines are evaluated, in a build where a subtraction below 0 panics
  pub checks_debug_lines : Bool
  -- the time of the probe when this many were recorded before
  pub clock : ℕ → ℕ
  -- what the model says when it is asked for the n-th time
  pub complete : ℕ → CompletionRequest → CawResult CompletionResponse
  pub generate_passive : ℕ → CompletionRequest → Generation
  pub capabilities : ModelCapabilities
  pub model_name : String
  -- `build_system_prompt`
  pub system_prompt : Text → Text
  pub format_overlap_warnings : List RecallFragment → Text
  -- the captures of the regular expressions
  pub extract_probes : Text → List Text
  pub extract_thinking_steps : Text → List Text
  pub extract_line_references : Text → List LineReference
  pub extract_annotations : Text → List ModelAnnotation
  pub count_fake_recall_markers : Text → ℕ
  pub strip_markers : Text → Text
  -- `to_lowercase`, `split(|c| !c.is_alphanumeric())` and `split_whitespace().count()`
  pub to_lowercase : Text → Text
  pub split_terms : Text → List Text
  pub count_words : Text → ℕ
  -- `write_turn` and `write_degenerate_turn`, if a session file is there: its path, and whether the
  -- text could be written
  pub session_path : Option Text
  pub append_to_session : Text → CawResult {0} Unit
