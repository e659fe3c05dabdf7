-- ===== src/Core.antt =====
-- The data that the crates share: crates/caw-core/src/lib.rs. Ids, paths and locators are only ever
-- compared, so they are native texts; content that the code walks is its list of bytes.
use opencaw.Prelude.{
  ℕ, ◌≡◌, refl, ◌⊎◌, inl, inr, ◌+◌, ◌-◌, String, List, Bool, any_b, str_eq, sum_of,
}

-- The bytes of a text in UTF-8.
abbrev pub Text : Type 0
Text = List ℕ

-- `CawError`.
pub data CawError : Type 0 where
  not_found invalid_input embedding vector_store io : String → CawError
  stale_stub : String → CawError
  degenerate_output : String → String → CawError
  external : String → CawError

-- `CawResult<A>`.
pub data CawResult {ℓ} (A : Type ℓ) : Type ℓ where
  ok : A → CawResult A
  err : CawError → CawResult A

pub CawResult-cases {ℓ} :
    {A : Type ℓ} (r : CawResult A) → ((a : A) × (r ≡ ok a)) ⊎ ((e : CawError) × (r ≡ err e))
CawResult-cases (ok a) = inl (a, refl)
CawResult-cases (err e) = inr (e, refl)

infixl 5 ◌>>=◌
abbrev pub ◌>>=◌ {ℓ κ} : {A : Type ℓ} {B : Type κ} → CawResult A → (A → CawResult B) → CawResult B
ok a >>= f = f a
err e >>= f = err e

pub record Locator : Type 0 where
  pub source : String
  pub locator : String

pub record RecallFragment : Type 0 where
  pub stub_id : String
  pub content : Text
  pub locator : Locator
  pub tokens : ℕ
  pub mtime_unix_secs : ℕ

pub data ConsolidationSource : Type 0 where
  eviction model_annotation : ConsolidationSource

pub record ConsolidationNote : Type 0 where
  pub content : Text
  pub source : ConsolidationSource
  pub created_at_secs : ℕ

pub record TokenBudget : Type 0 where
  pub max_total : ℕ
  pub reserved_for_prompt : ℕ
  pub reserved_for_answer : ℕ

-- `-` on ℕ is `saturating_sub`.
abbrev pub available_for_workspace : TokenBudget → ℕ
available_for_workspace b = b.max_total - (b.reserved_for_prompt + b.reserved_for_answer)

pub record RecallThresholds (F : Type 0) : Type 0 where
  pub load : F
  pub unload : F

pub record SchedulerInput (F : Type 0) : Type 0 where
  pub currently_loaded : List RecallFragment
  pub candidates : List RecallFragment
  pub budget : TokenBudget
  pub candidate_scores : List F

pub record SchedulerDecision : Type 0 where
  pub keep : List RecallFragment
  pub evicted : List RecallFragment
  pub admitted : List RecallFragment

-- `iter().map(|f| f.tokens).sum()`
abbrev pub total_tokens : List RecallFragment → ℕ
total_tokens = sum_of (λ f. f.tokens)

-- `iter().any(|f| f.stub_id == id)`
abbrev pub has_id : String → List RecallFragment → Bool
has_id id = any_b (λ f. str_eq f.stub_id id)
