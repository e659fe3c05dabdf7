-- ===== src/Dynamic/Turn/Refine/Best.antt =====
-- The refinement never returns a worse answer than the one that it starts from.
use opencaw.Prelude.{ℕ, ◌≡◌, any_b, Bool, true, false, String, Option, none, some}
use opencaw.Prelude.Float.{Float}
use opencaw.Core.{Text, CawError, CawResult, ok, err}
use opencaw.Dynamic.Load.Invariant.{IsRetriever}
use opencaw.Dynamic.Turn.Models.{CompletionResponse, Turn, Models}
use opencaw.Dynamic.Turn.Scores.{hedge_phrases}
use opencaw.Text.{contains}
use opencaw.Dynamic.Turn.Retry.Bounded.{IsBounded}
use opencaw.Dynamic.Turn.Refine.{Query, Answers}

-- The quality of an answer: its number of words, times 0.3 if it has a phrase of a hedge.
abbrev pub quality_with : {F : Type 0} ⦃fl : Float F⦄ → Bool → ℕ → F
quality_with ⦃fl⦄ true words = fl.mul (fl.of_ℕ words) (fl.lit 3 10)
quality_with ⦃fl⦄ false words = fl.mul (fl.of_ℕ words) (fl.lit 1 1)

module _ {F : Type 0} ⦃fl : Float F⦄ (md : Models F) where
  abbrev pub quality : Text → F
  quality t = quality_with (any_b (contains (md.to_lowercase t)) hedge_phrases) (md.count_words t)

module _ {F : Type 0} ⦃fl : Float F⦄
    (trans : (a b c : F) → fl.le a b ≡ true → fl.le b c ≡ true → fl.le a c ≡ true)
    (source_of : String → String) (md : Models F) (r : IsRetriever md.services source_of)
    (q : Query) (quiet : md.checks_debug_lines ≡ false) (first : CompletionResponse)
    (number : fl.le (quality md first.answer) (quality md first.answer) ≡ true) where
  -- No lower in quality than the first answer.
  abbrev pub IsNoWorse : CompletionResponse → Type 0
  IsNoWorse a = fl.le (quality md first.answer) (quality md a.answer) ≡ true

  -- The best answer so far.
  abbrev HoldsBest : CawResult Answers → Turn F → Type 0
  HoldsBest (ok a) t = IsBounded source_of t × IsNoWorse a.best_response
  HoldsBest (err e) t = Unit

  -- The answer that is returned, unless it is degenerate.
  abbrev pub IsReturned : Option CawError → CompletionResponse → Type 0
  IsReturned none a = IsNoWorse a
  IsReturned (some e) a = Unit

  abbrev pub IsRefined : CawResult Answers → Turn F → Type 0
  IsRefined (ok a) t = IsReturned a.degenerate_err a.last_response
  IsRefined (err e) t = Unit
