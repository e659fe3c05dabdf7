-- ===== src/Intent/Tests.antt =====
-- Three votes, with Booleans for the values of `extra`.
use opencaw.Prelude.{ℕ, ◌≡◌, refl, Bool, true, some, List, [], ◌∷◌, no_entries, put_entry}
use opencaw.Prelude.Float.{hundredths}
use opencaw.Intent.{Json, QueryIntent, default_intent, majority_vote}
use opencaw.Intent.Majority.{extra_key, flag, has_majority, flag-majority_vote}

abbrev json : Json Bool
json = record { bool_true = true; is_true = λ b. b }

abbrev status_vote : QueryIntent ℕ Bool
status_vote = record default_intent {
  is_status_request = true;
  confidence = some 80;
  extra = put_entry "needs_git_status" true no_entries;
}

abbrev votes : List (QueryIntent ℕ Bool)
votes = status_vote ∷ default_intent ∷ record status_vote { confidence = some 60 } ∷ []

confidence_averaged : (majority_vote json votes).confidence ≡ some 70
unfolding majority_vote
confidence_averaged = refl

flag-majority_vote_example :
    flag json (extra_key "needs_git_status") (majority_vote json votes)
    ≡ has_majority json (extra_key "needs_git_status") votes
flag-majority_vote_example = flag-majority_vote json (extra_key "needs_git_status") votes refl
