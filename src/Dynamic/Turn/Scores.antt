-- ===== src/Dynamic/Turn/Scores.antt =====
-- The scores that a turn computes: `refresh_relevance_scores`, `answer_quality_score`, and
-- `tokenize_terms` of crates/caw-core/src/provenance.rs.
use opencaw.Prelude.{
  ℕ, suc, min, Bool, not, ◌&&◌, ◌||◌, String, Option, none, some, List, [], ◌∷◌, ◌++◌, map, ltb,
  ◌==◌, if◌then◌else◌, length, filter_b, any_b, StrMap, put_entry,
}
use opencaw.Prelude.Float.{Float}
use opencaw.Core.{Text, RecallFragment}
use opencaw.Text.{ascii, contains, eq_text}
use opencaw.Dynamic.{Orchestrator}
use opencaw.Dynamic.Turn.Models.{Models}

abbrev pub stopwords : List Text
stopwords = map ascii (
    "the" ∷ "and" ∷ "for" ∷ "are" ∷ "but" ∷ "not" ∷ "you" ∷ "all" ∷ "can" ∷ "has" ∷ "was" ∷ "one"
    ∷ "our" ∷ "out" ∷ "his" ∷ "her" ∷ "had" ∷ "how" ∷ "its" ∷ "may" ∷ "who" ∷ "did" ∷ "get" ∷ "let"
    ∷ "say" ∷ "she" ∷ "too" ∷ "use" ∷ "way" ∷ "with" ∷ "this" ∷ "that" ∷ "from" ∷ "have" ∷ "been"
    ∷ "they" ∷ "them" ∷ "then" ∷ "than" ∷ "each" ∷ "which" ∷ "their" ∷ "will" ∷ "would" ∷ "there"
    ∷ "what" ∷ "about" ∷ "could" ∷ "other" ∷ "into" ∷ "more" ∷ "some" ∷ "very" ∷ "when" ∷ "also"
    ∷ "just" ∷ "should" ∷ [])

pub is_stopword : Text → Bool
is_stopword word = any_b (eq_text word) stopwords

-- The elements of a `HashSet` that is collected from a list.
pub distinct_terms : List Text → List Text
distinct_terms [] = []
distinct_terms (t ∷ ts) =
    let rest = distinct_terms ts in if any_b (eq_text t) rest then rest else t ∷ rest

pub count_common : List Text → List Text → ℕ
count_common terms [] = 0
count_common terms (t ∷ ts) =
    let rest = count_common terms ts in if any_b (eq_text t) terms then suc rest else rest

abbrev pub hedge_phrases : List Text
hedge_phrases =
    ascii "no specific information"
    ∷ ascii "no information available"
    ∷ ascii "no information provided"
    ∷ ascii "I don't have"
    ∷ ascii "I cannot find"
    ∷ ascii "there is no information"
    ∷ ascii "there is no specific"
    ∷ []

module _ {F : Type 0} ⦃fl : Float F⦄ (md : Models F) where
  pub tokenize_terms : Text → List Text
  unfolding is_stopword
  tokenize_terms text =
      filter_b (λ s. ltb 2 (length s) && not (is_stopword s))
        (md.split_terms (md.to_lowercase text))

  pub term_overlap_score : Text → Text → F
  unfolding tokenize_terms distinct_terms count_common
  term_overlap_score context content =
      let ctx_terms = distinct_terms (tokenize_terms context) in
      let doc_terms = distinct_terms (tokenize_terms content) in
      if (length ctx_terms == 0) || (length doc_terms == 0)
      then fl.lit 0 1
      else fl.div (fl.of_ℕ (count_common doc_terms ctx_terms))
          (fl.of_ℕ (min (length ctx_terms) (length doc_terms)))

  -- What the loop does for a fragment with its score.
  abbrev pub reengaged : String → F → Option F → StrMap F → StrMap F
  reengaged id overlap none scores = scores
  reengaged id overlap (some current) scores =
      if fl.lt (fl.add current (fl.lit 2 10)) overlap then put_entry id overlap scores else scores

  pub refresh_loop : Text → List RecallFragment → StrMap F → StrMap F
  unfolding term_overlap_score
  refresh_loop context [] scores = scores
  refresh_loop context (f ∷ fs) scores =
      refresh_loop context fs
        (reengaged f.stub_id (term_overlap_score context f.content) (scores f.stub_id) scores)

  unfoldable pub refresh_relevance_scores : Text → Text → Orchestrator F → Orchestrator F
  unfolding refresh_loop
  refresh_relevance_scores query response self = record self {
    relevance_scores =
        refresh_loop (query ++ ascii " " ++ response) self.loaded self.relevance_scores;
  }

  -- The phrases are looked for in the lower case of the answer.
  unfoldable pub answer_quality_score : Text → F
  answer_quality_score answer =
      let has_hedge = any_b (contains (md.to_lowercase answer)) hedge_phrases in
      fl.mul (fl.of_ℕ (md.count_words answer)) (if has_hedge then fl.lit 3 10 else fl.lit 1 1)
