-- ===== src/Dynamic/Turn/Hits.antt =====
-- The hits of the first retrieval of `run_turn`, as crates/caw-orchestrator/src/dynamic.rs weighs
-- them, and `candidate_list_fragment` of crates/caw-core/src/lib.rs.
use opencaw.Prelude.{
  ℕ, ◌+◌, Bool, true, false, ◌&&◌, ◌||◌, Option, none, some, List, [], ◌∷◌, ◌++◌, map, ltb, ◌==◌,
  if◌then◌else◌, length, any_b, filter_b, no_keys,
}
use opencaw.Prelude.Float.{Float}
use opencaw.Prelude.Sort.{sort_by}
use opencaw.Core.{Text, RecallFragment}
use opencaw.Text.{ascii, newline, ends_with, contains, join}
use opencaw.Dynamic.Load.{split_seen}
use opencaw.Intent.{AugmentationSignals}
use opencaw.Dynamic.Turn.Models.{
  ContentKind, markdown, code, plain_text, tabular, transcript, other, ScoredStub, Models,
}

abbrev is_code : ContentKind → Bool
is_code code = true
is_code markdown = false
is_code plain_text = false
is_code tabular = false
is_code transcript = false
is_code other = false

abbrev max_code_stubs : ℕ
max_code_stubs = 5

abbrev bench_terms : List Text
bench_terms =
    map ascii
      ("benchmark" ∷ "bench" ∷ "score" ∷ "niah" ∷ "workload" ∷ "precision" ∷ "recall@k" ∷ [])

abbrev pub asks : (AugmentationSignals → Bool) → Option AugmentationSignals → Bool
asks f none = false
asks f (some s) = f s

module _ {F : Type 0} ⦃fl : Float F⦄ where
  abbrev at_least : F → ScoredStub F → Bool
  at_least threshold h = fl.le threshold h.score

  -- The first hit of each path.
  abbrev first_per_path : List (ScoredStub F) → List (ScoredStub F)
  first_per_path hits = (split_seen (λ h. h.stub.path) no_keys hits).0

  pub above_threshold : F → List (ScoredStub F) → ℕ
  above_threshold threshold hits = length (filter_b (at_least threshold) hits)

  pub distinct_above : F → List (ScoredStub F) → ℕ
  distinct_above threshold hits = length (first_per_path (filter_b (at_least threshold) hits))

module _ {F : Type 0} ⦃fl : Float F⦄ (md : Models F) where
  -- `f32::min`, which returns the other operand if one is NaN.
  abbrev min_float : F → F → F
  min_float a b = if fl.le a b then a else if fl.le b a then b else if fl.le a a then a else b

  abbrev rescored : ScoredStub F → F → ScoredStub F
  rescored h score = record h { score = score }

  boosted : ScoredStub F → ScoredStub F
  boosted h =
      if ends_with (md.services.bytes h.stub.path) (ascii ".md")
      then rescored h (min_float (fl.mul h.score (fl.lit 15 10)) (fl.lit 1 1))
      else h

  -- `b.score.total_cmp(&a.score)` is not `Greater`.
  pub higher_hit : ScoredStub F → ScoredStub F → Bool
  higher_hit a b = fl.total_le b.score a.score

  -- The number of hits on code so far is passed on.
  cap_code : ℕ → List (ScoredStub F) → List (ScoredStub F)
  cap_code count [] = []
  cap_code count (h ∷ hits) =
      let next = if is_code h.stub.kind then count + 1 else count in
      (if is_code h.stub.kind && ltb max_code_stubs next then rescored h (fl.lit 0 1) else h)
      ∷ cap_code next hits

  abbrev is_bench : ScoredStub F → Bool
  is_bench h = contains (md.services.bytes h.stub.path) (ascii "caw-bench")

  penalized : List (ScoredStub F) → List (ScoredStub F)
  penalized hits =
      if any_b is_bench hits
      then sort_by higher_hit
          (map (λ h. if is_bench h then rescored h (fl.mul h.score (fl.lit 25 100)) else h) hits)
      else hits

  for_explanation : List (ScoredStub F) → List (ScoredStub F)
  unfolding boosted cap_code higher_hit
  for_explanation hits = cap_code 0 (sort_by higher_hit (map boosted hits))

  pub weigh_hits : Option AugmentationSignals → Text → List (ScoredStub F) → List (ScoredStub F)
  unfolding for_explanation penalized
  weigh_hits signals user hits =
      let weighed =
        if asks (λ s. s.wants_explanation) signals then for_explanation hits else hits in
      if any_b (contains (md.to_lowercase user)) bench_terms then weighed else penalized weighed

  -- ` — ` between the path and the summary.
  abbrev candidate_line : ScoredStub F → Text
  candidate_line h =
      ascii "- "
      ++ md.services.bytes h.stub.path
      ++ (if length h.stub.summary == 0 then [] else 32 ∷ 226 ∷ 128 ∷ 148 ∷ 32 ∷ h.stub.summary)

  pub candidate_list_fragment : List (ScoredStub F) → F → RecallFragment
  candidate_list_fragment hits threshold =
      let lines = map candidate_line (first_per_path (filter_b (at_least threshold) hits)) in
      let content =
        ascii
          "These files match your query but have not been loaded. Treat this list as discovery metadata, not evidence. Mention the specific files you need if you want them loaded, and do not claim details that are not written explicitly below:\n\n"
        ++ join (newline ∷ []) lines in
      record {
        stub_id = "__candidates__";
        content = content;
        locator = record { source = "search-candidates"; locator = "file-list" };
        tokens = md.services.count_tokens content;
        mtime_unix_secs = 0;
      }

  -- The hits whose path is in the text, one for each path.
  pub mentioned_in : (Text → Text) → Text → F → List (ScoredStub F) → List (ScoredStub F)
  mentioned_in norm text threshold hits =
      let in_text = λ (h : ScoredStub F).
        contains text (norm (md.services.bytes h.stub.path))
        || contains text (md.services.bytes h.stub.path) in
      first_per_path (filter_b in_text (filter_b (at_least threshold) hits))
