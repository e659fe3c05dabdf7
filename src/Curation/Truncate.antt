-- ===== src/Curation/Truncate.antt =====
-- What `truncate_to_budget` keeps of a prompt.
use mathlib.Core.List.{append_assoc, append-nil}
use opencaw.Prelude.{
  ℕ, ◌+◌, ◌-◌, ◌≤◌, ◌<◌, ◌≡◌, ◌∙◌, ◌⊎◌, inl, inr, refl, sym, ap, List, [], ◌∷◌, ◌++◌, arith, ltb,
  leb, sum_of, Bool-cases, zero, suc, max, length, true, false, All, ◌==◌,
}
use opencaw.Core.{Text}
use opencaw.Text.{concat_text, newline}
use opencaw.Text.Format.{words_from, space_length}
use opencaw.Curation.{
  SystemPromptBudget, estimate_tokens, ends_sentence, with_first, split_sentences, fill_loop,
  truncate_to_budget, word_loop,
}

-- The words of a text, and one for a text that has none.
abbrev pub word_count : Text → ℕ
word_count t = max (length (words_from 0 [] t)) 1

ℕ-cases : (n : ℕ) → (n ≡ 0) ⊎ ((m : ℕ) × (n ≡ suc m))
ℕ-cases zero = inl refl
ℕ-cases (suc m) = inr (m, refl)

suc_not_zero : (n : ℕ) → (suc n == 0) ≡ false
suc_not_zero n = ground arith

-- What the loop counts are the words, outside of a word and inside of one.
mutual
  unfolding word_loop words_from

  outside_lem : (skip : ℕ) (s : Text) → length (words_from skip [] s) ≡ word_loop skip false s
  outside_lem skip [] = refl
  outside_lem (suc skip) (b ∷ s) = outside_lem skip s
  outside_lem zero (b ∷ s) = elim (ℕ-cases (space_length (b ∷ s))) [
    | inl e ↦ rw (words_from, word_loop, e) (inside_lem b [] s)
    | inr (more, e) ↦ rw (words_from, word_loop, e) (outside_lem more s)
  ]

  inside_lem : (c : ℕ) (word s : Text) → length (words_from 0 (c ∷ word) s) ≡ word_loop 0 true s + 1
  inside_lem c word [] = rw (words_from, word_loop, suc_not_zero (length word)) (omega arith)
  inside_lem c word (b ∷ s) = elim (ℕ-cases (space_length (b ∷ s))) [
    | inl e ↦ rw (words_from, word_loop, e) (inside_lem c (word ++ (b ∷ [])) s)
    | inr (more, e) ↦
        rw (words_from, word_loop, e, suc_not_zero (length word))
          (omega (arith, outside_lem more s))
  ]

pub estimate_tokens_lem : (t : Text) → estimate_tokens t ≡ word_count t
unfolding estimate_tokens
estimate_tokens_lem t = ap (λ n. max n 1) (sym (outside_lem 0 t))

-- No full stop and no line feed.
abbrev pub IsBody : Text → Type 0
IsBody = All (λ b. (¬ (b ≡ 46)) × (¬ (b ≡ newline)))

-- Each sentence ends at its first full stop or line feed; the last need not end so.
pub IsSentences : List Text → Type 0
IsSentences [] = Unit
IsSentences (s ∷ ss) =
    (body : Text) × IsBody body
    × (((c : ℕ) × ((c ≡ 46) ⊎ (c ≡ newline)) × (s ≡ body ++ (c ∷ [])) × IsSentences ss)
        ⊎ ((s ≡ body) × (0 < length body) × (ss ≡ [])))

with_first-IsSentences :
    (b : ℕ) (ss : List Text)
    → (¬ (b ≡ 46)) × (¬ (b ≡ newline))
    → IsSentences ss
    → IsSentences (with_first b ss)
unfolding IsSentences
with_first-IsSentences b [] n h = (b ∷ [], (n, tt), inr (refl, omega arith, refl))
with_first-IsSentences b (s ∷ ss) n (body, inner, inl (c, end, e, h)) =
    (b ∷ body, (n, inner), inl (c, end, ap (◌∷◌ b) e, h))
with_first-IsSentences b (s ∷ ss) n (body, inner, inr (e, long, h)) =
    (b ∷ body, (n, inner), inr (ap (◌∷◌ b) e, omega arith, h))

ends_sentence_stop : (b : ℕ) → ends_sentence b ≡ true → (b ≡ 46) ⊎ (b ≡ newline)
ends_sentence_stop b h = ground arith

ends_sentence_inside : (b : ℕ) → ends_sentence b ≡ false → (¬ (b ≡ 46)) × (¬ (b ≡ newline))
ends_sentence_inside b h = (λ e. ground arith, λ e. ground arith)

split_sentences-IsSentences : (s : Text) → IsSentences (split_sentences s)
unfolding split_sentences IsSentences
split_sentences-IsSentences [] = tt
split_sentences-IsSentences (b ∷ s) =
    let h = split_sentences-IsSentences s in
    elim (Bool-cases (ends_sentence b)) [
      | inl e ↦ rw e ([], tt, inl (b, ends_sentence_stop b e, refl, h))
      | inr e ↦ rw e (with_first-IsSentences b (split_sentences s) (ends_sentence_inside b e) h)
    ]

with_first-concat : (b : ℕ) (ss : List Text) → concat_text (with_first b ss) ≡ b ∷ concat_text ss
with_first-concat b [] = refl
with_first-concat b (s ∷ ss) = refl

-- The sentences of a text, joined, are the text.
split_sentences-concat : (s : Text) → concat_text (split_sentences s) ≡ s
unfolding split_sentences
split_sentences-concat [] = refl
split_sentences-concat (b ∷ s) = elim (Bool-cases (ends_sentence b)) [
  | inl e ↦ rw e (ap (◌∷◌ b) (split_sentences-concat s))
  | inr e ↦ rw e (with_first-concat b (split_sentences s) ∙ ap (◌∷◌ b) (split_sentences-concat s))
]

-- The sentences that are kept, and those that are not.
pub record IsFilled (max_tokens before : ℕ) (start : Text) (sentences : List Text) (out : Text × ℕ)
    : Type 0 where
  pub kept : List Text
  pub left : List Text
  pub all : sentences ≡ kept ++ left
  pub text : out.0 ≡ start ++ concat_text kept
  pub tokens : out.1 ≡ before + sum_of word_count kept
  pub fits : out.1 ≤ max_tokens
  -- all are kept, or the next does not fit
  pub most :
      (left ≡ [])
      ⊎ ((next : Text) × (later : List Text) × (left ≡ next ∷ later)
          × (max_tokens < out.1 + word_count next))

fill_loop-IsFilled :
    (max_tokens : ℕ) (sentences : List Text) (result : Text) (result_tokens : ℕ)
    → result_tokens ≤ max_tokens
    → IsFilled max_tokens result_tokens result sentences
        (fill_loop max_tokens sentences result result_tokens)
unfolding fill_loop
fill_loop-IsFilled max_tokens [] result result_tokens h = record {
  kept = [];
  left = [];
  all = refl;
  text = sym (append-nil result);
  tokens = omega arith;
  fits = h;
  most = inl refl;
}
fill_loop-IsFilled max_tokens (s ∷ rest) result result_tokens h =
    elim (Bool-cases (ltb max_tokens (result_tokens + estimate_tokens s))) [
      | inl large ↦
          rw (fill_loop, large)
            (record {
              kept = [];
              left = s ∷ rest;
              all = refl;
              text = sym (append-nil result);
              tokens = omega arith;
              fits = h;
              most = inr (s, rest, refl, ground (arith, estimate_tokens_lem s));
            })
      | inr small ↦
          let r =
            fill_loop-IsFilled max_tokens rest (result ++ s) (result_tokens + estimate_tokens s)
              (ground arith) in
          rw (fill_loop, small)
            (record {
              kept = s ∷ r.kept;
              left = r.left;
              all = ap (◌∷◌ s) r.all;
              text = r.text ∙ append_assoc result s (concat_text r.kept);
              tokens = r.tokens ∙ omega (arith, estimate_tokens_lem s);
              fits = r.fits;
              most = r.most;
            })
    ]

concat-append : (ss ts : List Text) → concat_text (ss ++ ts) ≡ concat_text ss ++ concat_text ts
concat-append [] ts = refl
concat-append (s ∷ ss) ts =
    ap (λ t. s ++ t) (concat-append ss ts) ∙ sym (append_assoc s (concat_text ss) (concat_text ts))

-- The prompt, cut behind a sentence: the sum of the words of the sentences that are kept is within
-- the budget, and with the next it would not be.
pub record IsTruncated {F : Type 0} (prompt : Text) (budget : SystemPromptBudget F) (out : Text × ℕ)
    : Type 0 where
  pub rest : Text
  pub beginning : prompt ≡ out.0 ++ rest
  pub cut :
      ((out.1 ≡ 0) × (rest ≡ []) × (word_count prompt ≤ budget.max_tokens))
      ⊎ ((sentences : List Text) × (result_tokens : ℕ) × (concat_text sentences ≡ prompt)
          × IsSentences sentences
          × (out.1 ≡ word_count prompt - result_tokens)
          × (budget.max_tokens < word_count prompt)
          × IsFilled budget.max_tokens 0 [] sentences (out.0, result_tokens))

-- `truncate_to_budget` returns a beginning of the prompt. A prompt whose words are within the budget
-- is returned whole, and 0 is reported. Another is split into its sentences, each up to and with a
-- full stop or line feed; they are kept from the start until the next, counted by its words with one
-- at least, would take the sum of these counts over the budget, and the words of the prompt less that
-- sum are reported.
pub truncate_to_budget-IsTruncated :
    {F : Type 0}
    → (prompt : Text) (budget : SystemPromptBudget F)
    → IsTruncated prompt budget (truncate_to_budget prompt budget)
unfolding truncate_to_budget
truncate_to_budget-IsTruncated prompt budget =
    let f = fill_loop-IsFilled budget.max_tokens (split_sentences prompt) [] 0 (omega arith) in
    elim (Bool-cases (leb (estimate_tokens prompt) budget.max_tokens)) [
      | inl small ↦
          rw (truncate_to_budget, small)
            (record {
              rest = [];
              beginning = sym (append-nil prompt);
              cut = inl (refl, refl, ground (arith, estimate_tokens_lem prompt));
            })
      | inr large ↦
          rw (truncate_to_budget, large)
            (record {
              rest = concat_text f.left;
              beginning =
                  sym (split_sentences-concat prompt)
                  ∙ ap concat_text f.all
                  ∙ concat-append f.kept f.left
                  ∙ ap (λ t. t ++ concat_text f.left) (sym f.text);
              cut = inr (
                split_sentences prompt,
                (fill_loop budget.max_tokens (split_sentences prompt) [] 0).1,
                split_sentences-concat prompt,
                split_sentences-IsSentences prompt,
                ap (λ n. n - (fill_loop budget.max_tokens (split_sentences prompt) [] 0).1)
                    (estimate_tokens_lem prompt),
                ground (arith, estimate_tokens_lem prompt),
                f,
              );
            })
    ]
