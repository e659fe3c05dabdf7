-- ===== src/Chunking/Document/Boundaries.antt =====
-- The positions at which `chunk_by_items` cuts, and what holds of the chunks between them.
use opencaw.Prelude.{
  ℕ, ◌-◌, ◌≤◌, min, ◌≡◌, inl, inr, refl, sym, ap, ◌∙◌, ◌&&◌, Option, none, some, List, [], ◌∷◌,
  ◌++◌, arith, ltb, ◌==◌, length, All, All-append, Bool-cases,
}
use opencaw.Core.{Text}
use opencaw.Text.Utf8.{Boundary, Boundary-length}
use opencaw.Chunking.{ChunkingConfig, target_of}
use opencaw.Chunking.Document.{Counted, ItemSpan, item_cuts, dedup_from, windows_loop}

-- The parser's items begin in the text, between code points.
abbrev pub InText : Text → ItemSpan → Type 0
InText content sp = Boundary content sp.start

abbrev pub spans_of : Option (List ItemSpan) → List ItemSpan
spans_of none = []
spans_of (some sps) = sps

pub dedup_from-head : (a : ℕ) (bs : List ℕ) → (rest : List ℕ) × (dedup_from a bs ≡ a ∷ rest)
unfolding dedup_from
dedup_from-head a [] = ([], refl)
dedup_from-head a (b ∷ bs) =
    let (rest, e) = dedup_from-head b bs in
    elim (Bool-cases (a == b)) [
      | inl same ↦
          let a_is : a ≡ b = ground arith in rw same (rest, e ∙ ap (λ n. n ∷ rest) (sym a_is))
      | inr other ↦ rw other (dedup_from b bs, refl)
    ]

windows_loop-cons :
    (chunks : ℕ → ℕ → List Counted) (a b : ℕ) (bs : List ℕ)
    → windows_loop chunks (a ∷ dedup_from b bs)
      ≡ chunks a b ++ windows_loop chunks (dedup_from b bs)
unfolding windows_loop
windows_loop-cons chunks a b bs = let (rest, e) = dedup_from-head b bs in rw e refl

module _ (content : Text) where
  -- Ascending positions in the text, up to its end.
  unfoldable pub Chain : ℕ → List ℕ → Type 0
  Chain a [] = a ≡ length content
  Chain a (b ∷ bs) = (a ≤ b) × Boundary content b × Chain b bs

  pub item_cuts-Chain :
      (config : ChunkingConfig) (sps : List ItemSpan) (cur_start : ℕ)
      → All (InText content) sps
      → cur_start ≤ length content
      → Chain cur_start
          (item_cuts sps (target_of config) (length content) cur_start ++ (length content ∷ []))
  unfolding item_cuts Chain
  item_cuts-Chain config [] cur_start h l = (l, Boundary-length content, refl)
  item_cuts-Chain config (sp ∷ sps) cur_start (h, hs) l =
      let opens =
        ltb (target_of config) (min sp.end (length content) - cur_start)
        && ltb cur_start sp.start in
      elim (Bool-cases opens) [
        | inl e ↦ rw e (ground arith, h, item_cuts-Chain config sps sp.start hs h.0)
        | inr e ↦ rw e (item_cuts-Chain config sps cur_start hs l)
      ]

  -- What holds of the chunks of every window holds of all.
  pub windows_loop-All :
      (P : Counted → Type 0) (chunks : ℕ → ℕ → List Counted) (a : ℕ) (bs : List ℕ)
      → ((x y : ℕ) → Boundary content x → Boundary content y → All P (chunks x y))
      → Boundary content a
      → Chain a bs
      → All P (windows_loop chunks (dedup_from a bs))
  unfolding dedup_from Chain windows_loop
  windows_loop-All P chunks a [] each low e = _
  windows_loop-All P chunks a (b ∷ bs) each low (l, high, chain) =
      let later = windows_loop-All P chunks b bs each high chain in
      elim (Bool-cases (a == b)) [
        | inl same ↦ rw same later
        | inr other ↦
            rw (other, windows_loop-cons chunks a b bs)
              (All-append P (chunks a b) _ (each a b low high) later)
      ]
