-- ===== src/Dynamic/Load/Whole.antt =====
-- `load_fragments` and the other operations keep the invariant of the workspace.
use opencaw.Prelude.{
  ℕ, ◌+◌, ◌<◌, ◌≡◌, refl, ◌⊎◌, inl, inr, false, String, List, [], ◌∷◌, arith, length, leb,
  Bool-cases, Bool,
}
use opencaw.Prelude.Float.{Float}
use opencaw.Core.{CawError, RecallFragment, total_tokens}
use opencaw.Dynamic.{Orchestrator, Services, LoadMode, Fetched, fetched, skipped, failed}
use opencaw.Dynamic.Load.{
  Loading, Round, continues, breaks, returns, source_is_full, admit_if_fits, admit_fetched,
  load_round, load_loop, load_fragments,
}
use opencaw.Dynamic.Load.Invariant.{HasOrigin, IsRetriever, IsWorkspace}
use opencaw.Dynamic.Load.Upgrade.{reload-IsWorkspace}
use opencaw.Dynamic.Load.Admission.{IsFor, fetch-IsFor, IsLoading, admit-IsWorkspace}

module _ {F : Type 0} ⦃fl : Float F⦄ (lax : Bool) (source_of : String → String) where
  -- Where a round ends, the invariant holds.
  abbrev IsSound : Round F → Type 0
  IsSound (continues l) = IsLoading lax source_of l
  IsSound (breaks l) = IsLoading lax source_of l
  IsSound (returns e l) = IsLoading lax source_of l

  admit_if_fits-IsLoading :
      (id : String) (score : F) (f : RecallFragment) (l : Loading F)
      → IsLoading lax source_of l
      → l.self.loaded_ids id ≡ false
      → f.stub_id ≡ id
      → HasOrigin source_of f
      → length l.self.loaded < l.self.config.max_loaded_fragments
      → IsLoading lax source_of (admit_if_fits id score f l)
  unfolding admit_if_fits
  admit_if_fits-IsLoading id score f l w new_id own from few =
      elim (Bool-cases (source_is_full l.self f)) [
        | inl at_cap ↦ rw (admit_if_fits, at_cap) w
        | inr room ↦
            elim (Bool-cases
              (leb (total_tokens l.self.loaded + f.tokens) l.self.config.max_workspace_tokens)) [
                | inl fits ↦
                    rw (admit_if_fits, room, fits)
                      (admit-IsWorkspace lax source_of l id score f w new_id own from (ground arith)
                        (ground arith) few)
                | inr large ↦ rw (admit_if_fits, room, large) w
              ]
      ]

  admit_fetched-IsSound :
      (id : String) (score : F) (o : Fetched) (l : Loading F)
      → IsLoading lax source_of l
      → l.self.loaded_ids id ≡ false
      → IsFor source_of id o
      → length l.self.loaded < l.self.config.max_loaded_fragments
      → IsSound (admit_fetched id score o l)
  unfolding admit_fetched
  admit_fetched-IsSound id score (fetched f) l w new_id (own, from) few =
      admit_if_fits-IsLoading id score f l w new_id own from few
  admit_fetched-IsSound id score skipped l w new_id h few = w
  admit_fetched-IsSound id score (failed e) l w new_id h few = w

  load_round-IsSound :
      (sv : Services) (budget : ℕ) (mode : LoadMode) (id : String) (score : F) (l : Loading F)
      → IsRetriever sv source_of
      → IsLoading lax source_of l
      → IsSound (load_round sv budget mode id score l)
  unfolding load_round
  load_round-IsSound sv budget mode id score l r w =
      let self = l.self in
      elim (Bool-cases (self.loaded_ids id)) [
        | inl there ↦
            rw (load_round, there) (reload-IsWorkspace lax source_of sv mode id score self r w)
        | inr away ↦ elim (Bool-cases (leb self.config.max_loaded_fragments (length self.loaded))) [
          | inl many ↦ rw (load_round, away, many) w
          | inr few ↦ elim (Bool-cases (fl.lt score self.config.thresholds.load)) [
            | inl low ↦ rw (load_round, away, few, low) w
            | inr high ↦
                elim (Bool-cases
                  (leb self.config.max_workspace_tokens (total_tokens self.loaded))) [
                    | inl at_budget ↦ rw (load_round, away, few, high, at_budget) w
                    | inr room ↦
                        rw (load_round, away, few, high, room)
                          (admit_fetched-IsSound id score _ l w away
                            (fetch-IsFor sv source_of budget l.history_tokens mode id
                              (self.session_content id) r)
                            (ground arith))
                  ]
          ]
        ]
      ]

  round-cases :
      (o : Round F)
      → ((l : Loading F) × (o ≡ continues l))
        ⊎ ((l : Loading F) × (o ≡ breaks l))
        ⊎ ((e : CawError) × (l : Loading F) × (o ≡ returns e l))
  round-cases (continues l) = inl (l, refl)
  round-cases (breaks l) = inr (inl (l, refl))
  round-cases (returns e l) = inr (inr (e, l, refl))

  load_loop-IsWorkspace :
      (sv : Services) (budget : ℕ) (mode : LoadMode) (hits : List (String × F)) (l : Loading F)
      → IsRetriever sv source_of
      → IsLoading lax source_of l
      → IsWorkspace lax source_of (load_loop sv budget mode hits l).1
  unfolding load_loop
  load_loop-IsWorkspace sv budget mode [] l r w = w
  load_loop-IsWorkspace sv budget mode ((id, score) ∷ hits) l r w =
      let sound = load_round-IsSound sv budget mode id score l r w in
      elim (round-cases (load_round sv budget mode id score l)) [
        | inl (next, e) ↦
            rw (load_loop, e) (load_loop-IsWorkspace sv budget mode hits next r (rw e at sound))
        | inr rest ↦ elim rest [
          | inl (next, e) ↦ rw (load_loop, e) (rw e at sound)
          | inr (failure, next, e) ↦ rw (load_loop, e) (rw e at sound)
        ]
      ]

  -- `load_fragments` keeps the invariant of the workspace for any hits, also when it stops or
  -- returns an error: the set of ids is that of the loaded fragments, which are distinct and have a
  -- score, the fragments keep the token budget and their number its cap, and the map counts the
  -- fragments of each source, which keep their cap unless they are exempt. Of a lax workspace the
  -- scores and the cap of a source are left out. The retriever must answer with the fragment that
  -- it is asked for, from the one source of that stub.
  pub load_fragments-IsWorkspace :
      (sv : Services) (hits : List (String × F)) (mode : LoadMode) (self : Orchestrator F)
      → IsRetriever sv source_of
      → IsWorkspace lax source_of self
      → IsWorkspace lax source_of (load_fragments sv hits mode self).1
  unfolding load_fragments
  load_fragments-IsWorkspace sv hits mode self r w = load_loop-IsWorkspace sv _ mode hits _ r w
