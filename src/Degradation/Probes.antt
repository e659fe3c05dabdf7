-- ===== src/Degradation/Probes.antt =====
-- The probes that `ProbeRateLimiter` remembers are those of its window.
use opencaw.Prelude.{
  ℕ, ◌-◌, ◌≤◌, ◌≡◌, ◌↔◌, refl, sym, ap, ◌∙◌, inl, inr, true, false, List, [], ◌∷◌, ◌++◌, arith, leb,
  ltb, length, filter_b, All, All-append, All-imp, Bool-cases,
}
use opencaw.Degradation.{
  ProbeRateConfig, ProbeRateLimiter, limiter_with_config, expire_loop, record_probe_at,
  is_throttled,
}

-- The limiter after the probes of a history, the latest first.
unfoldable pub after_probes : ProbeRateConfig → List ℕ → ProbeRateLimiter
after_probes config [] = limiter_with_config config
after_probes config (t ∷ older) = record_probe_at t (after_probes config older)

-- No probe of the history is earlier than the one before it.
unfoldable pub IsInOrder : List ℕ → Type 0
IsInOrder [] = Unit
IsInOrder (t ∷ older) = All (λ s. s ≤ t) older × IsInOrder older

-- The history, the earliest probe first.
unfoldable pub earliest_first : List ℕ → List ℕ
earliest_first [] = []
earliest_first (t ∷ older) = earliest_first older ++ (t ∷ [])

abbrev pub in_window : ℕ → List ℕ → List ℕ
in_window cutoff = filter_b (λ t. leb cutoff t)

Ascending : List ℕ → Type 0
Ascending [] = Unit
Ascending (t ∷ later) = All (λ s. t ≤ s) later × Ascending later

earliest_first-All : (P : ℕ → Type 0) (ts : List ℕ) → All P ts → All P (earliest_first ts)
unfolding earliest_first
earliest_first-All P [] h = _
earliest_first-All P (t ∷ ts) (h, hs) =
    All-append P (earliest_first ts) (t ∷ []) (earliest_first-All P ts hs) (h, _)

Ascending-snoc :
    (ts : List ℕ) (t : ℕ) → All (λ s. s ≤ t) ts → Ascending ts → Ascending (ts ++ (t ∷ []))
unfolding Ascending
Ascending-snoc [] t h a = (_, _)
Ascending-snoc (s ∷ ts) t (h, hs) (a, rest) =
    (All-append (λ r. s ≤ r) ts (t ∷ []) a (h, _), Ascending-snoc ts t hs rest)

earliest_first-Ascending : (ts : List ℕ) → IsInOrder ts → Ascending (earliest_first ts)
unfolding earliest_first IsInOrder Ascending
earliest_first-Ascending [] h = _
earliest_first-Ascending (t ∷ older) (h, hs) =
    Ascending-snoc (earliest_first older) t (earliest_first-All (λ s. s ≤ t) older h)
      (earliest_first-Ascending older hs)

in_window-All' : (cutoff : ℕ) (ts : List ℕ) → All (λ t. cutoff ≤ t) ts → in_window cutoff ts ≡ ts
in_window-All' cutoff [] h = refl
in_window-All' cutoff (t ∷ ts) (h, hs) = ground (arith, in_window-All' cutoff ts hs)

-- On ascending times the loop removes all that is too old.
expire_loop-window :
    (cutoff : ℕ) (ts : List ℕ) → Ascending ts → expire_loop cutoff ts ≡ in_window cutoff ts
unfolding expire_loop Ascending
expire_loop-window cutoff [] a = refl
expire_loop-window cutoff (t ∷ ts) (h, a) = elim (Bool-cases (ltb t cutoff)) [
  | inl old ↦
      let e : leb cutoff t ≡ false = ground arith in rw (old, e) (expire_loop-window cutoff ts a)
  | inr fresh ↦
      let e : leb cutoff t ≡ true = ground arith in
      rw (fresh, e)
        (ap (◌∷◌ t)
          (sym (in_window-All' cutoff ts (All-imp {P = λ s. t ≤ s} (λ s l. ground arith) ts h))))
]

in_window-append :
    (cutoff : ℕ) (ss ts : List ℕ)
    → in_window cutoff (ss ++ ts) ≡ in_window cutoff ss ++ in_window cutoff ts
in_window-append cutoff [] ts = refl
in_window-append cutoff (s ∷ ss) ts = ground (arith, in_window-append cutoff ss ts)

in_window-in_window :
    (a b : ℕ) (ts : List ℕ) → a ≤ b → in_window b (in_window a ts) ≡ in_window b ts
in_window-in_window a b [] h = refl
in_window-in_window a b (t ∷ ts) h = ground (arith, in_window-in_window a b ts h)

in_window-All : (P : ℕ → Type 0) (a : ℕ) (ts : List ℕ) → All P ts → All P (in_window a ts)
in_window-All P a [] h = _
in_window-All P a (t ∷ ts) (h, hs) = elim (Bool-cases (leb a t)) [
  | inl e ↦ rw e (h, in_window-All P a ts hs)
  | inr e ↦ rw e (in_window-All P a ts hs)
]

in_window-Ascending : (a : ℕ) (ts : List ℕ) → Ascending ts → Ascending (in_window a ts)
unfolding Ascending
in_window-Ascending a [] h = _
in_window-Ascending a (t ∷ ts) (h, hs) = elim (Bool-cases (leb a t)) [
  | inl e ↦ rw e (in_window-All (λ s. t ≤ s) a ts h, in_window-Ascending a ts hs)
  | inr e ↦ rw e (in_window-Ascending a ts hs)
]

after_probes-config :
    (config : ProbeRateConfig) (ts : List ℕ) → (after_probes config ts).config ≡ config
unfolding after_probes record_probe_at
after_probes-config config [] = refl
after_probes-config config (t ∷ older) = after_probes-config config older

-- The start of the window that ends with the latest probe.
abbrev pub cutoff_of : ProbeRateConfig → List ℕ → ℕ
cutoff_of config [] = 0
cutoff_of config (t ∷ older) = t - config.window_secs

cutoff_mono :
    (config : ProbeRateConfig) (t : ℕ) (older : List ℕ)
    → All (λ s. s ≤ t) older
    → cutoff_of config older ≤ t - config.window_secs
cutoff_mono config t [] h = omega arith
cutoff_mono config t (s ∷ older) (h, hs) = omega arith

-- What the limiter remembers is what falls into the window.
after_probes-window :
    (config : ProbeRateConfig) (ts : List ℕ)
    → IsInOrder ts
    → (after_probes config ts).recent_probes ≡ in_window (cutoff_of config ts) (earliest_first ts)
unfolding after_probes record_probe_at earliest_first IsInOrder
after_probes-window config [] h = refl
after_probes-window config (t ∷ older) (h, hs) =
    let cutoff = t - config.window_secs in
    let older_cutoff = cutoff_of config older in
    let times = earliest_first older in
    rw (after_probes-config config older, after_probes-window config older hs)
      (expire_loop-window cutoff (in_window older_cutoff times ++ (t ∷ [])) (
          Ascending-snoc (in_window older_cutoff times) t
            (in_window-All (λ s. s ≤ t) older_cutoff times
              (earliest_first-All (λ s. s ≤ t) older h))
            (in_window-Ascending older_cutoff times (earliest_first-Ascending older hs)))
        ∙ in_window-append cutoff (in_window older_cutoff times) (t ∷ [])
        ∙ ap (λ ts. ts ++ in_window cutoff (t ∷ []))
            (in_window-in_window older_cutoff cutoff times (cutoff_mono config t older h))
        ∙ sym (in_window-append cutoff times (t ∷ [])))

-- If the clock does not run backwards, the limiter remembers exactly the probes of the window that
-- ends with the latest, the earliest first, and probes are throttled if and only if at least
-- `max_probes` of them fall into that window.
pub after_probes_lem :
    (config : ProbeRateConfig) (ts : List ℕ)
    → IsInOrder ts
    → ((after_probes config ts).recent_probes ≡ in_window (cutoff_of config ts) (earliest_first ts))
      × ((is_throttled (after_probes config ts) ≡ true)
          ↔ (config.max_probes ≤ length (in_window (cutoff_of config ts) (earliest_first ts))))
after_probes_lem config ts h =
    let e = after_probes-window config ts h in
    (e, rw (after_probes-config config ts, e) (ground arith))
