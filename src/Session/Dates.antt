-- ===== src/Session/Dates.antt =====
-- `days_to_ymd` against the closed formula of the Gregorian calendar.
use mathlib.Core.Path.{subst}
use opencaw.Prelude.{
  ℕ, zero, suc, ◌+◌, ◌-◌, ◌*◌, ◌/◌, ◌≤◌, ◌<◌, ◌≡◌, ◌∙◌, refl, ap, inl, inr, some, List, [], ◌∷◌,
  arith, ltb, leb, if◌then◌else◌, length, take, get_elem?, sum_of, Bool-cases, ltb→lt, ltb→le,
}
use opencaw.Session.{is_leap, days_in_year, year_loop, months_of, month_loop, days_to_ymd}

abbrev total : List ℕ → ℕ
total = sum_of (λ n. n)

-- The days before the first of January of the year, from the first of January of year 1.
pub days_before_year : ℕ → ℕ
days_before_year y = let p = y - 1 in p * 365 + p / 4 - p / 100 + p / 400

-- The length of the year, less 365.
abbrev pub leap_days : ℕ → ℕ
leap_days y = days_before_year (y + 1) - days_before_year y - 365

-- The days before a month that begins the year or comes after February, whose five months from
-- March and from August have 153 days each.
abbrev pub days_before_month_with : ℕ → ℕ → ℕ
days_before_month_with leap m =
    if leb m 2 then 31 * (m - 1) else 59 + leap + (153 * (m - 3) + 2) / 5

abbrev pub days_before_month : ℕ → ℕ → ℕ
days_before_month y = days_before_month_with (leap_days y)

-- The date is a day of the calendar, and it is this many days after the first of January 1970.
pub record IsDateOf (days y m d : ℕ) : Type 0 where
  pub after_epoch : 1970 ≤ y
  pub month : (1 ≤ m) × (m ≤ 12)
  pub day : (1 ≤ d) × (days_before_month y m + d ≤ days_before_month y (m + 1))
  pub since_epoch :
      days_before_year y + days_before_month y m + (d - 1) ≡ days_before_year 1970 + days

days_before_year-suc :
    (y : ℕ) → 1 ≤ y → days_before_year (y + 1) ≡ days_before_year y + days_in_year y
unfolding days_before_year days_in_year is_leap
days_before_year-suc y h = ground arith

days_in_year_pos : (y : ℕ) → 1 ≤ days_in_year y
unfolding days_in_year
days_in_year_pos y = ground arith

year_loop_lem :
    (fuel y rem : ℕ)
    → 1 ≤ y
    → rem ≤ fuel
    → let (y', r) = year_loop fuel y rem in
      (y ≤ y') × (r < days_in_year y') × (days_before_year y' + r ≡ days_before_year y + rem)
unfolding year_loop
year_loop_lem zero y rem h enough = (omega arith, omega (arith, days_in_year_pos y), refl)
year_loop_lem (suc fuel) y rem h enough = elim (Bool-cases (ltb rem (days_in_year y))) [
  | inl e ↦ rw (year_loop, e) (omega arith, ltb→lt rem (days_in_year y) e, refl)
  | inr e ↦
      let (le, inside, sum) =
        year_loop_lem fuel (y + 1) (rem - days_in_year y) (omega arith)
          (omega (arith, ltb→le rem (days_in_year y) e, days_in_year_pos y)) in
      rw (year_loop, e)
        (
          omega arith,
          inside,
          sum ∙ omega (arith, ltb→le rem (days_in_year y) e, days_before_year-suc y h),
        )
]

month_loop_lem :
    (months : List ℕ) (mo rem : ℕ)
    → rem < total months
    → let (mo', r) = month_loop months mo rem in
      (k : ℕ) × (mo' ≡ mo + k)
      × (k < length months)
      × (total (take k months) + r ≡ rem)
      × ((n : ℕ) × (get_elem? months k ≡ some n) × (r < n))
unfolding month_loop
month_loop_lem [] mo rem h = absurd (omega arith)
month_loop_lem (dm ∷ months) mo rem h = elim (Bool-cases (ltb rem dm)) [
  | inl e ↦ rw (month_loop, e) (0, omega arith, omega arith, omega arith, (dm, refl, ground arith))
  | inr e ↦
      let (k, at, inside, sum, last) = month_loop_lem months (mo + 1) (rem - dm) (ground arith) in
      rw (month_loop, e) (suc k, omega (arith, at), omega arith, ground (arith, sum), last)
]

months_total : (y : ℕ) → total (months_of y) ≡ days_in_year y
unfolding months_of days_in_year
months_total y = ground arith

months_count : (y : ℕ) → length (months_of y) ≡ 12
unfolding months_of
months_count y = refl

abbrev months_with : ℕ → List ℕ
months_with leap = 31 ∷ (28 + leap) ∷ 31 ∷ 30 ∷ 31 ∷ 30 ∷ 31 ∷ 31 ∷ 30 ∷ 31 ∷ 30 ∷ 31 ∷ []

-- The table of the months against the formula, for a year with or without a leap day.
IsMonthOf : ℕ → ℕ → ℕ → Type 0
IsMonthOf leap k n =
    (total (take k (months_with leap)) ≡ days_before_month_with leap (k + 1))
    × (days_before_month_with leap (k + 1) + n ≡ days_before_month_with leap (k + 1 + 1))

month_formula :
    (leap k n : ℕ) → leap ≤ 1 → get_elem? (months_with leap) k ≡ some n → IsMonthOf leap k n
unfolding IsMonthOf
month_formula leap zero n h e = ground arith
month_formula leap (suc zero) n h e = ground arith
month_formula leap (suc (suc zero)) n h e = ground arith
month_formula leap (suc (suc (suc zero))) n h e = ground arith
month_formula leap (suc (suc (suc (suc zero)))) n h e = ground arith
month_formula leap (suc (suc (suc (suc (suc zero))))) n h e = ground arith
month_formula leap (suc (suc (suc (suc (suc (suc zero)))))) n h e = ground arith
month_formula leap (suc (suc (suc (suc (suc (suc (suc zero))))))) n h e = ground arith
month_formula leap (suc (suc (suc (suc (suc (suc (suc (suc zero)))))))) n h e = ground arith
month_formula leap (suc (suc (suc (suc (suc (suc (suc (suc (suc zero))))))))) n h e = ground arith
month_formula leap (suc (suc (suc (suc (suc (suc (suc (suc (suc (suc zero)))))))))) n h e =
    ground arith
month_formula leap (suc (suc (suc (suc (suc (suc (suc (suc (suc (suc (suc zero))))))))))) n h e =
    ground arith
month_formula leap (suc (suc (suc (suc (suc (suc (suc (suc (suc (suc (suc (suc k)))))))))))) n h e =
    absurd (ground arith)

months_of-leap : (y : ℕ) → 1 ≤ y → months_of y ≡ months_with (leap_days y)
unfolding months_of days_in_year is_leap
months_of-leap y h = ground (arith, days_before_year-suc y h)

leap_days_le : (y : ℕ) → 1 ≤ y → leap_days y ≤ 1
unfolding days_in_year
leap_days_le y h = ground (arith, days_before_year-suc y h)

-- `days_to_ymd` gives the day of the Gregorian calendar that is this many days after the first of
-- January 1970, by the closed formulas for the leap years and for the days before a month.
pub days_to_ymd-IsDateOf : (days : ℕ) → let (y, (m, d)) = days_to_ymd days in IsDateOf days y m d
unfolding days_to_ymd IsMonthOf
days_to_ymd-IsDateOf days =
    let (y, rem) = year_loop days 1970 days in
    let (le, inside, sum) = year_loop_lem days 1970 days (omega arith) (omega arith) in
    let (k, at, few, msum, (n, len, lt)) =
      month_loop_lem (months_of y) 1 rem (omega (arith, inside, months_total y)) in
    let (before, length_of) =
      month_formula (leap_days y) k n (leap_days_le y (omega (arith, le)))
        (subst (λ ms. get_elem? ms k ≡ some n) (months_of-leap y (omega (arith, le))) len) in
    let sum_before : total (take k (months_of y)) ≡ days_before_month y (k + 1) =
      ap (λ ms. total (take k ms)) (months_of-leap y (omega (arith, le))) ∙ before in
    let month_at : (month_loop (months_of y) 1 rem).0 ≡ k + 1 = omega (arith, at) in
    record {
      after_epoch = le;
      month = (omega (arith, at), omega (arith, at, few, months_count y));
      day = (omega arith, rw month_at (omega (arith, length_of, lt)));
      since_epoch = rw month_at (omega (arith, sum, msum, sum_before));
    }
