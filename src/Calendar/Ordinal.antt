-- ===== src/Calendar/Ordinal.antt =====
-- Day numbers and civil dates are in bijection.
use nba_games_service.Base.{
  ℕ, zero, suc, ◌+◌, ◌-◌, ◌≤◌, ◌<◌, ◌≡◌, refl, ap, arith, ltb, Bool-cases, inl, inr, subst, ltb→lt,
}
use nba_games_service.Calendar.{
  Civil, civil, IsValid, days_in_month, days_in_year, days_before_year, days_before_month, ordinal,
  month_walk, year_walk, civil_of,
}

pub days_in_month-pos : (y m : ℕ) → 28 ≤ days_in_month y m
unfolding days_in_month
days_in_month-pos y m = ground arith

pub days_in_year-pos : (y : ℕ) → 365 ≤ days_in_year y
unfolding days_in_year
days_in_year-pos y = ground arith

pub days_before_month-suc :
    (y m : ℕ)
    → days_before_month y (suc (suc m)) ≡ days_before_month y (suc m) + days_in_month y (suc m)
unfolding days_before_month
days_before_month-suc y m = ground arith

pub days_before_month-one : (y : ℕ) → days_before_month y 1 ≡ 0
unfolding days_before_month
days_before_month-one y = refl

-- The months of a year make the year.
pub days_before_month-year : (y : ℕ) → days_before_month y 13 ≡ days_in_year y
unfolding days_before_month days_in_month days_in_year
days_before_month-year y = ground arith

-- `c` is day `n` of year `y`.
pub record IsDayOf (y n : ℕ) (c : Civil) : Type 0 where
  pub year : c.year ≡ y
  pub valid : IsValid c
  pub at : days_before_month c.year c.month + (c.day - 1) ≡ n

-- Day `k` of a month is a day of its year.
civil-IsDayOf :
    (y m k : ℕ)
    → m < 12
    → k < days_in_month y (suc m)
    → IsDayOf y (days_before_month y (suc m) + k) (civil y (suc m) (k + 1))
civil-IsDayOf y m k e h = record { year = refl; valid = omega arith; at = omega arith }

month_walk-IsDayOf :
    (left y m k : ℕ)
    → m + left ≡ 11
    → days_before_month y (suc m) + k < days_in_year y
    → IsDayOf y (days_before_month y (suc m) + k) (month_walk left y (suc m) k)
unfolding month_walk
month_walk-IsDayOf zero y m k e hi = civil-IsDayOf y m k (omega arith) (
    let e' : m ≡ 11 = omega arith in
    rw e' (
      omega (
        arith,
        days_before_month-year y,
        days_before_month-suc y 11,
        subst (λ j. days_before_month y (suc j) + k < days_in_year y) e' hi,
      )))
month_walk-IsDayOf (suc left) y m k e hi = elim (Bool-cases (ltb k (days_in_month y (suc m)))) [
  | inl p ↦ rw p (civil-IsDayOf y m k (omega arith) (ltb→lt _ _ p))
  | inr p ↦
      let n : ℕ = k - days_in_month y (suc m) in
      let e' : days_before_month y (suc (suc m)) + n ≡ days_before_month y (suc m) + k =
        ground (arith, days_before_month-suc y m) in
      rw p (
        subst (λ d. IsDayOf y d (month_walk left y (suc (suc m)) n)) e'
          (month_walk-IsDayOf left y (suc m) n (omega arith) (omega arith)))
]

pub ordinal_lem :
    (c : Civil)
    → ordinal c ≡ days_before_year c.year + days_before_month c.year c.month + (c.day - 1)
unfolding ordinal
ordinal_lem c = refl

pub days_before_year-suc : (y : ℕ) → days_before_year (suc y) ≡ days_before_year y + days_in_year y
unfolding days_before_year
days_before_year-suc y = refl

-- `c` has day number `n`.
abbrev pub Dates : ℕ → Civil → Type 0
Dates n c = IsValid c × (ordinal c ≡ n)

IsDayOf-Dates : (y n : ℕ) (c : Civil) → IsDayOf y n c → Dates (days_before_year y + n) c
IsDayOf-Dates y n c h = (h.valid, omega (arith, ordinal_lem c, ap days_before_year h.year, h.at))

year_walk-Dates : (fuel y n : ℕ) → n < fuel → Dates (days_before_year y + n) (year_walk fuel y n)
unfolding year_walk
year_walk-Dates zero y n h = absurd (omega arith)
year_walk-Dates (suc fuel) y n h = elim (Bool-cases (ltb n (days_in_year y))) [
  | inl p ↦
      let hi : days_before_month y 1 + n < days_in_year y =
        omega (arith, ltb→lt n (days_in_year y) p, days_before_month-one y) in
      let e : days_before_month y 1 + n ≡ n = omega (arith, days_before_month-one y) in
      rw p (
        IsDayOf-Dates y n _ (
          subst (λ d. IsDayOf y d (month_walk 11 y 1 n)) e
            (month_walk-IsDayOf 11 y 0 n (omega arith) hi)))
  | inr p ↦
      let k : ℕ = n - days_in_year y in
      let e : days_before_year (suc y) + k ≡ days_before_year y + n =
        ground (arith, days_before_year-suc y) in
      let less : k < fuel = ground (arith, days_in_year-pos y) in
      rw p (subst (λ d. Dates d (year_walk fuel (suc y) k)) e (year_walk-Dates fuel (suc y) k less))
]

-- Every day number is that of one valid date, the date that `civil_of` returns.
pub civil_of-Dates : (n : ℕ) → Dates n (civil_of n)
unfolding civil_of
civil_of-Dates n =
    let e : days_before_year 0 + n ≡ n = unfold days_before_year in omega arith in
    subst (λ d. Dates d (year_walk (n + 1) 0 n)) e (year_walk-Dates (n + 1) 0 n (omega arith))
