-- ===== src/Calendar/Order.antt =====
-- Day numbers are ordered as the dates are: by year, then month, then day.
use mathlib.Core.Path.{ap₂}
use nba_games_service.Base.{
  ℕ, zero, suc, ◌+◌, ◌-◌, ◌≤◌, ◌<◌, ◌≡◌, ap, arith, Bool, Bool-cases, ltb→lt, inl, inr, true, false,
  ltb, if◌then◌else◌,
}
use nba_games_service.Calendar.{
  Civil, IsValid, days_in_month, days_in_year, days_before_year, days_before_month, ordinal,
  civil_of,
}
use nba_games_service.Calendar.Ordinal.{
  days_before_month-year, ordinal_lem, days_before_year-suc, civil_of-Dates,
}

abbrev pub civil_lt : Civil → Civil → Bool
civil_lt a b =
    if ltb a.year b.year
    then true
    else if ltb b.year a.year
    then false
    else if ltb a.month b.month
    then true
    else if ltb b.month a.month
    then false
    else ltb a.day b.day

-- Months and years that follow begin after the last day.
days_before_month-next :
    (y m : ℕ) → 1 ≤ m → days_before_month y (suc m) ≡ days_before_month y m + days_in_month y m
unfolding days_before_month
days_before_month-next y m h = ground arith

days_before_month_mono :
    (y a b : ℕ) → 1 ≤ a → a < b → days_before_month y a + days_in_month y a ≤ days_before_month y b
days_before_month_mono y a zero h k = absurd (omega arith)
days_before_month_mono y a (suc b) h k = elim (Bool-cases (ltb a b)) [
  | inl p ↦ omega (
    arith,
    days_before_month_mono y a b h (ltb→lt a b p),
    days_before_month-next y b (omega (arith, ltb→lt a b p)),
  )
  | inr p ↦ let e : b ≡ a = ground arith in rw e (omega (arith, days_before_month-next y a h))
]

pub days_before_year_mono :
    (a b : ℕ) → a < b → days_before_year a + days_in_year a ≤ days_before_year b
days_before_year_mono a zero k = absurd (omega arith)
days_before_year_mono a (suc b) k = elim (Bool-cases (ltb a b)) [
  | inl p ↦ omega (arith, days_before_year_mono a b (ltb→lt a b p), days_before_year-suc b)
  | inr p ↦ let e : b ≡ a = ground arith in rw e (omega (arith, days_before_year-suc a))
]

-- A valid date lies in its year.
pub day_of_year-lt :
    (c : Civil) → IsValid c → days_before_month c.year c.month + (c.day - 1) < days_in_year c.year
day_of_year-lt c v = omega (
  arith,
  days_before_month_mono c.year c.month 13 v.month_low (omega arith),
  days_before_month-year c.year,
)

civil_lt-same_month :
    (a b : Civil)
    → IsValid a
    → IsValid b
    → a.year ≡ b.year
    → a.month ≡ b.month
    → ltb (ordinal a) (ordinal b) ≡ ltb a.day b.day
civil_lt-same_month a b v w e f =
    ground (arith, ordinal_lem a, ordinal_lem b, ap days_before_year e, ap₂ days_before_month e f)

civil_lt-same_year :
    (a b : Civil)
    → IsValid a
    → IsValid b
    → a.year ≡ b.year
    → a.month < b.month
    → ordinal a < ordinal b
civil_lt-same_year a b v w e h = omega (
  arith,
  ordinal_lem a,
  ordinal_lem b,
  ap days_before_year e,
  ap (λ y. days_before_month y b.month) e,
  days_before_month_mono a.year a.month b.month v.month_low h,
)

civil_lt-later_year :
    (a b : Civil) → IsValid a → IsValid b → a.year < b.year → ordinal a < ordinal b
civil_lt-later_year a b v w h =
    omega (
      arith,
      ordinal_lem a,
      ordinal_lem b,
      day_of_year-lt a v,
      days_before_year_mono a.year b.year h,
    )

-- Day numbers compare as the dates do.
pub ltb-ordinal : (a b : Civil) → IsValid a → IsValid b → ltb (ordinal a) (ordinal b) ≡ civil_lt a b
ltb-ordinal a b v w = ground (
  arith,
  civil_lt-later_year a b v w,
  civil_lt-later_year b a w v,
  civil_lt-same_year a b v w,
  civil_lt-same_year b a w v,
  civil_lt-same_month a b v w,
)

-- A valid date is determined by its day number.
pub ordinal-injective : (a b : Civil) → IsValid a → IsValid b → ordinal a ≡ ordinal b → a ≡ b
ordinal-injective a b v w e = ground (arith, ltb-ordinal a b v w, ltb-ordinal b a w v)

pub civil_of-ordinal : (c : Civil) → IsValid c → civil_of (ordinal c) ≡ c
civil_of-ordinal c v =
    let (w, e) = civil_of-Dates (ordinal c) in ordinal-injective (civil_of (ordinal c)) c w v e
