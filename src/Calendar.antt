-- ===== src/Calendar.antt =====
-- internal/timeutil/timeutil.go, with what it and its callers use of Go's `time`: civil dates, their
-- day numbers, `AddDate(0, 0, n)`, and the layout "2006-01-02".
pub mod Ordinal
pub mod Order
pub mod Layout
pub mod Parsing
pub mod Range
mod Tests
use nba_games_service.Base.{
  ℕ, zero, suc, ◌+◌, ◌-◌, ◌*◌, ◌/◌, ◌%◌, ◌≤◌, ◌<◌, Bool, true, false, not, ◌&&◌, ◌||◌, Option, none,
  some, String, ltb, leb, ◌==◌, if◌then◌else◌,
}
use Prim.Native.Char.{code}
use nba_games_service.Base.Decimal.{digit, is_digit}
use Prim.Native.String.{[], ◌∷◌}

pub record Civil : Type 0 where
  pub year : ℕ
  pub month : ℕ
  pub day : ℕ

abbrev pub civil : ℕ → ℕ → ℕ → Civil
civil y m d = record { year = y; month = m; day = d }

pub is_leap : ℕ → Bool
is_leap y = y % 4 == 0 && (not (y % 100 == 0) || y % 400 == 0)

pub days_in_month : ℕ → ℕ → ℕ
unfolding is_leap
days_in_month y m =
    if (m == 4) || (m == 6) || (m == 9) || (m == 11)
    then 30
    else if m == 2
    then (if is_leap y then 29 else 28)
    else 31

pub days_in_year : ℕ → ℕ
unfolding is_leap
days_in_year y = if is_leap y then 366 else 365

-- A date of the calendar.
pub record IsValid (c : Civil) : Type 0 where
  pub month_low : 1 ≤ c.month
  pub month_high : c.month ≤ 12
  pub day_low : 1 ≤ c.day
  pub day_high : c.day ≤ days_in_month c.year c.month

-- Days are counted from 0000-01-01.
pub days_before_year : ℕ → ℕ
days_before_year zero = 0
days_before_year (suc y) = days_before_year y + days_in_year y

-- Days of the year before month `m`; there is no month 0.
pub days_before_month : ℕ → ℕ → ℕ
days_before_month y zero = 0
days_before_month y (suc m) = days_before_month y m + (if m == 0 then 0 else days_in_month y m)

unfoldable pub ordinal : Civil → ℕ
unfolding days_before_year days_before_month days_in_year days_in_month
ordinal c = days_before_year c.year + days_before_month c.year c.month + (c.day - 1)

-- The month that holds day `n` of the year, from month `m` on.
month_walk : ℕ → ℕ → ℕ → ℕ → Civil
month_walk zero y m n = civil y m (n + 1)
month_walk (suc left) y m n =
    let later = month_walk left y (suc m) (n - days_in_month y m) in
    if ltb n (days_in_month y m) then civil y m (n + 1) else later

-- The year that holds day `n`, from year `y` on.
year_walk : ℕ → ℕ → ℕ → Civil
year_walk zero y n = civil y 1 1
year_walk (suc fuel) y n =
    let later = year_walk fuel (suc y) (n - days_in_year y) in
    if ltb n (days_in_year y) then month_walk 11 y 1 n else later

unfoldable pub civil_of : ℕ → Civil
unfolding year_walk month_walk days_in_year days_in_month
civil_of n = year_walk (n + 1) 0 n

-- Instants are nanoseconds since Go's zero `Time`, 0001-01-01 00:00 UTC.
abbrev pub Time : Type 0
Time = ℕ

-- A `*time.Location`: the number of the civil day that it shows at an instant.
abbrev pub Location : Type 0
Location = Time → ℕ

abbrev pub nanos_per_day : ℕ
nanos_per_day = 86400000000000

-- `time.UTC`; 0001-01-01 is day 366.
unfoldable pub utc : Location
utc t = 366 + t / nanos_per_day

-- `n` in two digits, before `rest`.
pub pad_two : ℕ → String → String
unfolding digit
pad_two n rest = digit (n / 10) ∷ digit (n % 10) ∷ rest

-- `t.Format(DateLayout)` of a time on the civil date `c`, in a year of at most four digits.
pub format_civil : Civil → String
format_civil c =
    pad_two (c.year / 100) (pad_two (c.year % 100) ("-" ∷ pad_two c.month ("-" ∷ pad_two c.day [])))

-- FormatDate, of a time on day `n`.
unfoldable pub format_date : ℕ → String
unfolding format_civil pad_two civil_of
format_date n = format_civil (civil_of n)

unfoldable pub read_two : String → Option (ℕ × String)
unfolding is_digit
read_two [] = none
read_two (a ∷ []) = none
read_two (a ∷ b ∷ rest) =
    if is_digit a && is_digit b then some ((code a - 48) * 10 + (code b - 48), rest) else none

unfoldable pub read_dash : String → Option String
read_dash [] = none
read_dash (c ∷ rest) = if code c == 45 then some rest else none

infixl 5 ◌>>=◌
abbrev pub ◌>>=◌ {ℓ κ} : {A : Type ℓ} {B : Type κ} → Option A → (A → Option B) → Option B
none >>= f = none
some a >>= f = f a

unfoldable pub check_civil : Civil → String → Option Civil
unfolding days_in_month
check_civil c [] =
    if leb 1 c.month && leb c.month 12 && leb 1 c.day && leb c.day (days_in_month c.year c.month)
    then some c
    else none
check_civil c (_ ∷ _) = none

-- ParseDate: four digits, two and two, with a month and a day that the calendar has.
unfoldable pub parse_date : String → Option Civil
parse_date s = do
  (century, s1) ← read_two s
  (year, s2) ← read_two s1
  s3 ← read_dash s2
  (month, s4) ← read_two s3
  s5 ← read_dash s4
  (day, s6) ← read_two s5
  check_civil (civil (century * 100 + year) month day) s6

-- ResolveLocation; the time zone database is a parameter.
unfoldable pub resolve_location : (String → Option Location) → String → Location
unfolding utc
resolve_location load name = elim (name_or_none name) [ none ↦ utc | some l ↦ l ]
  where
    name_or_none : String → Option Location
    name_or_none [] = none
    name_or_none (c ∷ s) = load (c ∷ s)
