-- ===== src/Calendar/Tests.antt =====
-- The theorems on dates, at the leap day of 2024 and the days around it.
use nba_games_service.Base.{some, ◌≡◌, refl, arith}
use nba_games_service.Calendar.{
  Civil, civil, IsValid, ordinal, parse_date, format_date, read_two, read_dash, check_civil,
  days_in_month,
}
use mathlib.Core.Logic.{◌↔◌}
use nba_games_service.Calendar.Layout.{HasFourDigits}
use nba_games_service.Calendar.Parsing.{parse_date-format_date_iff}

abbrev leap_day : Civil
leap_day = civil 2024 2 29

leap_day-IsValid : IsValid leap_day
leap_day-IsValid = record {
  month_low = omega arith;
  month_high = omega arith;
  day_low = omega arith;
  day_high = unfold days_in_month in omega arith;
}

parsed : parse_date "2024-02-29" ≡ some leap_day
unfolding parse_date read_two read_dash check_civil
parsed = refl

parse_date-format_date_iff_example :
    (parse_date "2024-02-29" ≡ some leap_day)
    ↔ ((format_date (ordinal leap_day) ≡ "2024-02-29") × IsValid leap_day × HasFourDigits leap_day)
parse_date-format_date_iff_example = parse_date-format_date_iff "2024-02-29" leap_day
