-- ===== src/Calendar/Range.antt =====
-- The days that print with four digits of the year.
use nba_games_service.Base.{◌≤◌, ◌≡◌, refl, arith}
use nba_games_service.Calendar.{
  Civil, civil, IsValid, ordinal, days_in_month, days_before_year, days_before_month, days_in_year,
}
use nba_games_service.Calendar.Order.{ltb-ordinal}
use nba_games_service.Calendar.Layout.{HasFourDigits, last_day}

abbrev last_date : Civil
last_date = civil 9999 12 31

last_date-IsValid : IsValid last_date
unfolding days_in_month
last_date-IsValid = record {
  month_low = omega arith;
  month_high = omega arith;
  day_low = omega arith;
  day_high = omega arith;
}

ordinal-last_date : ordinal last_date ≡ last_day
unfolding ordinal days_before_year days_before_month days_in_year days_in_month
ordinal-last_date = refl

day_bound : (c : Civil) → IsValid c → c.day ≤ 31
unfolding days_in_month
day_bound c v = ground (arith, v.day_high)

pub ordinal_bound : (c : Civil) → IsValid c → HasFourDigits c → ordinal c ≤ last_day
ordinal_bound c v small = ground (
  arith,
  ltb-ordinal last_date c last_date-IsValid v,
  ordinal-last_date,
  v.month_high,
  day_bound c v,
)
