-- ===== src/Calendar/Parsing.antt =====
-- ParseDate against FormatDate, in timeutil.go.
use mathlib.Core.Logic.{◌↔◌}
use nba_games_service.Base.{String, some, ◌≡◌, ◌∙◌, sym, ap, subst}
use nba_games_service.Calendar.{Civil, IsValid, ordinal, format_civil, format_date, parse_date}
use nba_games_service.Calendar.Order.{civil_of-ordinal}
use nba_games_service.Calendar.Layout.{HasFourDigits, parse_date-format_civil, parse_date_inv}

-- FormatDate prints the day of a date as the date.
format_date-ordinal : (c : Civil) → IsValid c → format_date (ordinal c) ≡ format_civil c
unfolding format_date
format_date-ordinal c v = ap format_civil (civil_of-ordinal c v)

-- A text parses as a date exactly if the date is in the calendar, its year has at most four digits,
-- and the text is what the day of the date prints as.
pub parse_date-format_date_iff :
    (s : String) (c : Civil)
    → (parse_date s ≡ some c) ↔ ((format_date (ordinal c) ≡ s) × IsValid c × HasFourDigits c)
parse_date-format_date_iff s c = (
  λ e.
      let (printed, v, four) = parse_date_inv s c e in (format_date-ordinal c v ∙ printed, v, four),
  λ (printed, v, four).
      subst (λ t. parse_date t ≡ some c) (sym (format_date-ordinal c v) ∙ printed)
        (parse_date-format_civil c v four),
)
