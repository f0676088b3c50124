-- ===== src/Calendar/Layout.antt =====
-- The layout "2006-01-02": printing and parsing are inverse, and the texts are ordered as the days.
use Prim.Native.Char.{Char, code}
use Prim.Native.String.{[], ◌∷◌}
use mathlib.Core.Path.{ap₂}
use text.Mathlib.TextEquality.{Char-path}
use nba_games_service.Base.{
  ◌∙◌, sym, ℕ, ◌+◌, ◌-◌, ◌*◌, ◌/◌, ◌%◌, ◌≤◌, ◌<◌, ◌≡◌, refl, subst, arith, true, false, ltb,
  Bool-cases, ltb→lt, inl, inr, String, Option, some, none, str_lt, compare-cons_cons,
  if◌then◌else◌,
}
use nba_games_service.Calendar.{
  Civil, civil, IsValid, days_in_month, days_in_year, days_before_year, ordinal, civil_of, pad_two,
  format_civil, format_date, read_two, read_dash, check_civil, parse_date, ◌>>=◌,
}
use nba_games_service.Base.Decimal.{digit, is_digit, code-digit, digit-code, is_digit_bounds}
use nba_games_service.Calendar.Ordinal.{ordinal_lem, civil_of-Dates}
use nba_games_service.Calendar.Order.{civil_lt, ltb-ordinal, days_before_year_mono}

read_two-pad_two : (n : ℕ) (s : String) → n < 100 → read_two (pad_two n s) ≡ some (n, s)
unfolding read_two pad_two
read_two-pad_two n s h =
    ground (arith, code-digit (n / 10) (omega arith), code-digit (n % 10) (omega arith))

read_dash-dash : (s : String) → read_dash ("-" ∷ s) ≡ some s
unfolding read_dash
read_dash-dash s = refl

abbrev pub HasFourDigits : Civil → Type 0
HasFourDigits c = c.year < 10000

check_civil_of_IsValid : (c : Civil) → IsValid c → check_civil c [] ≡ some c
unfolding check_civil
check_civil_of_IsValid c v = ground arith

days_in_month-le : (y m : ℕ) → days_in_month y m ≤ 31
unfolding days_in_month
days_in_month-le y m = ground arith

bind_some {ℓ κ} :
    {A : Type ℓ} {B : Type κ} {m : Option A} (f : A → Option B) (a : A) {r : Option B}
    → m ≡ some a
    → f a ≡ r
    → (m >>= f) ≡ r
bind_some f a e k = rw e k

-- Parsing a printed date gives the date back.
pub parse_date-format_civil :
    (c : Civil) → IsValid c → HasFourDigits c → parse_date (format_civil c) ≡ some c
unfolding format_civil parse_date
parse_date-format_civil c v h = bind_some _ _ (read_two-pad_two (c.year / 100) _ (omega arith)) (
    bind_some _ _ (read_two-pad_two (c.year % 100) _ (omega arith)) (
      bind_some _ _ (read_dash-dash _) (
        bind_some _ _ (read_two-pad_two c.month _ (omega arith)) (
          bind_some _ _ (read_dash-dash _) (
            bind_some _ _
              (read_two-pad_two c.day [] (omega (arith, days_in_month-le c.year c.month)))
              (let e : c.year / 100 * 100 + c.year % 100 ≡ c.year = omega arith in
                rw e (check_civil_of_IsValid c v)))))))

str_lt-digit :
    (a b : ℕ) (s t : String)
    → a < 10
    → b < 10
    → str_lt (digit a ∷ s) (digit b ∷ t)
      ≡ (if ltb a b then true else if ltb b a then false else str_lt s t)
str_lt-digit a b s t h k =
    ground (arith, compare-cons_cons (digit a) (digit b) s t, code-digit a h, code-digit b k)

str_lt-pad_two :
    (a b : ℕ) (s t : String)
    → a < 100
    → b < 100
    → str_lt (pad_two a s) (pad_two b t)
      ≡ (if ltb a b then true else if ltb b a then false else str_lt s t)
unfolding pad_two
str_lt-pad_two a b s t h k =
    rw
      (
        str_lt-digit (a / 10) (b / 10) _ _ (omega arith) (omega arith),
        str_lt-digit (a % 10) (b % 10) s t (omega arith) (omega arith),
      )
      (ground arith)

str_lt-dash : (s t : String) → str_lt ("-" ∷ s) ("-" ∷ t) ≡ str_lt s t
str_lt-dash s t = ground (arith, compare-cons_cons "-" "-" s t)

-- Printed dates are ordered, as texts, as the dates are.
pub str_lt-format_civil :
    (a b : Civil)
    → IsValid a
    → IsValid b
    → HasFourDigits a
    → HasFourDigits b
    → str_lt (format_civil a) (format_civil b) ≡ civil_lt a b
unfolding format_civil
str_lt-format_civil a b v w h k =
    rw
      (
        str_lt-pad_two (a.year / 100) (b.year / 100) _ _ (omega arith) (omega arith),
        str_lt-pad_two (a.year % 100) (b.year % 100) _ _ (omega arith) (omega arith),
        str_lt-dash _ _,
        str_lt-pad_two a.month b.month _ _ (omega arith) (omega arith),
        str_lt-dash _ _,
        str_lt-pad_two a.day b.day [] [] (omega (arith, days_in_month-le a.year a.month))
            (omega (arith, days_in_month-le b.year b.month)),
      )
      (ground arith)

days_before_year_mono_le : (a b : ℕ) → a ≤ b → days_before_year a ≤ days_before_year b
days_before_year_mono_le a b h = elim (Bool-cases (ltb a b)) [
  | inl p ↦ omega (arith, days_before_year_mono a b (ltb→lt a b p))
  | inr p ↦ let e : a ≡ b = ground arith in rw e (omega arith)
]

abbrev pub last_day : ℕ
last_day = 3652424

-- The days up to 9999-12-31.
days_before_year-end : days_before_year 10000 ≡ 3652425
unfolding days_before_year days_in_year
days_before_year-end = refl

pub civil_of-HasFourDigits : (n : ℕ) → n ≤ last_day → HasFourDigits (civil_of n)
civil_of-HasFourDigits n h = elim (Bool-cases (ltb (civil_of n).year 10000)) [
  | inl p ↦ ltb→lt _ _ p
  | inr p ↦ absurd (too_late (civil_of n) (civil_of-Dates n).1 (ground arith))
]
  where
    too_late : (c : Civil) → ordinal c ≡ n → 10000 ≤ c.year → ⊥
    too_late c e late =
        omega
          (arith, ordinal_lem c, days_before_year-end, days_before_year_mono_le 10000 c.year late)

-- Printed days are ordered, as texts, as their numbers are.
pub str_lt-format_date :
    (m n : ℕ) → m ≤ last_day → n ≤ last_day → str_lt (format_date m) (format_date n) ≡ ltb m n
unfolding format_date
str_lt-format_date m n h k =
    let (v, e) = civil_of-Dates m in
    let (w, f) = civil_of-Dates n in
    str_lt-format_civil (civil_of m) (civil_of n) v w (civil_of-HasFourDigits m h)
      (civil_of-HasFourDigits n k)
    ∙ sym (ltb-ordinal (civil_of m) (civil_of n) v w)
    ∙ ap₂ ltb e f

-- Parsing a printed day gives its date.
pub parse_date-format_date : (n : ℕ) → n ≤ last_day → parse_date (format_date n) ≡ some (civil_of n)
unfolding format_date
parse_date-format_date n h =
    parse_date-format_civil (civil_of n) (civil_of-Dates n).0 (civil_of-HasFourDigits n h)

read_two_digits :
    (a b : Char) (rest : String)
    → is_digit a ≡ true
    → is_digit b ≡ true
    → let n = (code a - 48) * 10 + (code b - 48) in (a ∷ b ∷ rest ≡ pad_two n rest) × (n < 100)
unfolding pad_two
read_two_digits a b rest p q =
    let (lo, hi) = is_digit_bounds a p in
    let (lo', hi') = is_digit_bounds b q in
    let tens : ((code a - 48) * 10 + (code b - 48)) / 10 ≡ code a - 48 = omega arith in
    let units : ((code a - 48) * 10 + (code b - 48)) % 10 ≡ code b - 48 = omega arith in
    (rw (tens, units, digit-code a p, digit-code b q), omega arith)

read_two_inv :
    (s : String) (n : ℕ) (r : String) → read_two s ≡ some (n, r) → (s ≡ pad_two n r) × (n < 100)
unfolding read_two
read_two_inv [] n r e = cc
read_two_inv (a ∷ []) n r e = cc
read_two_inv (a ∷ b ∷ rest) n r e = ground (arith, read_two_digits a b rest)

read_dash_inv : (s r : String) → read_dash s ≡ some r → s ≡ "-" ∷ r
unfolding read_dash
read_dash_inv [] r e = cc
read_dash_inv (c ∷ rest) r e = ground (arith, Char-path c "-")

check_civil_inv :
    (c d : Civil) (s : String) → check_civil c s ≡ some d → (s ≡ []) × (c ≡ d) × IsValid d
unfolding check_civil
check_civil_inv c d [] e = ground arith
check_civil_inv c d (x ∷ s) e = cc

bind_inv {ℓ κ} :
    {A : Type ℓ} {B : Type κ} (m : Option A) (f : A → Option B) {b : B}
    → (m >>= f) ≡ some b
    → (a : A) × (m ≡ some a) × (f a ≡ some b)
bind_inv none f e = cc
bind_inv (some a) f e = (a, refl, e)

format_of_parts :
    (y1 y2 m d : ℕ) (s s1 s2 s3 s4 s5 s6 : String) (c : Civil)
    → s ≡ pad_two y1 s1
    → s1 ≡ pad_two y2 s2
    → s2 ≡ "-" ∷ s3
    → s3 ≡ pad_two m s4
    → s4 ≡ "-" ∷ s5
    → s5 ≡ pad_two d s6
    → s6 ≡ []
    → y1 < 100
    → y2 < 100
    → civil (y1 * 100 + y2) m d ≡ c
    → (format_civil c ≡ s) × HasFourDigits c
unfolding format_civil
format_of_parts y1 y2 m d s s1 s2 s3 s4 s5 s6 c p1 p2 p3 p4 p5 p6 p7 h k e =
    let hi : (y1 * 100 + y2) / 100 ≡ y1 = omega arith in
    let lo : (y1 * 100 + y2) % 100 ≡ y2 = omega arith in
    subst (λ x. (format_civil x ≡ s) × HasFourDigits x) e
      (rw (hi, lo, p1, p2, p3, p4, p5, p6, p7), omega arith)

-- A text that parses is the one that its date prints as, and the date is in the calendar and has a
-- year of at most four digits.
pub parse_date_inv :
    (s : String) (c : Civil)
    → parse_date s ≡ some c
    → (format_civil c ≡ s) × IsValid c × HasFourDigits c
unfolding parse_date format_civil
parse_date_inv s c e =
    let ((y1, s1), e1, f1) = bind_inv (read_two s) _ e in
    let ((y2, s2), e2, f2) = bind_inv (read_two s1) _ f1 in
    let (s3, e3, f3) = bind_inv (read_dash s2) _ f2 in
    let ((m, s4), e4, f4) = bind_inv (read_two s3) _ f3 in
    let (s5, e5, f5) = bind_inv (read_dash s4) _ f4 in
    let ((d, s6), e6, f6) = bind_inv (read_two s5) _ f5 in
    let (g6, gc, v) = check_civil_inv _ c s6 f6 in
    let (p1, q1) = read_two_inv s y1 s1 e1 in
    let (p2, q2) = read_two_inv s1 y2 s2 e2 in
    let (p4, q4) = read_two_inv s3 m s4 e4 in
    let (p6, q6) = read_two_inv s5 d s6 e6 in
    let (printed, four) =
      format_of_parts y1 y2 m d s s1 s2 s3 s4 s5 s6 c p1 p2 (read_dash_inv s2 s3 e3) p4
        (read_dash_inv s4 s5 e5) p6 g6 q1 q2 gc in
    (printed, v, four)
