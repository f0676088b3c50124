-- ===== src/Snapshots/Sync/Dates.antt =====
-- Which dates a backfill fetches.
use nba_games_service.Base.{
  ℕ, zero, suc, ◌+◌, ◌-◌, ◌≤◌, ◌≡◌, refl, sym, ap, ◌∙◌, String, Bool, true, not, ◌&&◌, ◌||◌, Option,
  some, List, [], ◌∷◌, ◌++◌, Bool-cases, inl, inr, str_eq, eq_iff, ltb, leb, ◌==◌, ==_iff, arith,
}
use nba_games_service.Calendar.{ordinal, civil_of, parse_date, format_date}
use nba_games_service.Calendar.Ordinal.{civil_of-Dates}
use nba_games_service.Calendar.Layout.{last_day, parse_date-format_date}
use nba_games_service.Snapshots.Disk.{Disk}
use nba_games_service.Snapshots.Files.{Env}
use nba_games_service.Snapshots.Writer.{Writer, contains_date}
use nba_games_service.Snapshots.Sync.{Schedule, has_snapshot, past_dates, future_dates, build_dates}

format_date-injective :
    (m n : ℕ) → m ≤ last_day → n ≤ last_day → format_date m ≡ format_date n → m ≡ n
format_date-injective m n h k e =
    let p : some (civil_of m) ≡ some (civil_of n) =
      sym (parse_date-format_date m h) ∙ ap parse_date e ∙ parse_date-format_date n k in
    let q : civil_of m ≡ civil_of n = cc in
    sym (civil_of-Dates m).1 ∙ ap ordinal q ∙ (civil_of-Dates n).1

str_eq-format_date :
    (m n : ℕ) → m ≤ last_day → n ≤ last_day → str_eq (format_date m) (format_date n) ≡ (m == n)
str_eq-format_date m n h k = elim (Bool-cases (m == n)) [
  | inl p ↦ let e = (==_iff m n).0 p in p2 e ∙ sym p
  | inr p ↦ elim (Bool-cases (str_eq (format_date m) (format_date n))) [
    | inl s ↦
        let e = format_date-injective m n h k ((eq_iff (format_date m) (format_date n)).0 s) in
        ground (arith, e)
    | inr s ↦ s ∙ sym p
  ]
]
  where
    p2 : m ≡ n → str_eq (format_date m) (format_date n) ≡ true
    p2 e = (eq_iff (format_date m) (format_date n)).1 (ap format_date e)

contains_date-append :
    (xs ys : List String) (x : String)
    → contains_date (xs ++ ys) x ≡ (contains_date xs x || contains_date ys x)
unfolding contains_date
contains_date-append [] ys x = refl
contains_date-append (y ∷ xs) ys x = ground (arith, contains_date-append xs ys x)

module _ (missing : String → Bool) (day : ℕ) where
  contains_date-past_dates :
      (left i n : ℕ)
      → i + left ≤ day + 1
      → day ≤ last_day
      → n ≤ last_day
      → contains_date (past_dates missing day left i) (format_date n)
        ≡ (leb (n + i) day && ltb day (n + i + left) && missing (format_date n))
  unfolding past_dates contains_date
  contains_date-past_dates zero i n h k l = ground arith
  contains_date-past_dates (suc left) i n h k l =
      let e = str_eq-format_date (day - i) n (omega arith) l in
      let ih = contains_date-past_dates left (i + 1) n (omega arith) k l in
      elim (Bool-cases (day - i == n)) [
        | inl p ↦
            let q : format_date (day - i) ≡ format_date n =
              ap format_date ((==_iff (day - i) n).0 p) in
            ground (arith, e, ih, p, ap missing q)
        | inr p ↦ ground (arith, e, ih, p)
      ]

  contains_date-future_dates :
      (left i n : ℕ)
      → day + i + left ≤ last_day + 1
      → n ≤ last_day
      → contains_date (future_dates missing day left i) (format_date n)
        ≡ (leb (day + i) n && ltb n (day + i + left) && missing (format_date n))
  unfolding future_dates contains_date
  contains_date-future_dates zero i n h l = ground arith
  contains_date-future_dates (suc left) i n h l =
      let e = str_eq-format_date (day + i) n (omega arith) l in
      let ih = contains_date-future_dates left (i + 1) n (omega arith) l in
      elim (Bool-cases (day + i == n)) [
        | inl p ↦
            let q : format_date (day + i) ≡ format_date n =
              ap format_date ((==_iff (day + i) n).0 p) in
            ground (arith, e, ih, p, ap missing q)
        | inr p ↦ ground (arith, e, ih, p)
      ]

-- With the days of the schedule in years 0 to 9999, a backfill fetches a day exactly if it is today
-- or yesterday, or if it is less than `days` days back and at most `future_days` days ahead and has
-- no snapshot.
pub contains_date-build_dates :
    (env : Env) (w : Option Writer) (s : Schedule) (day : ℕ) (d : Disk) (n : ℕ)
    → 1 ≤ day
    → s.days ≤ day
    → day + s.future_days ≤ last_day
    → n ≤ last_day
    → contains_date (build_dates env w s day d) (format_date n) ≡ (
        (n == day)
        || (n + 1 == day)
        || ((ltb day (n + s.days) && leb n (day + s.future_days))
            && not (has_snapshot env w (format_date n) d)))
unfolding build_dates contains_date
contains_date-build_dates env w s day d n h p f l =
    let missing = λ (date : String). not (has_snapshot env w date d) in
    ground (
      arith,
      str_eq-format_date day n (omega arith) l,
      str_eq-format_date (day - 1) n (omega arith) l,
      contains_date-append (past_dates missing day (s.days - 2) 2)
          (future_dates missing day s.future_days 1) (format_date n),
      contains_date-past_dates missing day (s.days - 2) 2 n (omega arith) (omega arith) l,
      contains_date-future_dates missing day s.future_days 1 n (omega arith) l,
    )
