-- ===== src/Http/Handlers/Window.antt =====
-- Which dates `/games` answers.
use nba_games_service.Base.{
  ℕ, ◌+◌, ◌-◌, ◌≤◌, ◌≡◌, refl, sym, ap, ◌∙◌, true, false, ◌||◌, none, some, inl, inr, Bool-cases,
  if◌then◌else◌, ltb, arith, str_eq, str_lt, eq_iff,
}
use nba_games_service.Calendar.{Time, civil_of, parse_date, format_date, read_two}
use nba_games_service.Calendar.Layout.{
  last_day, str_lt-format_date, parse_date-format_date, parse_date_inv,
}
use nba_games_service.Calendar.Order.{civil_of-ordinal}
use nba_games_service.Calendar.Range.{ordinal_bound}
use nba_games_service.Calendar.{Civil, ordinal, format_civil}
use nba_games_service.Domain.{TodayResponse}
use nba_games_service.Errors.{Result, ok, err}
use nba_games_service.Base.{Option, inl, inr, Bool-cases, ap, sym, ◌∙◌, ◌||◌}
use nba_games_service.Http.Handlers.{games_between}
use nba_games_service.Http.Messages.{Request, write_error, require_method}
use nba_games_service.Http.Handlers.{Handler, games_today, respond_games, load_snapshot}
use nba_games_service.Snapshots.Disk.{Disk}
use nba_games_service.Snapshots.Files.{Env}

parse_date-empty : parse_date "" ≡ none
unfolding parse_date read_two
parse_date-empty = refl

format_date-nonempty : (n : ℕ) → n ≤ last_day → str_eq (format_date n) "" ≡ false
format_date-nonempty n h = elim (Bool-cases (str_eq (format_date n) "")) [
  | inl e ↦
      let bad : some (civil_of n) ≡ none =
        sym (parse_date-format_date n h)
        ∙ ap parse_date ((eq_iff (format_date n) "").0 e)
        ∙ parse_date-empty in
      cc
  | inr e ↦ e
]

module _ (env : Env) (h : Handler) (disk : Disk) (now : Time) (r : Request) where
  -- For a GET of the printed date of a day, with the week on either side of today in years 0 to
  -- 9999, the answer is the snapshot of that date, or that there is none, if the day is at most 7
  -- days from today, and a refusal if it is not.
  pub games_today-window :
      (n : ℕ)
      → str_eq r.method "GET" ≡ true
      → r.date ≡ format_date n
      → n ≤ last_day
      → 7 ≤ h.loc now
      → h.loc now + 7 ≤ last_day
      → games_today env h disk now r ≡ (
          if ltb (n + 7) (h.loc now) || ltb (h.loc now + 7) n
          then write_error r 400 "date must be within 7 days of today"
          else respond_games env h disk r (load_snapshot env h disk r.date))
  unfolding games_today require_method
  games_today-window n get e small early late =
      let day = h.loc now in
      let below : str_lt r.date (format_date (day - 7)) ≡ ltb (n + 7) day =
        ap (λ x. str_lt x (format_date (day - 7))) e
        ∙ str_lt-format_date n (day - 7) small (omega arith)
        ∙ ground arith in
      let above : str_lt (format_date (day + 7)) r.date ≡ ltb (day + 7) n =
        ap (str_lt (format_date (day + 7))) e ∙ str_lt-format_date (day + 7) n late small in
      let dated : str_eq r.date "" ≡ false =
        ap (λ x. str_eq x "") e ∙ format_date-nonempty n small in
      let parsed : parse_date r.date ≡ some (civil_of n) =
        ap parse_date e ∙ parse_date-format_date n small in
      rw (get, dated, parsed, below, above) refl

  -- What stands behind an answer 200: the date is the printed one of day `day`, at most 7 days from
  -- today, and its snapshot loads.
  pub record Served : Type 0 where
    pub got : str_eq r.method "GET" ≡ true
    pub day : ℕ
    pub dated : r.date ≡ format_date day
    pub low : h.loc now ≤ day + 7
    pub high : day ≤ h.loc now + 7
    pub snap : TodayResponse
    pub loaded : load_snapshot env h disk r.date ≡ ok snap

  loads :
      (x : Result TodayResponse)
      → load_snapshot env h disk r.date ≡ x
      → (respond_games env h disk r x).status ≡ 200
      → (snap : TodayResponse) × (load_snapshot env h disk r.date ≡ ok snap)
  unfolding write_error
  loads (err e) l k = absurd (omega (arith, k))
  loads (ok snap) l k = (snap, l)

  served :
      str_eq r.method "GET" ≡ true
      → 7 ≤ h.loc now
      → h.loc now + 7 ≤ last_day
      → (c : Option Civil) → parse_date r.date ≡ c
      → (games_between env h disk r (h.loc now) c).status ≡ 200
      → Served
  unfolding write_error
  served get early late none e k = absurd (omega (arith, k))
  served get early late (some c) e k =
      let (same, valid, four) = parse_date_inv r.date c e in
      let n = ordinal c in
      let today = h.loc now in
      let small = ordinal_bound c valid four in
      let dated : r.date ≡ format_date n =
        unfold format_date in sym same ∙ ap format_civil (sym (civil_of-ordinal c valid)) in
      let below : str_lt r.date (format_date (today - 7)) ≡ ltb n (today - 7) =
        ap (λ x. str_lt x (format_date (today - 7))) dated
        ∙ str_lt-format_date n (today - 7) small (omega arith) in
      let above : str_lt (format_date (today + 7)) r.date ≡ ltb (today + 7) n =
        ap (str_lt (format_date (today + 7))) dated ∙ str_lt-format_date (today + 7) n late small in
      elim (Bool-cases
        (str_lt r.date (format_date (today - 7)) || str_lt (format_date (today + 7)) r.date)) [
          | inl p ↦ let bad : 400 ≡ 200 = rw p at k in absurd (omega (arith, bad))
          | inr p ↦
              let (snap, l) = loads (load_snapshot env h disk r.date) refl (rw p at k) in
              record {
                got = get;
                day = n;
                dated = dated;
                low = ground (arith, p, below);
                high = ground (arith, p, above);
                snap = snap;
                loaded = l;
              }
        ]

  -- With the week on either side of today in years 0 to 9999, an answer 200 means that the request
  -- was a GET, that its date is the printed one of a day at most 7 days from today, and that the
  -- snapshot of that date loads.
  pub games_today-Served :
      7 ≤ h.loc now
      → h.loc now + 7 ≤ last_day
      → (games_today env h disk now r).status ≡ 200
      → Served
  unfolding games_today require_method write_error
  games_today-Served early late k = elim (Bool-cases (str_eq r.method "GET")) [
    | inr m ↦ let bad : 405 ≡ 200 = rw m at k in absurd (omega (arith, bad))
    | inl m ↦ elim (Bool-cases (str_eq r.date "")) [
      | inl e ↦ let bad : 400 ≡ 200 = rw (m, e) at k in absurd (omega (arith, bad))
      | inr e ↦ served m early late (parse_date r.date) refl (rw (m, e) at k)
    ]
  ]
