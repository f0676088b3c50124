-- ===== src/Snapshots/Writer/Unordered.antt =====
-- Snapshots without the order of their games, which WriteGamesSnapshot of writer.go sorts by their ids
-- with `sort.Slice`.
use mathlib.Core.HLevel.{hedberg}
use mathlib.Core.List.Perm
use mathlib.Core.List.{Perm}
use mathlib.Core.Quot
use mathlib.Core.Quot.{Quot, Quot-set}
use nba_games_service.Base.{
  String, Option, some, ◌≡◌, refl, sym, ap, subst, ◌∙◌, str_eq, if◌then◌else◌, false, none,
}
use nba_games_service.Base.Sort.{sort_by-perm}
use nba_games_service.Base.Sort.Unique.{Coherent, Coherent-perm, sort_by-eq_of_perm}
use nba_games_service.Calendar.{parse_date}
use nba_games_service.Domain.{
  Game, TodayResponse, TodayResponse-discrete, String-discrete, ℤ-discrete,
}
use nba_games_service.Errors.{Result, ok, err}
use nba_games_service.Snapshots.Disk.{Disk}
use nba_games_service.Snapshots.Files.{Env, Io}
use nba_games_service.Snapshots.Store.{load_games}
use nba_games_service.Snapshots.Store.Reading.{load_games-write_games_snapshot}
use nba_games_service.Snapshots.Writer.{
  Writer, kind_games, prepared, write_snapshot, write_games_snapshot, is_expired, cutoff_day,
}
use nba_games_service.Snapshots.Writer.Pruning.{games_path}

-- Games of one id are one game.
abbrev pub IsCoherent : TodayResponse → Type 0
IsCoherent s = Coherent (λ g. g.id) s.games

-- The same date, and the same games in any order.
abbrev pub SameGames : TodayResponse → TodayResponse → Type 0
SameGames s t = (s.date ≡ t.date) × Perm s.games t.games

pub prepared-SameGames :
    (date : String) (s t : TodayResponse)
    → IsCoherent s
    → SameGames s t
    → prepared date s ≡ prepared date t
unfolding prepared
prepared-SameGames date s t c (e, p) = rw (e, sort_by-eq_of_perm (λ g. g.id) c p) refl

abbrev pub CoherentResponse : Type 0
CoherentResponse = (s : TodayResponse) × IsCoherent s

-- A snapshot, without the order of its games.
abbrev pub Unordered : Type 0
Unordered = Quot (λ (a b : CoherentResponse). SameGames a.0 b.0)

abbrev pub unordered : (s : TodayResponse) → IsCoherent s → Unordered
unordered s c = Quot.mk (s, c)

pub TodayResponse-set : IsSet TodayResponse
TodayResponse-set = hedberg TodayResponse-discrete

unfoldable pub prepared_unordered : String → Unordered → TodayResponse
prepared_unordered date =
    Quot.lift TodayResponse-set (λ a. prepared date a.0)
      (λ a b h. prepared-SameGames date a.0 b.0 a.1 h)

-- A write on the abstract view.
abbrev pub write_unordered : Env → Option Writer → String → Unordered → Io (Unit {0})
write_unordered env w date u = write_snapshot env w kind_games date (prepared_unordered date u)

-- What is left of a snapshot when it is stored: its date is filled in.
abbrev pub fill : String → TodayResponse → TodayResponse
fill date s = record s { date = if str_eq s.date "" then date else s.date }

unfoldable pub fill_unordered : String → Unordered → Unordered
fill_unordered date =
    Quot.lift Quot-set (λ a. unordered (fill date a.0) a.1)
      (λ a b h. Quot.sound (ap (λ d. if str_eq d "" then date else d) h.0, h.1))

-- What a provider's order of the games may change of a write: nothing, if games of one id are one
-- game.
pub write_games_snapshot-SameGames :
    (env : Env) (w : Option Writer) (date : String) (s t : TodayResponse) (d : Disk)
    → IsCoherent s
    → SameGames s t
    → write_games_snapshot env w date s d ≡ write_games_snapshot env w date t d
unfolding write_games_snapshot
write_games_snapshot-SameGames env w date s t d c h =
    ap (λ p. write_snapshot env w kind_games date p d) (prepared-SameGames date s t c h)

-- What loads, without its order, is what was stored.
abbrev pub Loads : String → Unordered → Result TodayResponse → Type 0
Loads date u (ok r) = (c : IsCoherent r) × (unordered r c ≡ fill_unordered date u)
Loads date u (err e) = ⊥

prepared-fill :
    (date : String) (a : CoherentResponse) → Loads date (Quot.mk a) (ok (prepared date a.0))
unfolding prepared fill_unordered
prepared-fill date (s, c) =
    let p = sort_by-perm (λ g. g.id) s.games in
    (Coherent-perm (λ g. g.id) (Perm.symm p) c, Quot.sound (refl, p))

pub Game-discrete : Discrete Game
Game-discrete = hlevel (String-discrete, ℤ-discrete)

IsCoherent-prop : (r : TodayResponse) → IsProp (IsCoherent r)
IsCoherent-prop r = hlevel (hedberg Game-discrete)

Loads-prop : (date : String) (u : Unordered) (r : Result TodayResponse) → IsProp (Loads date u r)
Loads-prop date u (ok r) = hlevel (IsCoherent-prop r, Quot-set)
Loads-prop date u (err e) = hlevel

pub write_unordered-mk :
    (env : Env) (w : Option Writer) (date : String) (s : TodayResponse) (c : IsCoherent s)
    → write_unordered env w date (unordered s c) ≡ write_games_snapshot env w date s
unfolding prepared_unordered write_games_snapshot
write_unordered-mk env w date s c = refl

-- Take a snapshot without the order of its games, where games of one id are one game. Writing it is
-- writing it with its games in any order; and what a write stores under a date in the retention
-- window, if the file can be read, loads as the same snapshot with its date filled in, in some order
-- of its games.
pub load_games-write_unordered :
    (env reader : Env) (w : Writer) (date : String) (u : Unordered) (d d' : Disk)
    → write_unordered env (some w) date u d ≡ (ok tt, d')
    → is_expired (cutoff_day env w) (parse_date date) ≡ false
    → reader.read_error (games_path w date) ≡ none
    → ((s : TodayResponse) (c : IsCoherent s)
        → u ≡ unordered s c
        → write_games_snapshot env (some w) date s d ≡ (ok tt, d'))
      × Loads date u (load_games reader (some w.base_path) date d')
load_games-write_unordered env reader w date u d d' e live readable = (
  λ s c same.
      ap (λ f. f d) (sym (write_unordered-mk env (some w) date s c))
      ∙ ap (λ v. write_unordered env (some w) date v d) (sym same)
      ∙ e,
  Quot.ind
      {β = λ u.
        write_unordered env (some w) date u d ≡ (ok tt, d')
        → Loads date u (load_games reader (some w.base_path) date d')}
      (λ u. hlevel (Loads-prop date u (load_games reader (some w.base_path) date d')))
      (λ a h.
        let loaded =
          load_games-write_games_snapshot env reader w date a.0 d d'
            (ap (λ f. f d) (sym (write_unordered-mk env (some w) date a.0 a.1)) ∙ h) live
            readable in
        subst (Loads date (Quot.mk a)) (sym loaded) (prepared-fill date a))
      u e,
)
