-- ===== src/Snapshots/Overlap/Tests.antt =====
-- Two goroutines that share a writer of writer.go.
use nba_games_service.Base.{
  ℕ, ◌==◌, ◌⊎◌, Option, if◌then◌else◌, String, some, none, [], ◌≡◌, refl, arith, inl, inr, eq_iff,
}
use nba_games_service.Domain.{TodayResponse, new_today_response}
use nba_games_service.Snapshots.Disk.{
  Document, foreign, snapshot_json, Node, file, Disk, path_eq, find_node, put_node, drop_node,
}
use nba_games_service.Snapshots.Names.{tmp_name, json_name}
use nba_games_service.Snapshots.Writer.{Writer, prepared, write_games_snapshot, tmp_path}
use nba_games_service.Snapshots.Writer.Pruning.{games_path}
use nba_games_service.Snapshots.Overlap.{
  date_of, Moves, Pc, idle, entered, begins, opens, closes, renames, fails, System, set_pc, writing,
  renaming, updating, turn, Reach, start, later, at_rest, Distinct, Apart,
}
use nba_games_service.Snapshots.Files.{Env, healthy}
use nba_games_service.Errors.{ok}
use nba_games_service.Snapshots.Store.{load_games}
use nba_games_service.Snapshots.Overlap.Reading.{Fails, load_games-overlap}
use nba_games_service.Snapshots.Overlap.{Begun}
use nba_games_service.Snapshots.Overlap.Alone.{Returns, Moves-write_games_snapshot}
use nba_games_service.Snapshots.Overlap.Invariant.{Stored, overlap-whole}

abbrev writer : Writer
writer = record { base_path = "data"; retention_days = 7 }

abbrev half : Document
half = foreign "{" none none

abbrev first : String
first = "2024-01-15"

abbrev second : String
second = "2024-01-16"

abbrev empty_day : String → TodayResponse
empty_day date = new_today_response date []

abbrev moved : System → ℕ → Disk → Pc → System
moved s i d p = record { disk = d; pc = set_pc s.pc i p }

-- Both calls begin and open their files; the first is renamed, and the second fails half way.
abbrev s1 : System
s1 = moved (at_rest []) 0 [] (entered first (empty_day first))

abbrev s2 : System
s2 = moved s1 1 [] (entered second (empty_day second))

abbrev d3 : Disk
d3 = put_node (tmp_path (games_path writer first)) (file half) []

abbrev s3 : System
s3 = moved s2 0 d3 (writing first (empty_day first))

abbrev d4 : Disk
d4 = put_node (tmp_path (games_path writer second)) (file half) d3

abbrev s4 : System
s4 = moved s3 1 d4 (writing second (empty_day second))

abbrev whole : Node
whole = file (snapshot_json (prepared first (empty_day first)))

abbrev d5 : Disk
d5 = put_node (tmp_path (games_path writer first)) whole d4

abbrev s5 : System
s5 = moved s4 0 d5 (renaming first (empty_day first))

abbrev s6 : System
s6 = moved s5 1 d5 idle

abbrev d7 : Disk
d7 = put_node (games_path writer first) whole (drop_node (tmp_path (games_path writer first)) d5)

abbrev s7 : System
s7 = moved s6 0 d7 (updating first)

found : find_node (tmp_path (games_path writer first)) d5 ≡ some whole
unfolding find_node put_node path_eq tmp_name json_name
found = refl

abbrev run : Reach writer [] s7
run =
    later {s = s6}
      (later {s = s5}
        (later {s = s4}
          (later {s = s3}
            (later {s = s2}
              (later {s = s1}
                (later {s = at_rest []} start (turn 0 (begins first (empty_day first) refl)))
                (turn 1 (begins second (empty_day second) refl)))
              (turn 0 (opens half)))
            (turn 1 (opens half)))
          (turn 0 closes))
        (turn 1 fails))
      (turn 0 (renames whole found))

-- Goroutine 0 is on the first date only, and goroutine 1 on the second.
-- Goroutine 0 is on the first date only, and goroutine 1 on the second.
abbrev place : ℕ → Option String
place i = if i == 0 then some first else if i == 1 then some second else none

abbrev Keeps : System → Type 0
Keeps s = (i : ℕ) → (date_of (s.pc i) ≡ none) ⊎ (date_of (s.pc i) ≡ place i)

Keeps-moved :
    (s : System) (i : ℕ) (d : Disk) (p : Pc)
    → (date_of p ≡ none) ⊎ (date_of p ≡ place i)
    → Keeps s
    → Keeps (moved s i d p)
Keeps-moved s i d p h k j = ground (arith, k j)

Keeps-Distinct : (s : System) → Keeps s → Distinct s
Keeps-Distinct s k i j x e f = ground (arith, k i, k j, eq_iff first second)

k1 : Keeps s1
k1 = Keeps-moved (at_rest []) 0 [] (entered first (empty_day first)) (inr refl) (λ i. inl refl)

k2 : Keeps s2
k2 = Keeps-moved s1 1 [] (entered second (empty_day second)) (inr refl) k1

k3 : Keeps s3
k3 = Keeps-moved s2 0 d3 (writing first (empty_day first)) (inr refl) k2

k4 : Keeps s4
k4 = Keeps-moved s3 1 d4 (writing second (empty_day second)) (inr refl) k3

k5 : Keeps s5
k5 = Keeps-moved s4 0 d5 (renaming first (empty_day first)) (inr refl) k4

k6 : Keeps s6
k6 = Keeps-moved s5 1 d5 idle (inl refl) k5

k7 : Keeps s7
k7 = Keeps-moved s6 0 d7 (updating first) (inl refl) k6

apart : Apart run
unfolding Apart
apart = (
  (
    (
      (
        (((tt, Keeps-Distinct s1 k1), Keeps-Distinct s2 k2), Keeps-Distinct s3 k3),
        Keeps-Distinct s4 k4,
      ),
      Keeps-Distinct s5 k5,
    ),
    Keeps-Distinct s6 k6,
  ),
  Keeps-Distinct s7 k7,
)

overlap-whole_example : Stored run first (some whole)
unfolding find_node put_node drop_node path_eq tmp_name json_name
overlap-whole_example = overlap-whole run apart first

-- Two calls on one date share its temporary file: what the second has only begun to write is what
-- the first renames.
abbrev e3 : Disk
e3 = put_node (tmp_path (games_path writer first)) whole []

abbrev e5 : Disk
e5 = put_node (tmp_path (games_path writer first)) (file half) e3

abbrev torn_disk : Disk
torn_disk =
    put_node (games_path writer first) (file half)
      (drop_node (tmp_path (games_path writer first)) e5)

abbrev t2 : System
t2 = moved s1 0 e3 (writing first (empty_day first))

abbrev t3 : System
t3 =
    moved t2 0 (put_node (tmp_path (games_path writer first)) whole e3)
      (renaming first (empty_day first))

abbrev t4 : System
t4 = moved t3 1 t3.disk (entered first (empty_day first))

abbrev t5 : System
t5 = moved t4 1 e5 (writing first (empty_day first))

abbrev torn_run : Reach writer [] (moved t5 0 torn_disk (updating first))
unfolding find_node put_node path_eq tmp_name json_name
torn_run =
    later {s = t5}
      (later {s = t4}
        (later {s = t3}
          (later {s = t2}
            (later {s = s1}
              (later {s = at_rest []} start (turn 0 (begins first (empty_day first) refl)))
              (turn 0 (opens (snapshot_json (prepared first (empty_day first))))))
            (turn 0 closes))
          (turn 1 (begins first (empty_day first) refl)))
        (turn 1 (opens half)))
      (turn 0 (renames (file half) refl))

torn_when_shared : find_node (games_path writer first) torn_disk ≡ some (file half)
unfolding find_node put_node drop_node path_eq tmp_name json_name
torn_when_shared = refl

abbrev env : Env
env = record {
  mkdir_error = λ _ _. none;
  read_error = λ _. none;
  list_error = λ _ _. none;
  write_fault = λ _. healthy;
  rename_error = λ _ _. none;
  remove_error = λ _. none;
  stat_error = λ _. none;
  refreshed_at = 0;
  pruned_at = 0;
  generated_at = 0;
}

Moves-write_games_snapshot_example :
    let (result, after) = write_games_snapshot env (some writer) first (empty_day first) [] in
    (ms : Moves writer [] (entered first (empty_day first)) after idle) × Returns env result ms
Moves-write_games_snapshot_example =
    Moves-write_games_snapshot env writer first (empty_day first) [] refl

load_games-overlap_example :
    let out = load_games env (some writer.base_path) first s7.disk in
    (out ≡ load_games env (some writer.base_path) first [])
    ⊎ Fails out
    ⊎ ((t : TodayResponse) × Begun run first t × (out ≡ ok (prepared first t)))
load_games-overlap_example =
    load_games-overlap env writer first run apart (λ e. ground (arith, e, eq_iff first ""))
