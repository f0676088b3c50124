-- ===== src/Snapshots/Disk.antt =====
-- What internal/snapshots uses of `os` and `encoding/json`: files under a base path, which hold
-- documents, and operations that may fail.
use nba_games_service.Base.{
  ℕ, String, Bool, true, false, ◌&&◌, Option, none, some, List, [], ◌∷◌, str_eq, if◌then◌else◌, ◌≡◌,
  refl, arith, eq_iff, ◌↔◌,
}
use nba_games_service.Calendar.{Time}
use nba_games_service.Domain.{TodayResponse, TodayResponse-discrete}

-- A cleaned path: `base` is the base path, `dir` is empty for the base path itself, and no part
-- holds a separator.
pub record FilePath : Type 0 where
  pub base : String
  pub dir : String
  pub name : String

abbrev pub path : String → String → String → FilePath
path b d n = record { base = b; dir = d; name = n }

unfoldable pub path_eq : FilePath → FilePath → Bool
path_eq p q = str_eq p.name q.name && str_eq p.dir q.dir && str_eq p.base q.base

pub record Manifest : Type 0 where
  pub version : ℕ
  pub generated_at : Time
  pub retention_games_days : ℕ
  pub games_dates : List String
  pub games_last_refreshed : Time

-- A file's bytes. The first two are what `json.MarshalIndent` makes; any other text is `foreign`,
-- with what decoding it as a snapshot and as a manifest gives.
pub data Document : Type 0 where
  snapshot_json : TodayResponse → Document
  manifest_json : Manifest → Document
  foreign : String → Option TodayResponse → Option Manifest → Document

unfoldable pub decode_snapshot : Document → Option TodayResponse
decode_snapshot (snapshot_json s) = some s
decode_snapshot (manifest_json m) = none
decode_snapshot (foreign t s m) = s

unfoldable pub decode_manifest : Document → Option Manifest
decode_manifest (snapshot_json s) = none
decode_manifest (manifest_json m) = some m
decode_manifest (foreign t s m) = m

-- `bytes.Equal(existing, data)`, where `data` is the JSON of a snapshot.
unfoldable pub same_bytes : Document → TodayResponse → Bool
same_bytes (snapshot_json s) t = elim (TodayResponse-discrete s t) [ yes _ ↦ true | no _ ↦ false ]
same_bytes (manifest_json m) t = false
same_bytes (foreign x s m) t = false

-- `folder` is a directory that is not empty.
pub data Node : Type 0 where
  file : Document → Node
  folder : Node

abbrev pub Disk : Type 0
Disk = List (FilePath × Node)

unfoldable pub find_node : FilePath → Disk → Option Node
find_node p [] = none
find_node p ((q, n) ∷ d) = if path_eq q p then some n else find_node p d

unfoldable pub put_node : FilePath → Node → Disk → Disk
put_node p n [] = (p, n) ∷ []
put_node p n ((q, m) ∷ d) = if path_eq q p then (p, n) ∷ d else (q, m) ∷ put_node p n d

unfoldable pub drop_node : FilePath → Disk → Disk
drop_node p [] = []
drop_node p ((q, m) ∷ d) = let rest = drop_node p d in if path_eq q p then rest else (q, m) ∷ rest

pub path_eq_iff : (p q : FilePath) → (path_eq p q ≡ true) ↔ (p ≡ q)
unfolding path_eq
path_eq_iff p q = (
  λ h. ground (arith, eq_iff p.name q.name, eq_iff p.dir q.dir, eq_iff p.base q.base),
  λ e. ground (arith, eq_iff p.name q.name, eq_iff p.dir q.dir, eq_iff p.base q.base),
)

pub find_node-put_node :
    (p q : FilePath) (n : Node) (d : Disk)
    → find_node q (put_node p n d) ≡ (if path_eq p q then some n else find_node q d)
unfolding find_node put_node
find_node-put_node p q n [] = refl
find_node-put_node p q n ((r, m) ∷ d) =
    ground (arith, path_eq_iff p q, path_eq_iff r p, path_eq_iff r q, find_node-put_node p q n d)

pub find_node-drop_node :
    (p q : FilePath) (d : Disk)
    → find_node q (drop_node p d) ≡ (if path_eq p q then none else find_node q d)
unfolding find_node drop_node
find_node-drop_node p q [] = ground arith
find_node-drop_node p q ((r, m) ∷ d) =
    ground (arith, path_eq_iff p q, path_eq_iff r p, path_eq_iff r q, find_node-drop_node p q d)
