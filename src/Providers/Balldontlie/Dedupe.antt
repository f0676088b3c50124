-- ===== src/Providers/Balldontlie/Dedupe.antt =====
-- `dedupe` of client.go.
pub mod Unique
use nba_games_service.Base.{none, some, List, [], ◌∷◌, String}
use nba_games_service.Base.Assoc.{lookup, insert, keys}
use nba_games_service.Base.Sort.{sort_by, sort_strings}

module _ {ℓ} {T : Type ℓ} (id_of : T → String) where
  -- The map, after each item is put under its id.
  unfoldable pub by_id : List T → List (String × T) → List (String × T)
  by_id [] unique = unique
  by_id (x ∷ xs) unique = by_id xs (insert (id_of x) x unique)

  -- The items of the map under a list of ids.
  unfoldable pub pick : List (String × T) → List String → List T
  pick unique [] = []
  pick unique (id ∷ ids) =
      let rest = pick unique ids in elim (lookup id unique) [ some x ↦ x ∷ rest | none ↦ rest ]

  unfoldable pub dedupe : List T → List T
  unfolding by_id pick
  dedupe items = let unique = by_id items [] in pick unique (sort_strings (keys unique))
