-- ===== src/Base/Assoc.antt =====
-- Go maps keyed by texts, as association lists with one entry to a key.
use mathlib.Core.Path.{◌≡◌, refl}
use mathlib.Core.Option.{Option, none, some}
use mathlib.Core.List.{List, [], ◌∷◌, map}
use native.Mathlib.Omega.{arith}
use Prim.Native.String.{String}
use text.Mathlib.TextEquality.{eq_iff}
use nba_games_service.Base.Tests.{if◌then◌else◌}
use nba_games_service.Base.Text.{str_eq}

module _ {ℓ} {V : Type ℓ} where
  unfoldable pub lookup : String → List (String × V) → Option V
  lookup key [] = none
  lookup key ((name, old) ∷ rest) = if str_eq name key then some old else lookup key rest

  unfoldable pub insert : String → V → List (String × V) → List (String × V)
  insert key new [] = (key, new) ∷ []
  insert key new ((name, old) ∷ rest) =
      if str_eq name key then (key, new) ∷ rest else (name, old) ∷ insert key new rest

  pub lookup-insert :
      (key asked : String) (new : V) (entries : List (String × V))
      → lookup asked (insert key new entries)
        ≡ (if str_eq key asked then some new else lookup asked entries)
  unfolding lookup insert
  lookup-insert key asked new [] = refl
  lookup-insert key asked new ((name, old) ∷ rest) = ground (
    arith,
    lookup-insert key asked new rest,
    eq_iff name asked,
    eq_iff name key,
    eq_iff key asked,
  )

  abbrev pub keys : List (String × V) → List String
  keys = map λ e. e.0
