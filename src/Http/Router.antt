-- ===== src/Http/Router.antt =====
-- internal/http/router.go, the admin route of internal/server/server.go, and the part of
-- `http.ServeMux` that they use: a path that is not clean is redirected to the clean one.
use nba_games_service.Base.{
  String, Bool, true, ◌&&◌, ◌||◌, ◌≡◌, ◌⊎◌, str_eq, not, if◌then◌else◌, arith, eq_iff,
}
use nba_games_service.Base.Strings.{has_prefix}

pub data Route : Type 0 where
  to_handler to_admin not_routed : Route
  redirect : String → Route

-- The patterns of NewRouter.
unfoldable pub is_routed : String → Bool
is_routed path =
    str_eq path "/health"
    || str_eq path "/ready"
    || str_eq path "/games"
    || has_prefix "/games/" path

abbrev pub admin_path : String
admin_path = "/admin/snapshots/refresh"

-- `clean` is the cleaning of `http.ServeMux`, and `token` the configured admin token: with none, the
-- admin route is not there.
unfoldable pub route : (String → String) → String → String → Route
route clean token path =
    if not (str_eq (clean path) path)
    then redirect (clean path)
    else if is_routed path
    then to_handler
    else if not (str_eq token "") && str_eq path admin_path
    then to_admin
    else not_routed

-- A path that the router passes to the handler is one of the four that the handler tells apart, so
-- its own "not found" is never an answer of the service.
pub route-handler :
    (clean : String → String) (token path : String)
    → route clean token path ≡ to_handler
    → (path ≡ "/health")
      ⊎ (path ≡ "/ready")
      ⊎ (path ≡ "/games")
      ⊎ (has_prefix "/games/" path ≡ true)
unfolding route is_routed
route-handler clean token path e =
    ground (arith, eq_iff path "/health", eq_iff path "/ready", eq_iff path "/games")

-- Without an admin token, no path leads to the admin handler.
pub route-closed : (clean : String → String) (path : String) → (route clean "" path ≡ to_admin) → ⊥
unfolding route
route-closed clean path e = ground arith
