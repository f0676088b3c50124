-- ===== src/Logging.antt =====
-- internal/logging: what a logger is made of, and what is written to it. Output is left out.
use mathlib.Core.List.{append-nil, append_assoc}
use nba_games_service.Base.{
  ◌≡◌, refl, sym, Bool-cases, inl, inr, String, Bool, true, false, ◌||◌, Option, none, some, List,
  [], ◌∷◌, ◌++◌, str_eq, if◌then◌else◌,
}
use nba_games_service.Base.Strings.{trim_space, lowers_to}
use nba_games_service.Errors.{Error, error_text}

pub data Level : Type 0 where
  debug info warn error : Level

pub data Format : Type 0 where
  json text : Format

-- `Config`.
pub record LogConfig : Type 0 where
  pub level : String
  pub format : String
  pub service : String
  pub version : String

unfoldable pub parse_level : String → Level
parse_level raw =
    let name = trim_space raw in
    if lowers_to name "debug"
    then debug
    else if lowers_to name "warn" || lowers_to name "warning"
    then warn
    else if lowers_to name "error"
    then error
    else info

-- `buildHandler`: the format, the level, and whether the source is added.
pub record LogHandler : Type 0 where
  pub format : Format
  pub level : Level
  pub add_source : Bool

unfoldable pub build_handler : String → Level → LogHandler
build_handler format level =
    if lowers_to (trim_space format) "text"
    then record { format = text; level = level; add_source = true }
    else record { format = json; level = level; add_source = false }

abbrev pub Attrs : Type 0
Attrs = List (String × String)

-- A logger: its handler, and the attributes of each line.
pub record Logger : Type 0 where
  pub handler : LogHandler
  pub attrs : Attrs

unfoldable pub new_logger : LogConfig → Logger
new_logger cfg = record {
  handler = build_handler cfg.format (parse_level cfg.level);
  attrs = ("service", cfg.service) ∷ ("version", cfg.version) ∷ [];
}

-- WithLogger: what a context holds under `loggerKey`, which hides what it held before; `none` is no
-- logger, or a nil one.
abbrev pub with_logger : Option Logger → Option Logger → Option Logger
with_logger context logger = logger

-- FromContext: a context may hold a logger.
abbrev pub from_context : Option Logger → Option Logger → Option Logger
from_context none fallback = fallback
from_context (some l) fallback = some l

-- WithCommon.
unfoldable pub with_common : Attrs → String → String → Attrs
with_common attrs service version =
    let with_service = if str_eq service "" then attrs else attrs ++ ("service", service) ∷ [] in
    if str_eq version "" then with_service else with_service ++ ("version", version) ∷ []

-- A line that is written, if the logger is not nil.
pub record Line : Type 0 where
  pub level : Level
  pub message : String
  pub attrs : Attrs

abbrev pub log_line : Option Logger → Level → String → Attrs → Option Line
log_line none level message attrs = none
log_line (some l) level message attrs =
    some record { level = level; message = message; attrs = l.attrs ++ attrs }

-- Info, Warn and Error, before the handler's level is looked at.
unfoldable pub log_info : Option Logger → String → Attrs → Option Line
log_info l message attrs = log_line l info message attrs

unfoldable pub log_warn : Option Logger → String → Attrs → Option Line
log_warn l message attrs = log_line l warn message attrs

unfoldable pub log_error : Option Logger → String → Option Error → Attrs → Option Line
log_error l message none attrs = log_line l error message attrs
log_error l message (some e) attrs =
    log_line l error message (attrs ++ ("error", error_text e) ∷ [])

-- What is common comes after the attributes that are there, whatever these are.
pub with_common-append :
    (attrs : Attrs) (service version : String)
    → with_common attrs service version ≡ attrs ++ with_common [] service version
unfolding with_common
with_common-append attrs service version = elim (Bool-cases (str_eq service "")) [
  | inl e ↦ elim (Bool-cases (str_eq version "")) [
    | inl f ↦ rw (e, f) (sym (append-nil attrs))
    | inr f ↦ rw (e, f) refl
  ]
  | inr e ↦ elim (Bool-cases (str_eq version "")) [
    | inl f ↦ rw (e, f) refl
    | inr f ↦ rw (e, f) (append_assoc attrs (("service", service) ∷ []) (("version", version) ∷ []))
  ]
]
