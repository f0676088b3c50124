-- ===== src/Providers/Balldontlie/Headers.antt =====
-- The errors of client.go: `classifyErrorResponse`, `rateLimitDetails`, `parseRetryAfter`.
use nba_games_service.Base.{
  ℕ, ◌-◌, ◌*◌, ◌<◌, ◌≡◌, String, Bool, true, false, ◌||◌, Option, none, some, if◌then◌else◌, ltb,
  ◌==◌, str_eq, arith, eq_iff, sym, ap, ◌∙◌, Bool-cases, inl, inr,
}
use nba_games_service.Base.Decimal.{
  ℤ, pos, negsuc, atoi, atoi-decimal, decimal, two_63, wrap_64, wrap_64-pos,
}
use nba_games_service.Base.Strings.{trim_space}
use nba_games_service.Calendar.{Time}
use nba_games_service.Errors.{Error, rate_limited, other}
use Prim.Native.String.{◌++◌}

abbrev pub second : ℕ
second = 1000000000

-- The seconds that a header gives, where `Atoi` reads a number that is not negative and is an int.
abbrev pub seconds_in : Option ℤ → Option ℕ
seconds_in (some (pos n)) = if ltb n two_63 then some n else none
seconds_in (some (negsuc n)) = none
seconds_in none = none

abbrev pub until : Time → Option Time → ℤ
until now none = pos 0
until now (some t) = if ltb now t then pos (t - now) else pos 0

-- `parse_time` is `http.ParseTime`. The product of seconds and `time.Second` may wrap.
unfoldable pub parse_retry_after : (String → Option Time) → String → Time → ℤ
parse_retry_after parse_time header now =
    let raw = trim_space header in
    if str_eq raw "" then pos 0 else elim (seconds_in (atoi raw)) [
      | some n ↦ wrap_64 (n * second)
      | none ↦ until now (parse_time raw)
    ]

-- What the client uses of a response: its status, the first 512 bytes of its body as a text, two
-- headers, and what decoding the body as a `gamesResponse` gives.
pub record Response {ℓ} (P : Type ℓ) : Type ℓ where
  pub status_code : ℕ
  pub body : String
  pub retry_after : String
  pub remaining : String
  pub payload : Option P

abbrev pub error_message : ℕ → String → String
error_message status body =
    "balldontlie: unexpected status " ++ decimal status ++ ": " ++ trim_space body

-- 429 is StatusTooManyRequests, and 503 is StatusServiceUnavailable.
abbrev pub is_rate_limit : ℕ → Bool
is_rate_limit status = status == 429 || status == 503

unfoldable pub classify_error_response {ℓ} :
    {P : Type ℓ} → (String → Option Time) → Response P → Time → Error
classify_error_response parse_time resp now =
    let msg = error_message resp.status_code resp.body in
    if is_rate_limit resp.status_code
    then rate_limited record {
      provider = "balldontlie";
      status_code = pos resp.status_code;
      retry_after = parse_retry_after parse_time resp.retry_after now;
      remaining = resp.remaining;
      message = msg;
    }
    else other msg

decimal-nonempty : (n : ℕ) → str_eq (decimal n) "" ≡ false
unfolding atoi
decimal-nonempty n = elim (Bool-cases (str_eq (decimal n) "")) [
  | inl h ↦ absurd (unread ((eq_iff (decimal n) "").0 h))
  | inr h ↦ h
]
  where
    unread : decimal n ≡ "" → ⊥
    unread e = let bad : some (pos n) ≡ none = sym (atoi-decimal n) ∙ ap atoi e in cc

-- A Retry-After header that is a number of seconds, with or without space around it, is read as
-- that many seconds, where these fit in a `time.Duration`.
pub parse_retry_after-decimal :
    (parse_time : String → Option Time) (header : String) (now : Time) (n : ℕ)
    → trim_space header ≡ decimal n
    → n * second < two_63
    → parse_retry_after parse_time header now ≡ pos (n * second)
unfolding parse_retry_after
parse_retry_after-decimal parse_time header now n e small =
    let in_range : ltb n two_63 ≡ true = ground arith in
    rw (e, decimal-nonempty n, atoi-decimal n, in_range) (wrap_64-pos (n * second) small)
