-- ===== src/Errors.antt =====
-- internal/providers/errors.go, and the other errors that the service hands around. No error is
-- wrapped in another, so `errors.As` looks at the error itself.
use nba_games_service.Base.{
  suc, ◌≡◌, refl, ◌⊎◌, inl, inr, String, Option, none, some, str_eq, if◌then◌else◌,
}
use nba_games_service.Base.Decimal.{ℤ, pos, decimal_int}
use Prim.Native.String.{◌++◌}

pub record RateLimitError : Type 0 where
  pub provider : String
  pub status_code : ℤ
  pub retry_after : ℤ
  pub remaining : String
  pub message : String

-- `other` is an `errors.New`, a `fmt.Errorf`, or an error of a library, with its text.
pub data Error : Type 0 where
  provider_unavailable context_canceled deadline_exceeded : Error
  rate_limited : RateLimitError → Error
  other : String → Error

unfoldable pub as_rate_limit_error : Error → Option RateLimitError
as_rate_limit_error (rate_limited e) = some e
as_rate_limit_error _ = none

with_status : String → ℤ → String
with_status msg (pos (suc n)) = msg ++ " (status=" ++ decimal_int (pos (suc n)) ++ ")"
with_status msg code = msg

-- `(*RateLimitError).Error`
pub rate_limit_text : RateLimitError → String
unfolding with_status
rate_limit_text e =
    with_status (if str_eq e.message "" then "provider rate limited" else e.message) e.status_code

-- `err.Error()`
unfoldable pub error_text : Error → String
unfolding rate_limit_text
error_text provider_unavailable = "provider unavailable"
error_text context_canceled = "context canceled"
error_text deadline_exceeded = "context deadline exceeded"
error_text (rate_limited e) = rate_limit_text e
error_text (other msg) = msg

-- A Go result `(A, error)`.
pub data Result {ℓ} (A : Type ℓ) : Type ℓ where
  ok : A → Result A
  err : Error → Result A

pub Result-cases {ℓ} :
    {A : Type ℓ} (r : Result A) → ((a : A) × (r ≡ ok a)) ⊎ ((e : Error) × (r ≡ err e))
Result-cases (ok a) = inl (a, refl)
Result-cases (err e) = inr (e, refl)
