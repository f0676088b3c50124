-- ===== src/Doubles/Serving.antt =====
-- internal/testutil: http.go, clock.go, logger.go and metrics.go. net/http/httptest, the JSON decoder,
-- strconv's quotes and time.Parse are parameters; a failed test, or a panic, is an error of its text.
-- Texts are of ASCII, where a byte is a character.
use Prim.Native.String.{String, [], ◌∷◌, ◌++◌}
use Prim.Native.String.append
use nba_games_service.Base.{
  ℕ, zero, suc, ◌+◌, ◌≤◌, ◌≡◌, ◌==◌, ltb, false, Option, none, some, List, if◌then◌else◌, arith,
}
use nba_games_service.Base.Decimal.{decimal}
use nba_games_service.Base.Strings.{trim_space}
use nba_games_service.Calendar.{Time}
use nba_games_service.Errors.{Error, other, error_text, Result, ok, err}
use nba_games_service.Logging.{Logger, Format, Level}
use nba_games_service.Metrics.{Recorder, new_recorder}

-- What `httptest.ResponseRecorder` has recorded.
pub record Recorded : Type 0 where
  pub code : ℕ
  pub body : String

module _ {ℓ κ} {Q : Type ℓ} {S : Type κ} (handler : Q → S → Recorded × S) where
  -- ServeRequest: a handler on a state, with a new recorder.
  abbrev pub serve_request : Q → S → Recorded × S
  serve_request q s = handler q s

  -- Serve; `new_request` is httptest.NewRequest, with its method, path and body.
  abbrev pub serve {ρ} :
      {B : Type ρ} → (String → String → B → Q) → String → String → B → S → Recorded × S
  serve new_request method path body s = serve_request (new_request method path body) s

-- Texts by their characters: `len(s)` and `s[:n]`.
unfoldable pub text_length : String → ℕ
text_length [] = 0
text_length (c ∷ s) = suc (text_length s)

unfoldable pub first_of : ℕ → String → String
first_of zero s = []
first_of (suc n) [] = []
first_of (suc n) (c ∷ s) = c ∷ first_of n s

unfoldable pub snippet : String → String
unfolding text_length first_of
snippet body =
    let trimmed = trim_space body in
    if ltb 512 (text_length trimmed) then first_of 512 trimmed ++ "..." else trimmed

module _ (quote : String → String) where
  unfoldable pub status_error : Recorded → ℕ → Option Error
  status_error rr want =
      if rr.code == want
      then none
      else some (
          other (
            "expected status "
            ++ decimal want
            ++ ", got "
            ++ decimal rr.code
            ++ " body="
            ++ quote (snippet rr.body)))

  abbrev pub fatal_if : Option Error → Result (Unit {0})
  fatal_if none = ok tt
  fatal_if (some e) = err e

  -- AssertStatus, which fails the test.
  abbrev pub assert_status : Recorded → ℕ → Result (Unit {0})
  assert_status rr want = fatal_if (status_error rr want)

  -- DecodeJSON with decodeJSONBody. The decoder takes what it reads off the body, and `decode` gives
  -- what it leaves.
  unfoldable pub decode_json {ℓ} : {A : Type ℓ} → (String → Result A × String) → Recorded → Result A
  decode_json decode rr =
      let (res, left) = decode rr.body in
      elim res [
        | ok a ↦ ok a
        | err e ↦ err (
            other
              ("failed to decode response: " ++ error_text e ++ " body=" ++ quote (snippet left)))
      ]

abbrev pub now_at : Time → Unit {0} → Time
now_at t _ = t

-- MustParseRFC3339, which panics.
abbrev pub must_parse_rfc3339 : (String → Result Time) → String → Result Time
must_parse_rfc3339 parse v = parse v

-- NewBufferLogger; `slog` logs from the level info on.
abbrev pub new_buffer_logger : Logger
new_buffer_logger = record {
  handler = record { format = Format.text; level = Level.info; add_source = false };
  attrs = List.[];
}

-- NewRecorderWithShutdown: the recorder, and the error of its shutdown.
abbrev pub new_recorder_with_shutdown : Recorder × Option Error
new_recorder_with_shutdown = (new_recorder, none)

text_length-append : (s t : String) → text_length (s ++ t) ≡ text_length s + text_length t
unfolding text_length
text_length-append [] t = rw append.nil (omega arith)
text_length-append (c ∷ s) t = rw (append.cons, text_length-append s t) (omega arith)

text_length-first_of : (n : ℕ) (s : String) → text_length (first_of n s) ≤ n
unfolding text_length first_of
text_length-first_of zero s = omega arith
text_length-first_of (suc n) [] = omega arith
text_length-first_of (suc n) (c ∷ s) = omega (arith, text_length-first_of n s)

-- A snippet has at most 512 characters, and three for the dots.
pub text_length-snippet : (body : String) → text_length (snippet body) ≤ 515
unfolding snippet text_length first_of
text_length-snippet body = ground (
  arith,
  text_length-append (first_of 512 (trim_space body)) "...",
  text_length-first_of 512 (trim_space body),
)
