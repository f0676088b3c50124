-- ===== src/Providers/Retry/Scripted.antt =====
-- The retry loop around a provider that answers its calls from a script, with a context that is
-- never done. The state is the number of calls made.
use nba_games_service.Base.{ℕ, zero, suc, ◌+◌, ◌-◌, ◌≡◌, refl, String, inl, inr, List, ap, ◌∙◌}
use nba_games_service.Domain.{Game}
use nba_games_service.Errors.{Result, Result-cases, ok, err}
use nba_games_service.Metrics.{Recorder}
use nba_games_service.Providers.Provider.{Runtime}
use nba_games_service.Providers.Retry.{RetryingProvider, fetch_games}
use nba_games_service.Providers.Retry.Calm.{calm_runtime, first_answer, fetch_loop-first_answer}

module _ (script : ℕ → Result (List Game)) (draw : ℕ → ℕ) (name : String)
    (max_attempts backoff : ℕ) where
  abbrev pub calm : Runtime ℕ
  calm = calm_runtime draw

  abbrev pub scripted : RetryingProvider ℕ
  scripted = record {
    game_provider = λ date tz s. (script s, s + 1);
    provider_name = name;
    max_attempts = max_attempts;
    backoff = backoff;
  }

  -- The first answer from `i` on that is a success, or else the last of those that may be asked for,
  -- and the number of answers used.
  pub first_ok : ℕ → ℕ → Result (List Game) × ℕ
  first_ok zero i = (script i, i + 1)
  first_ok (suc left) i =
      let rest = first_ok left (i + 1) in elim (script i) [ ok gs ↦ (ok gs, i + 1) | err e ↦ rest ]

  first_answer-first_ok :
      (date tz : String) (left i : ℕ)
      → first_answer scripted.game_provider date tz left i ≡ first_ok left i
  unfolding first_answer first_ok
  first_answer-first_ok date tz zero i = refl
  first_answer-first_ok date tz (suc left) i = elim (Result-cases (script i)) [
    | inl (gs, p) ↦ rw (p, first_answer, first_ok) refl
    | inr (e, p) ↦ rw (p, first_answer, first_ok) (first_answer-first_ok date tz left (i + 1))
  ]

  -- Around a provider that answers from a script, with a context that is never done, a fetch returns
  -- the first success within `max_attempts` answers, or the last of them, and asks for no answer
  -- after that.
  pub fetch_games-first_ok :
      (date tz : String) (m : Recorder) (i : ℕ)
      → let out = fetch_games calm scripted date tz m i in
        (out.0 ≡ (first_ok (max_attempts - 1) i).0) × (out.2 ≡ (first_ok (max_attempts - 1) i).1)
  unfolding fetch_games
  fetch_games-first_ok date tz m i =
      let (a, b) = fetch_loop-first_answer draw scripted date tz (max_attempts - 1) 1 m i in
      let e = first_answer-first_ok date tz (max_attempts - 1) i in
      (a ∙ ap (λ q. q.0) e, b ∙ ap (λ q. q.1) e)
