-- ===== src/RateLimit/Tests.antt =====
-- A run of a limiter: two ticks, one token, and the shutdown.
use wfts.Common.{◌+◌, ◌≤◌, ◌≡◌, refl, true, List, [], ◌∷◌}
use wfts.RateLimit.{
  RateLimiter, new_rate_limiter, Event, returned, handler_done, on_handler_done, tick,
  handler_quits, token_got, close_quit, close_token, on_tick, on_handler_quits, on_token_got,
  on_close_quit, on_close_token, Run, stop, go,
}
use wfts.RateLimit.Runs.{ticks, tokens_got, tokens_got-le, Run-IsSafe}

abbrev events : List Event
events = tick ∷ tick ∷ token_got ∷ close_quit ∷ handler_quits ∷ handler_done ∷ close_token ∷ []

abbrev shut_down : RateLimiter
shut_down = record {
  token = 0;
  token_closed = true;
  quit_closed = true;
  waiting = 0;
  handler = returned;
}

events-Run : Run new_rate_limiter events shut_down
events-Run = go (on_tick refl) (
    go (on_tick refl) (
      go (on_token_got refl) (
        go (on_close_quit refl) (
          go (on_handler_quits refl refl)
            (go (on_handler_done refl) (go (on_close_token refl refl) stop))))))

tokens_got-le_example : tokens_got events + 0 ≤ ticks events + 0
tokens_got-le_example = tokens_got-le events-Run

Run-IsSafe_example :
    (shut_down.token_closed ≡ true → shut_down.handler ≡ returned)
    × (shut_down.handler ≡ returned → shut_down.waiting ≡ 0)
Run-IsSafe_example = Run-IsSafe events-Run
