-- ===== src/RateLimit.antt =====
-- internal/services/wfts/offline/scraper/rateLimiter.go: the token bucket of a host. The channels
-- `token` and `quit` are the number of tokens and two flags; a step of the relation is one
-- communication of handleLimits, GetToken or Shutdown, so a run is an interleaving of them.
pub mod Runs
mod Tests
use wfts.Common.{ℕ, ◌-◌, ◌≡◌, Bool, true, false, List, [], ◌∷◌}

-- Where handleLimits is: in its loop, out of it with its deferred Done to come, or after it.
pub data Handler : Type 0 where
  looping : Handler
  leaving : Handler
  returned : Handler

-- `waiting` is the counter of `wg`.
pub record RateLimiter : Type 0 where
  pub token : ℕ
  pub token_closed : Bool
  pub quit_closed : Bool
  pub waiting : ℕ
  pub handler : Handler

abbrev pub new_rate_limiter : RateLimiter
new_rate_limiter = record {
  token = 0;
  token_closed = false;
  quit_closed = false;
  waiting = 1;
  handler = looping;
}

pub data Event : Type 0 where
  tick : Event
  handler_quits : Event
  handler_done : Event
  token_got : Event
  got_past_close : Event
  quit_seen : Event
  context_done : Event
  close_quit : Event
  close_token : Event

-- `tick` sends a token if there is room for one. GetToken takes a token, or finds the channel closed
-- and empty, or sees `quit` closed, or its context ends. Shutdown closes `quit`, once, waits until the
-- counter of `wg` is 0, and then closes `token`.
pub data Step : RateLimiter → Event → RateLimiter → Type 0 where
  on_tick : {s : RateLimiter} → s.handler ≡ looping → Step s tick (record s { token = 1 })
  on_handler_quits :
      {s : RateLimiter}
      → s.handler ≡ looping
      → s.quit_closed ≡ true
      → Step s handler_quits (record s { handler = leaving })
  on_handler_done :
      {s : RateLimiter}
      → s.handler ≡ leaving
      → Step s handler_done (record s { handler = returned; waiting = s.waiting - 1 })
  on_token_got : {s : RateLimiter} → s.token ≡ 1 → Step s token_got (record s { token = 0 })
  on_got_past_close :
      {s : RateLimiter} → s.token ≡ 0 → s.token_closed ≡ true → Step s got_past_close s
  on_quit_seen : {s : RateLimiter} → s.quit_closed ≡ true → Step s quit_seen s
  on_context_done : {s : RateLimiter} → Step s context_done s
  on_close_quit :
      {s : RateLimiter}
      → s.quit_closed ≡ false
      → Step s close_quit (record s { quit_closed = true })
  on_close_token :
      {s : RateLimiter}
      → s.quit_closed ≡ true
      → s.waiting ≡ 0
      → Step s close_token (record s { token_closed = true })

pub data Run : RateLimiter → List Event → RateLimiter → Type 0 where
  stop : {s : RateLimiter} → Run s [] s
  go :
      {s t u : RateLimiter} {e : Event} {es : List Event}
      → Step s e t
      → Run t es u
      → Run s (e ∷ es) u
