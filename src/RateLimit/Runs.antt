-- ===== src/RateLimit/Runs.antt =====
-- Along every run: no more tokens are got than there were ticks, and none is sent on a closed channel.
use wfts.Common.{ℕ, suc, ◌+◌, ◌≤◌, ◌≡◌, refl, sym, ap, ◌∙◌, true, List, [], ◌∷◌, arith}
use wfts.RateLimit.{
  new_rate_limiter, Handler, looping, leaving, returned, on_handler_done, Step, RateLimiter, Event,
  tick, token_got, on_tick, on_handler_quits, on_token_got, on_got_past_close, on_quit_seen,
  on_context_done, on_close_quit, on_close_token, Run, stop, go,
}

unfoldable pub ticks : List Event → ℕ
ticks [] = 0
ticks (tick ∷ es) = suc (ticks es)
ticks (_ ∷ es) = ticks es

unfoldable pub tokens_got : List Event → ℕ
tokens_got [] = 0
tokens_got (token_got ∷ es) = suc (tokens_got es)
tokens_got (_ ∷ es) = tokens_got es

-- In every interleaving, the tokens got and the one that may be left are no more than the ticks and
-- the one that may have been there.
pub tokens_got-le :
    {s u : RateLimiter} {es : List Event}
    → Run s es u
    → tokens_got es + u.token ≤ ticks es + s.token
unfolding ticks tokens_got
tokens_got-le stop = omega arith
tokens_got-le (go (on_tick h) rest) = omega (arith, tokens_got-le rest)
tokens_got-le (go (on_handler_quits h k) rest) = tokens_got-le rest
tokens_got-le (go (on_handler_done h) rest) = tokens_got-le rest
tokens_got-le (go (on_token_got h) rest) = omega (arith, h, tokens_got-le rest)
tokens_got-le (go (on_got_past_close h k) rest) = tokens_got-le rest
tokens_got-le (go (on_quit_seen h) rest) = tokens_got-le rest
tokens_got-le (go on_context_done rest) = tokens_got-le rest
tokens_got-le (go (on_close_quit h) rest) = tokens_got-le rest
tokens_got-le (go (on_close_token h k) rest) = tokens_got-le rest

abbrev to_wait : Handler → ℕ
to_wait looping = 1
to_wait leaving = 1
to_wait returned = 0

-- The counter of `wg` counts handleLimits until its Done, and `token` is closed after it.
record Waits (s : RateLimiter) : Type 0 where
  counter : s.waiting ≡ to_wait s.handler
  last : s.token_closed ≡ true → s.handler ≡ returned

to_wait-zero : (h : Handler) → to_wait h ≡ 0 → h ≡ returned
to_wait-zero looping e = absurd (omega (arith, e))
to_wait-zero leaving e = absurd (omega (arith, e))
to_wait-zero returned e = refl

Step-Waits : {s t : RateLimiter} {e : Event} → Step s e t → Waits s → Waits t
Step-Waits (on_tick h) v = record { counter = v.counter; last = v.last }
Step-Waits (on_handler_quits h k) v = record {
  counter = v.counter ∙ ap to_wait h;
  last = λ closed. let done = v.last closed in cc;
}
Step-Waits (on_handler_done h) v = record {
  counter = omega (arith, v.counter, ap to_wait h);
  last = λ closed. refl;
}
Step-Waits (on_token_got h) v = record { counter = v.counter; last = v.last }
Step-Waits (on_got_past_close h k) v = v
Step-Waits (on_quit_seen h) v = v
Step-Waits on_context_done v = v
Step-Waits (on_close_quit h) v = record { counter = v.counter; last = v.last }
Step-Waits {s} (on_close_token h k) v = record {
  counter = v.counter;
  last = λ closed. to_wait-zero s.handler (sym v.counter ∙ k);
}

Run-Waits : {s u : RateLimiter} {es : List Event} → Run s es u → Waits s → Waits u
Run-Waits stop v = v
Run-Waits (go step rest) v = Run-Waits rest (Step-Waits step v)

-- In every interleaving from a new limiter, handleLimits has returned when `token` is closed, so it never sends on
-- the closed channel, and the counter of `wg` is 0 when handleLimits has returned, so that Shutdown can go on.
pub Run-IsSafe :
    {u : RateLimiter} {es : List Event}
    → Run new_rate_limiter es u
    → (u.token_closed ≡ true → u.handler ≡ returned) × (u.handler ≡ returned → u.waiting ≡ 0)
Run-IsSafe run =
    let v = Run-Waits run (record { counter = refl; last = λ closed. cc }) in
    (v.last, λ done. v.counter ∙ ap to_wait done)
