-- ===== src/Okx.antt =====
-- src/exchanges/okx/adapter.py: `_RateBucket`, the limit on the requests of a window of time. Times
-- are whole milliseconds.
pub mod Candles
pub mod Patience
pub mod RateWindow
pub mod Requests
pub mod Symbols
use exchange_router_service.Prelude.{
  ℕ, zero, suc, ◌+◌, ◌-◌, max, Bool, Option, none, some, List, [], ◌∷◌, ◌++◌, length, ltb,
  if◌then◌else◌,
}

-- What a turn of the loop of `acquire` leads to: the request may go, or the caller sleeps, or
-- `timestamps[0]` of an empty deque raises.
pub data Turn : Type 0 where
  passes : Turn
  sleeps : ℕ → Turn
  index_error : Turn

-- the inner `while`: the times that the window has left are taken off
unfoldable pub pop_left : ℕ → ℕ → List ℕ → List ℕ
pop_left window now [] = []
pop_left window now (t ∷ timestamps) =
    let rest = pop_left window now timestamps in
    if ltb (t + window) now then rest else t ∷ timestamps

-- `max(wait, 0.01) + random.uniform(0, 0.05)`, with `jitter` for the random number
unfoldable pub sleep_of : ℕ → ℕ → ℕ → List ℕ → Turn
sleep_of window now jitter [] = index_error
sleep_of window now jitter (t ∷ timestamps) = sleeps (max (t + window - now) 10 + jitter)

-- a turn of `acquire` under the lock, at the time `now`
unfoldable pub turn : ℕ → ℕ → ℕ → ℕ → List ℕ → Turn × List ℕ
unfolding pop_left sleep_of
turn most window now jitter timestamps =
    let kept = pop_left window now timestamps in
    if ltb (length kept) most
    then (passes, kept ++ now ∷ [])
    else (sleep_of window now jitter kept, kept)

-- The loop of a caller that nobody disturbs, on fuel: the time when it passes, and the deque then.
-- `none` is that the fuel ran out, or an exception.
abbrev pub after_turn : (ℕ → List ℕ → Option (ℕ × List ℕ)) → ℕ → Turn × List ℕ → Option (ℕ × List ℕ)
after_turn again now (passes, timestamps) = some (now, timestamps)
after_turn again now (sleeps wait, timestamps) = again (now + wait) timestamps
after_turn again now (index_error, timestamps) = none

unfoldable pub acquire : ℕ → ℕ → (ℕ → ℕ) → ℕ → ℕ → List ℕ → Option (ℕ × List ℕ)
unfolding turn
acquire most window jitter zero now timestamps = none
acquire most window jitter (suc fuel) now timestamps =
    after_turn (λ later ts. acquire most window jitter fuel later ts) now
      (turn most window now (jitter fuel) timestamps)
