-- ===== src/Kraken/Patience.antt =====
-- A lone caller of `_await_throttle` (src/exchanges/kraken/adapter.py) gets through.
use exchange_router_service.Prelude.{ℕ, ◌+◌, ◌≤◌, ◌≡◌, refl, true, Option, none, some, arith}
use exchange_router_service.Prelude.Dict.{get}
use exchange_router_service.Kraken.{
  PairCall, pair_has_eq, pair_interval, Throttle, rest_of, global_interval, or_never, pair_delay,
  wait_for, await_throttle,
}

-- a lone caller
rest_later :
    (now later last interval shorter : ℕ)
    → shorter ≤ interval
    → now + rest_of now last interval ≤ later
    → rest_of later last shorter ≡ 0
unfolding rest_of
rest_later now later last interval shorter le h = ground arith

slower_before :
    (now later : ℕ) (s : Throttle) → now ≤ later → global_interval later s ≤ global_interval now s
unfolding global_interval
slower_before now later s le = ground arith

pair_later :
    (call : Option PairCall) (now later : ℕ) (s : Throttle)
    → now + pair_delay call now s ≤ later
    → pair_delay call later s ≡ 0
unfolding pair_delay
pair_later none now later s h = refl
pair_later (some pair) now later s h =
    rest_later now later (or_never (get pair s.last_pair_call_at)) pair_interval pair_interval
      (omega arith) h

all_over :
    (call : Option PairCall) (now later : ℕ) (s : Throttle)
    → now + wait_for call now s ≤ later
    → wait_for call later s ≡ 0
unfolding wait_for
all_over call now later s h =
    let a =
      rest_later now later s.last_request_at (global_interval now s) (global_interval later s)
        (slower_before now later s (omega arith)) (omega arith) in
    let b = pair_later call now later s (omega arith) in ground arith

waited :
    (call : Option PairCall) (now more : ℕ) (s : Throttle)
    → wait_for call (now + wait_for call now s + more) s ≡ 0
waited call now more s = all_over call now (now + wait_for call now s + more) s (omega arith)

-- A caller that comes back after the wait it was told, or later, passes, if nothing else has gone
-- or been limited meanwhile: the loop of `_await_throttle` ends.
await_throttle_ends :
    (call : Option PairCall) (now more : ℕ) (s : Throttle)
    → (await_throttle call (now + wait_for call now s + more) s).0 ≡ true
unfolding await_throttle
await_throttle_ends call now more s =
    let none_left : wait_for call (now + wait_for call now s + more) s ≡ 0 =
      waited call now more s in
    rw none_left refl
