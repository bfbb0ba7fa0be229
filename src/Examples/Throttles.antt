-- ===== src/Examples/Throttles.antt =====
-- Runs of the request pacing and the attempts of src/exchanges/kraken/adapter.py.
use exchange_router_service.Prelude.{
  ℕ, ◌+◌, ◌≤◌, ◌<◌, ◌≡◌, refl, ◌⊎◌, Bool, true, Option, none, some, [], ◌∷◌, length, nat_eq,
  if◌then◌else◌,
}
use exchange_router_service.Prelude.Dict.{get}
use exchange_router_service.Errors.{Result, raise, upstream_unavailable}
use exchange_router_service.Kraken.{
  PairCall, Throttle, idle, await_throttle, set_backoff, backoff_wait, wait_for, rest_of,
  global_interval,
}
use exchange_router_service.Kraken.Spacing.{run-Polite}
use exchange_router_service.Kraken.Requests.{
  Reply, response, broken, payload, again, settled, verdict, make_request, budget,
}
use exchange_router_service.Kraken.Attempts.{make_request_lem}
use exchange_router_service.Kraken.Runs.{
  requested, backed_off, Polite, Run, begin, passes, backs_off,
}

abbrev call : Option PairCall
call = some ("OHLC", "XBTUSD")

-- a request, and a backoff of half a minute after a rate limit
abbrev used : Throttle
used = (await_throttle call 1_000_000 idle).1

abbrev half : ℕ → ℕ
half n = 30_000

abbrev limited : Throttle
limited = set_backoff half 0 none true 1_000_100 used

abbrev limited-Run : Run limited (
    backed_off 1_000_100 (1_000_100 + backoff_wait half 0 1_000_100 none) true
    ∷ requested 1_000_000 call
    ∷ [])
unfolding await_throttle wait_for rest_of global_interval get
limited-Run = backs_off half 0 none true 1_000_100 (passes call 1_000_000 begin refl)

run-Polite_example : Polite (
    backed_off 1_000_100 (1_000_100 + backoff_wait half 0 1_000_100 none) true
    ∷ requested 1_000_000 call
    ∷ [])
run-Polite_example = run-Polite limited-Run

-- two broken requests and then a body
abbrev answer : ℕ → Reply ℕ
answer n = if nat_eq n 2 then response 200 none (payload 7) else broken

make_request_lem_example :
    ((k : ℕ) × (r : Result ℕ) × (k < budget true)
      × ((i : ℕ) → i < k → (b : Option (Option ℕ × Bool)) × (verdict (answer i) ≡ again b))
      × (verdict (answer k) ≡ settled r)
      × ((make_request answer true).0 ≡ r)
      × (length (make_request answer true).1 ≤ k))
    ⊎ (((i : ℕ) → i < budget true → (b : Option (Option ℕ × Bool)) × (verdict (answer i) ≡ again b))
        × ((make_request answer true).0 ≡ raise (upstream_unavailable none))
        × (length (make_request answer true).1 ≤ budget true))
make_request_lem_example = make_request_lem answer true
