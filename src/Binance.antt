-- ===== src/Binance.antt =====
-- src/exchanges/binance/adapter.py: `_make_request`, which pauses a host whose request weight runs
-- high or that answers with a rate limit. Times are whole milliseconds.
pub mod Pauses
pub mod Retries
use exchange_router_service.Prelude.{
  ℕ, zero, suc, ◌+◌, ◌-◌, ◌*◌, ◌/◌, ◌<◌, max, String, Bool, true, false, ◌&&◌, ◌||◌, Option, none,
  some, List, [], ◌∷◌, nat_eq, ltb, leb, if◌then◌else◌, string_has_eq,
}
use exchange_router_service.Prelude.Int.{ℤ, pos}
use exchange_router_service.Prelude.Dict.{Dict, get, put}
use exchange_router_service.Upstream.{
  Verdict, settled, again, json_or, is_gateway, remaining, of_status,
}
use exchange_router_service.Errors.{
  Error, upstream_unavailable, value_error, http_status_error, Result, ok, raise,
}

-- `_backoff_until`
abbrev pub Backoffs : Type 0
Backoffs = Dict String ℕ

abbrev pub until : Option ℕ → ℕ
until none = 0
until (some t) = t

-- `_WEIGHT_LIMITS.get(host, 1200)`
abbrev pub limit_or : Option ℕ → ℕ
limit_or none = 1200
limit_or (some n) = n

abbrev pub weight_limits : Dict String ℕ
weight_limits =
    ("api.binance.com", 6000) ∷ ("fapi.binance.com", 2400) ∷ ("dapi.binance.com", 2400) ∷ []

-- What a request comes to: a response, with its status, the used weight and the seconds of
-- `Retry-After` (5 where it is missing or no number), and the body of a 200, where it is JSON; a
-- `ValueError`; or another exception.
pub data Reply (A : Type 0) : Type 0 where
  response : ℕ → ℕ → ℕ → Option A → Reply A
  bad_value : Reply A
  broken : Reply A

-- `used_weight > weight_limit * 0.95`, in hundredths
unfoldable pub is_heavy : String → ℕ → Bool
is_heavy host used = ltb (limit_or (get host weight_limits) * 95) (used * 100)

-- the pause of two seconds that a high weight brings, unless the host pauses already
unfoldable pub pause_heavy : String → ℕ → ℕ → Backoffs → Backoffs
unfolding is_heavy
pause_heavy host used now b =
    if is_heavy host used && ltb (until (get host b)) now then put host (now + 2000) b else b

-- the pause after a 429 or a 418
unfoldable pub pause_limited : String → ℕ → ℕ → Backoffs → Backoffs
pause_limited host retry_after now b =
    put host (max (until (get host b)) (now + retry_after * 1000)) b

abbrev pub is_limit : ℕ → Bool
is_limit status = nat_eq status 429 || nat_eq status 418

-- the status of a response, through `raise_for_status` and the handler of its exception; a success
-- other than 200 goes round again without being counted
unfoldable pub verdict : {A : Type 0} → Reply A → Verdict A
verdict bad_value = settled (raise value_error)
verdict broken = again true
verdict (response status used retry_after body) =
    if nat_eq status 200
    then settled (json_or body)
    else if is_limit status
    then again true
    else if leb 200 status && ltb status 300
    then again false
    else if nat_eq status 400 || nat_eq status 404 || nat_eq status 405
    then settled (raise value_error)
    else if is_gateway status
    then again true
    else if leb 500 status
    then settled (raise (upstream_unavailable none))
    else settled (raise http_status_error)

-- the pauses that a reply brings
unfoldable pub pauses : {A : Type 0} → String → ℕ → Reply A → Backoffs → Backoffs
unfolding pause_heavy pause_limited
pauses host now bad_value b = b
pauses host now broken b = b
pauses host now (response status used retry_after body) b =
    let b' = pause_heavy host used now b in
    if is_limit status then pause_limited host retry_after now b' else b'

module _ {A : Type 0} (host : String) (reply : ℕ → Reply A) (clock : ℕ → ℕ) where
  abbrev pub continue :
      (ℕ → Backoffs → Option (Result A × Backoffs))
      → ℕ
      → Verdict A
      → Backoffs
      → Option (Result A × Backoffs)
  continue again_with retries (settled r) b = some (r, b)
  continue again_with zero (again counted) b = none
  continue again_with (suc retries) (again true) b = again_with retries b
  continue again_with (suc retries) (again false) b = again_with (suc retries) b

  -- The `while` loop, on fuel: `reply n` and `clock n` are the answer of the n-th request, and the
  -- time when it is there. `none` is that the fuel ran out.
  unfoldable pub rounds : ℕ → ℕ → ℕ → Backoffs → Option (Result A × Backoffs)
  unfolding verdict pauses remaining
  rounds zero n retries b = none
  rounds (suc fuel) n zero b =
      some (raise (upstream_unavailable (remaining (clock n) (until (get host b)))), b)
  rounds (suc fuel) n (suc retries) b =
      continue (λ left b'. rounds fuel (n + 1) left b') (suc retries) (verdict (reply n))
        (pauses host (clock n) (reply n) b)
