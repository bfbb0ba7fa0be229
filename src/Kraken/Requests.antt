-- ===== src/Kraken/Requests.antt =====
-- src/exchanges/kraken/adapter.py: `_make_request`, its attempts and the backoffs between them.
use exchange_router_service.Prelude.{
  ℕ, zero, suc, ◌+◌, Bool, true, false, ◌&&◌, ◌||◌, Option, none, some, List, [], ◌∷◌, nat_eq, leb,
  ltb, if◌then◌else◌,
}
use exchange_router_service.Errors.{upstream_unavailable, value_error, Result, ok, raise}

-- the body of a response with status 200: not JSON, an error of the spot API that is a rate limit
-- (with the time that it names) or another one, an error of the futures API, or a result
pub data Content (A : Type 0) : Type 0 where
  not_json : Content A
  rate_limited : Option ℕ → Content A
  spot_error : Content A
  futures_error : Content A
  payload : A → Content A

-- A response, with the time that its `Retry-After` comes to; or an exception of the request.
pub data Reply (A : Type 0) : Type 0 where
  response : ℕ → Option ℕ → Content A → Reply A
  broken : Reply A

-- the arguments of a call of `_set_backoff`
pub record Backoff : Type 0 where
  pub attempt : ℕ
  pub retry_until : Option ℕ
  pub strong : Bool

-- what a round comes to: another one, after a backoff or (for a success other than 200) without
-- one; or the end
pub data Verdict (A : Type 0) : Type 0 where
  again : Option (Option ℕ × Bool) → Verdict A
  settled : Result A → Verdict A

abbrev pub is_strong : ℕ → Bool
is_strong status = nat_eq status 429 || nat_eq status 418

abbrev pub is_busy : ℕ → Bool
is_busy status =
    is_strong status
    || nat_eq status 502
    || nat_eq status 503
    || nat_eq status 504
    || nat_eq status 520

unfoldable pub read : {A : Type 0} → Content A → Verdict A
read not_json = again (some (none, false))
read (rate_limited until) = again (some (until, true))
read spot_error = settled (raise value_error)
read futures_error = settled (raise value_error)
read (payload a) = settled (ok a)

unfoldable pub verdict : {A : Type 0} → Reply A → Verdict A
unfolding read
verdict broken = again (some (none, false))
verdict (response status until content) =
    if is_busy status
    then again (some (until, is_strong status))
    else if nat_eq status 200
    then read content
    else if leb 200 status && ltb status 300
    then again none
    else if leb 500 status
    then settled (raise (upstream_unavailable none))
    else settled (raise value_error)

abbrev pub with_backoff : ℕ → Option (Option ℕ × Bool) → List Backoff → List Backoff
with_backoff attempt none rest = rest
with_backoff attempt (some (until, strong)) rest =
    record { attempt = attempt; retry_until = until; strong = strong } ∷ rest

-- `max_retries`
abbrev pub budget : Bool → ℕ
budget is_spot = if is_spot then 8 else 5

module _ {A : Type 0} where
  abbrev pub proceed : ℕ → Verdict A → Result A × List Backoff → Result A × List Backoff
  proceed attempt (settled r) rest = (r, [])
  proceed attempt (again backoff) (r, backoffs) = (r, with_backoff attempt backoff backoffs)

  module _ (answer : ℕ → Reply A) where
    -- `for attempt in range(max_retries)`, with the attempts that are left
    unfoldable pub attempts : ℕ → ℕ → Result A × List Backoff
    unfolding verdict
    attempts zero attempt = (raise (upstream_unavailable none), [])
    attempts (suc left) attempt =
        let rest = attempts left (attempt + 1) in proceed attempt (verdict (answer attempt)) rest

    -- `_make_request`, and the backoffs that it sets; the spot API gets 8 attempts, the others 5
    unfoldable pub make_request : Bool → Result A × List Backoff
    unfolding attempts
    make_request is_spot = attempts (budget is_spot) 0
