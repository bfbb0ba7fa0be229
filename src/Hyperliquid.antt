-- ===== src/Hyperliquid.antt =====
-- src/exchanges/hyperliquid/adapter.py: `_make_request`. Times are whole milliseconds.
pub mod Topics
pub mod Snapshots
use exchange_router_service.Prelude.{
  ℕ, ◌+◌, ◌-◌, ◌*◌, ◌≤◌, max, ◌≢◌, true, false, Option, nat_eq, if◌then◌else◌, arith, ◌≡◌, Bool,
  not, ◌&&◌, leb, ltb, nat_eq_iff,
}
use exchange_router_service.Errors.{value_error, raise}
use exchange_router_service.Upstream.{
  Verdict, settled, again, of_status, json_or, Round, Run, rounds,
}
use exchange_router_service.Upstream.Ends.{IsEnded, rounds-IsEnded}

-- What a request comes to: a response, with the body of a 200 where it is JSON; a `ValueError`; or
-- another exception.
pub data Reply (A : Type 0) : Type 0 where
  response : ℕ → Option A → Reply A
  bad_value : Reply A
  broken : Reply A

unfoldable pub verdict : {A : Type 0} → Reply A → Verdict A
verdict bad_value = settled (raise value_error)
verdict broken = again true
verdict (response status body) =
    if nat_eq status 200
    then settled (json_or body)
    else if nat_eq status 429
    then again true
    else if nat_eq status 422
    then settled (raise value_error)
    else of_status status

-- `_backoff_until` after a reply: `5 * (4 - retries)` seconds after a 429
unfoldable pub pause : {A : Type 0} → ℕ → ℕ → Reply A → ℕ → ℕ
pause retries now bad_value until = until
pause retries now broken until = until
pause retries now (response status body) until =
    if nat_eq status 429 then max until (now + 5000 * (4 - retries)) else until

-- `_make_request`, which sits out a backoff of up to 30 seconds; `_backoff_queue` only widens the
-- jitter of the sleep
unfoldable pub make_request : {A : Type 0} → (ℕ → Round (Reply A)) → ℕ → Run A
unfolding rounds verdict pause
make_request round until = rounds 30_000 verdict pause round 4 0 3 until

module _ {A : Type 0} where
  pause_grows : (retries now until : ℕ) (reply : Reply A) → until ≤ pause retries now reply until
  unfolding pause
  pause_grows retries now until bad_value = ground arith
  pause_grows retries now until broken = ground arith
  pause_grows retries now until (response status body) = ground arith

  -- a response with a status of success that is not 200: `raise_for_status` does not raise
  abbrev is_other_success : Reply A → Bool
  is_other_success bad_value = false
  is_other_success broken = false
  is_other_success (response status body) =
      leb 200 status && ltb status 300 && not (nat_eq status 200)

  -- every other reply settles the request or takes one of its retries
  verdict_counted : (reply : Reply A) → is_other_success reply ≡ false → verdict reply ≢ again false
  unfolding verdict of_status
  verdict_counted bad_value usual h = cc
  verdict_counted broken usual h = cc
  verdict_counted (response status body) usual h = ground (arith, nat_eq_iff status 200)

  -- Where no reply is a success other than 200, a request to Hyperliquid comes to a result or to an
  -- exception, after three calls of the upstream at the most.
  hyperliquid_request-IsEnded :
      (round : ℕ → Round (Reply A)) (until : ℕ)
      → ((n : ℕ) → is_other_success (round n).reply ≡ false)
      → IsEnded 30_000 verdict pause round 0 3 until (make_request round until)
  unfolding make_request
  hyperliquid_request-IsEnded round until usual =
      rounds-IsEnded 30_000 verdict pause round pause_grows
        (λ n. verdict_counted (round n).reply (usual n)) 3 0 until
