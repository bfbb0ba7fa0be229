-- ===== src/Okx/Requests.antt =====
-- src/exchanges/okx/adapter.py: `_make_request`. Times are whole milliseconds.
use exchange_router_service.Prelude.{
  ℕ, ◌+◌, ◌≤◌, max, ◌≢◌, true, false, nat_eq, if◌then◌else◌, arith, ◌≡◌, Bool, not, ◌&&◌, leb, ltb,
  nat_eq_iff,
}
use exchange_router_service.Errors.{value_error, ok, raise}
use exchange_router_service.Upstream.{Verdict, settled, again, of_status, Round, Run, rounds}
use exchange_router_service.Upstream.Ends.{IsEnded, rounds-IsEnded}

-- The header `Retry-After`: missing or empty, no number, or a time (0 for one that is negative).
pub data RetryAfter : Type 0 where
  absent : RetryAfter
  unreadable : RetryAfter
  after : ℕ → RetryAfter

-- The body of a 200: no JSON; JSON that is no object; a `code` other than "0"; or the `data`.
pub data Body (A : Type 0) : Type 0 where
  not_json : Body A
  malformed : Body A
  api_error : Body A
  payload : A → Body A

-- What a request comes to: a response, a `ValueError`, or another exception.
pub data Reply (A : Type 0) : Type 0 where
  response : ℕ → RetryAfter → Body A → Reply A
  bad_value : Reply A
  broken : Reply A

-- `wait_s`
abbrev pub wait_of : RetryAfter → ℕ
wait_of absent = 10_000
wait_of unreadable = 10_000
wait_of (after t) = max t 2000

abbrev pub read : {A : Type 0} → Body A → Verdict A
read not_json = settled (raise value_error)
read malformed = again true
read api_error = settled (raise value_error)
read (payload a) = settled (ok a)

unfoldable pub verdict : {A : Type 0} → Reply A → Verdict A
verdict bad_value = settled (raise value_error)
verdict broken = again true
verdict (response status header body) =
    if nat_eq status 429
    then again true
    else if nat_eq status 200
    then read body
    else of_status status

-- `_backoff_until` after a reply
unfoldable pub pause : {A : Type 0} → ℕ → ℕ → Reply A → ℕ → ℕ
pause retries now bad_value until = until
pause retries now broken until = until
pause retries now (response status header body) until =
    if nat_eq status 429 then max until (now + wait_of header) else until

-- `_make_request`, which sits out a backoff of up to a minute; the jitter of a round holds the waits
-- for the semaphore and the bucket too
unfoldable pub make_request : {A : Type 0} → (ℕ → Round (Reply A)) → ℕ → Run A
unfolding rounds verdict pause
make_request round until = rounds 60_000 verdict pause round 4 0 3 until

module _ {A : Type 0} where
  pause_grows : (retries now until : ℕ) (reply : Reply A) → until ≤ pause retries now reply until
  unfolding pause
  pause_grows retries now until bad_value = ground arith
  pause_grows retries now until broken = ground arith
  pause_grows retries now until (response status header body) = ground arith

  -- a response with a status of success that is not 200: `raise_for_status` does not raise
  abbrev is_other_success : Reply A → Bool
  is_other_success bad_value = false
  is_other_success broken = false
  is_other_success (response status header body) =
      leb 200 status && ltb status 300 && not (nat_eq status 200)

  read_counted : (body : Body A) → read body ≢ again false
  read_counted body h = ground arith

  -- every other reply settles the request or takes one of its retries
  verdict_counted : (reply : Reply A) → is_other_success reply ≡ false → verdict reply ≢ again false
  unfolding verdict of_status
  verdict_counted bad_value usual h = cc
  verdict_counted broken usual h = cc
  verdict_counted (response status header body) usual h =
      ground (arith, nat_eq_iff status 200, read_counted body)

  -- Where no reply is a success other than 200, a request to OKX comes to a result or to an
  -- exception, after three calls of the upstream at the most.
  okx_request-IsEnded :
      (round : ℕ → Round (Reply A)) (until : ℕ)
      → ((n : ℕ) → is_other_success (round n).reply ≡ false)
      → IsEnded 60_000 verdict pause round 0 3 until (make_request round until)
  unfolding make_request
  okx_request-IsEnded round until usual =
      rounds-IsEnded 60_000 verdict pause round pause_grows
        (λ n. verdict_counted (round n).reply (usual n)) 3 0 until
