-- ===== src/Bybit.antt =====
-- src/exchanges/bybit/adapter.py: `_make_request`. Times are whole milliseconds.
pub mod Bans
use exchange_router_service.Prelude.{
  ℕ, ◌+◌, max, Bool, true, false, Option, none, some, List, [], nat_eq, ltb, if◌then◌else◌,
}
use exchange_router_service.Prelude.Int.{pos}
use exchange_router_service.Errors.{upstream_unavailable, value_error, ok, raise}
use exchange_router_service.Upstream.{Verdict, settled, again, of_status, Round, Run, rounds}

-- The headers of the rate limit: `X-Bapi-Limit-Status` (100 where it is missing; `none` is one that
-- is no number) and `X-Bapi-Limit-Reset-Timestamp`.
pub data Reset : Type 0 where
  absent : Reset
  unreadable : Reset
  at : ℕ → Reset

-- The body of a 200: no JSON; JSON without what the code looks up in it; or a `retCode`, where
-- `retMsg` is there or not, with the `result` if there is one.
pub data Body (A : Type 0) : Type 0 where
  not_json : Body A
  malformed : Body A
  code : ℕ → Bool → Option A → Body A

-- What a request comes to: a response, a `ValueError`, or another exception.
pub data Reply (A : Type 0) : Type 0 where
  response : ℕ → Option ℕ → Reset → Body A → Reply A
  bad_value : Reply A
  broken : Reply A

-- whether the header of the limit counts as low
abbrev pub is_low : Option ℕ → Bool
is_low none = false
is_low (some left) = ltb left 10

-- whether a header raises `ValueError` where it is read
abbrev pub unread : Option ℕ → Reset → Bool
unread none reset = true
unread (some left) absent = false
unread (some left) (at time) = false
unread (some left) unreadable = ltb left 10

-- the time until which a low limit pauses
abbrev pub reset_time : ℕ → Reset → ℕ
reset_time now absent = now + 5000
reset_time now unreadable = 0
reset_time now (at time) = time

unfoldable pub read : {A : Type 0} → Body A → Verdict A
read not_json = settled (raise value_error)
read malformed = again true
read (code n has_message result) =
    if nat_eq n 10006
    then again true
    else if nat_eq n 0
    then elim result [ none ↦ again true | some a ↦ settled (ok a) ]
    else if has_message
    then settled (raise value_error)
    else again true

unfoldable pub verdict : {A : Type 0} → Reply A → Verdict A
unfolding read
verdict bad_value = settled (raise value_error)
verdict broken = again true
verdict (response status limit reset body) =
    if unread limit reset
    then settled (raise value_error)
    else if nat_eq status 200
    then read body
    else if nat_eq status 403
    then settled (raise (upstream_unavailable (some (pos 600))))
    else if nat_eq status 429
    then again true
    else of_status status

abbrev pub is_soft_limit : {A : Type 0} → Body A → Bool
is_soft_limit not_json = false
is_soft_limit malformed = false
is_soft_limit (code n has_message result) = nat_eq n 10006

-- what the status makes of the backoff
unfoldable pub pause_status : {A : Type 0} → ℕ → ℕ → Body A → ℕ → ℕ
pause_status now status body until =
    if nat_eq status 200
    then (if is_soft_limit body then max until (now + 2000) else until)
    else if nat_eq status 403
    then max until (now + 600_000)
    else if nat_eq status 429
    then max until (now + 5000)
    else until

-- `_backoff_until` after a reply
unfoldable pub pause : {A : Type 0} → ℕ → ℕ → Reply A → ℕ → ℕ
unfolding pause_status
pause retries now bad_value until = until
pause retries now broken until = until
pause retries now (response status limit reset body) until =
    if unread limit reset
    then until
    else pause_status now status body
        (if is_low limit then max until (reset_time now reset) else until)

-- `_make_request`, which sits out a backoff of up to 30 seconds; four rounds of fuel are enough
-- unless a reply is a success other than 200
unfoldable pub make_request : {A : Type 0} → (ℕ → Round (Reply A)) → ℕ → Run A
unfolding rounds verdict pause
make_request round until = rounds 30_000 verdict pause round 4 0 3 until
