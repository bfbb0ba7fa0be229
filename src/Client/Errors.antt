-- ===== src/Client/Errors.antt =====
-- client/exchange_router_client/errors.py: the exceptions of the client, by the status of a response.
use exchange_router_service.Prelude.{ℕ, String, Bool, ◌||◌, Option, some, if◌then◌else◌, nat_eq}

-- The classes of errors.py; each has the detail, and the status where a response gave one. `Seconds`
-- is the type of `retry_after`.
pub data ClientError (Seconds : Type 0) : Type 0 where
  router_error : String → Option ℕ → ClientError Seconds
  bad_request : String → Option ℕ → ClientError Seconds
  not_found : String → Option ℕ → ClientError Seconds
  rate_limited : String → Option ℕ → ClientError Seconds
  upstream_unavailable_error : String → Option ℕ → Option Seconds → ClientError Seconds
  not_supported : String → Option ℕ → ClientError Seconds
  router_unreachable : String → ClientError Seconds

unfoldable pub error_for_status :
    {Seconds : Type 0} → ℕ → String → Option Seconds → ClientError Seconds
error_for_status status detail retry_after =
    if nat_eq status 400
    then bad_request detail (some status)
    else if nat_eq status 404
    then not_found detail (some status)
    else if nat_eq status 429
    then rate_limited detail (some status)
    else if nat_eq status 501
    then not_supported detail (some status)
    else if nat_eq status 503
    then upstream_unavailable_error detail (some status) retry_after
    else router_error detail (some status)

-- the statuses that are tried again
unfoldable pub is_retried : ℕ → Bool
is_retried status =
    nat_eq status 429
    || nat_eq status 500
    || nat_eq status 502
    || nat_eq status 503
    || nat_eq status 504
