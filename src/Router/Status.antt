-- ===== src/Router/Status.antt =====
-- src/main.py: the exception handlers, which turn what a route raises into an HTTP response.
use exchange_router_service.Prelude.{ℕ, Option, none, some, if◌then◌else◌}
use exchange_router_service.Prelude.Int.{ℤ, pos, ltb_ℤ}
use exchange_router_service.Errors.{
  Error, upstream_unavailable, value_error, validation_error, not_implemented, http_status_error,
  transport_error, http_exception, attribute_error, other,
}

-- The status, and the number in the header `Retry-After` where there is one.
pub record Response : Type 0 where
  pub status : ℕ
  pub retry_after : Option ℤ

abbrev pub plain : ℕ → Response
plain status = record { status = status; retry_after = none }

-- `max(int(exc.retry_after), 1)`
unfoldable pub header : Option ℤ → Option ℤ
header none = none
header (some t) = some (if ltb_ℤ t (pos 1) then pos 1 else t)

-- The handler that fastapi picks by the class of the exception; `ValidationError` has its own,
-- although it is a `ValueError`.
unfoldable pub respond : Error → Response
unfolding header
respond (upstream_unavailable retry_after) = record {
  status = 503;
  retry_after = header retry_after;
}
respond value_error = plain 400
respond validation_error = plain 502
respond not_implemented = plain 501
respond (http_exception status) = plain status
respond http_status_error = plain 500
respond transport_error = plain 500
respond attribute_error = plain 500
respond other = plain 500
