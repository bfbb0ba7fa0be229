-- ===== src/Adapter/Timestamps.antt =====
-- src/exchanges/base.py: `normalize_timestamp`, which brings seconds, milliseconds and ISO texts to
-- milliseconds.
use exchange_router_service.Prelude.{◌≡◌, String, Option, none, some, if◌then◌else◌, arith}
use exchange_router_service.Prelude.Int.{ℤ, pos, ◌*ℤ◌, ◌≤ℤ◌, ltb_ℤ}
use exchange_router_service.Errors.{Result, ok, raise, value_error}
use exchange_router_service.Floats.{Floats}

-- the argument: `int`, `float` or `str`
pub data Timestamp (Float : Type 0) : Type 0 where
  int : ℤ → Timestamp Float
  float : Float → Timestamp Float
  text : String → Timestamp Float

-- below this a number is taken for seconds
abbrev pub millis_from : ℤ
millis_from = pos 100_000_000_000

unfoldable pub normalize_int : ℤ → ℤ
normalize_int ts = if ltb_ℤ ts millis_from then ts *ℤ pos 1000 else ts

-- `iso_seconds` is `datetime.fromisoformat(ts.replace("Z", "+00:00")).timestamp()`, where it parses.
module _ (F : Floats) (iso_seconds : String → Option F.Float) where
  open F use {Float, mul, of_int, trunc, lt, parse}

  unfoldable pub normalize_float : Float → Result ℤ
  normalize_float ts =
      if lt ts (of_int millis_from) then trunc (mul ts (of_int (pos 1000))) else trunc ts

  abbrev pub from_iso : Option Float → Result ℤ
  from_iso none = raise value_error
  from_iso (some t) = trunc (mul t (of_int (pos 1000)))

  abbrev pub from_text : Option Float → Option Float → Result ℤ
  from_text none iso = from_iso iso
  from_text (some x) iso = normalize_float x

  unfoldable pub normalize_timestamp : Timestamp Float → Result ℤ
  unfolding normalize_int normalize_float
  normalize_timestamp (int ts) = ok (normalize_int ts)
  normalize_timestamp (float ts) = normalize_float ts
  normalize_timestamp (text s) = from_text (parse s) (iso_seconds s)

  -- A number of milliseconds from 1973-03-03 on, and what a number of seconds from the same day on
  -- has become, is left alone by a second pass.
  pub normalize_twice :
      (n m : ℤ)
      → pos 100_000_000 ≤ℤ n
      → normalize_timestamp (int n) ≡ ok m
      → normalize_timestamp (int m) ≡ ok m
  unfolding normalize_timestamp ◌*ℤ◌
  normalize_twice n m late h = ground (arith)
