-- ===== src/Floats.antt =====
-- Python's `float`, as far as the program computes with it: an abstract type with the operations
-- that the source applies. No law of arithmetic is assumed here; a theorem that needs one names it.
use exchange_router_service.Prelude.{Bool, String, Option}
use exchange_router_service.Prelude.Int.{ℤ}
use exchange_router_service.Errors.{Result}

pub record Floats : Type 1 where
  pub Float : Type 0
  pub add : Float → Float → Float
  pub sub : Float → Float → Float
  pub mul : Float → Float → Float
  pub div : Float → Float → Float
  -- `float(n)`
  pub of_int : ℤ → Float
  -- `int(x)`, which raises on infinities and on nan
  pub trunc : Float → Result ℤ
  -- `x < y`
  pub lt : Float → Float → Bool
  -- `float(s)` of a text, where it is accepted
  pub parse : String → Option Float
