-- ===== src/Auditor.antt =====
-- tools/auditor/aggregator.py: the counts over the results of a run of probes.
pub mod Counts
use exchange_router_service.Prelude.{
  ℕ, ◌+◌, String, Bool, true, false, Option, none, some, List, [], ◌∷◌, ◌++◌, if◌then◌else◌,
  string_has_eq,
}
use exchange_router_service.Prelude.Dict.{Dict, get, put}

pub data Status : Type 0 where
  pass warn fail skip : Status

-- the parts of a `ProbeResult` that are counted; `error_type` is the value of the enum
pub record ProbeResult : Type 0 where
  pub exchange : String
  pub market_type : String
  pub route : String
  pub status : Status
  pub error_type : String

-- `{"pass": 0, "warn": 0, "fail": 0, "skip": 0}`
pub record Totals : Type 0 where
  pub passed : ℕ
  pub warned : ℕ
  pub failed : ℕ
  pub skipped : ℕ

abbrev pub zeros : Totals
zeros = record { passed = 0; warned = 0; failed = 0; skipped = 0 }

-- `out[r.status] += 1`
unfoldable pub bump : Status → Totals → Totals
bump pass c = record c { passed = c.passed + 1 }
bump warn c = record c { warned = c.warned + 1 }
bump fail c = record c { failed = c.failed + 1 }
bump skip c = record c { skipped = c.skipped + 1 }

-- `Aggregator.add` and `extend`
unfoldable pub add : ProbeResult → List ProbeResult → List ProbeResult
add r results = results ++ r ∷ []

unfoldable pub extend : List ProbeResult → List ProbeResult → List ProbeResult
extend more results = results ++ more

unfoldable pub totals_from : Totals → List ProbeResult → Totals
unfolding bump
totals_from out [] = out
totals_from out (r ∷ results) = totals_from (bump r.status out) results

-- `totals`
unfoldable pub totals : List ProbeResult → Totals
unfolding totals_from
totals results = totals_from zeros results

-- a `defaultdict(int)`
abbrev pub or_zero : Option ℕ → ℕ
or_zero none = 0
or_zero (some n) = n

unfoldable pub by_error_type_from : Dict String ℕ → List ProbeResult → Dict String ℕ
by_error_type_from out [] = out
by_error_type_from out (r ∷ results) =
    by_error_type_from (put r.error_type (or_zero (get r.error_type out) + 1) out) results

-- `by_error_type`
unfoldable pub by_error_type : List ProbeResult → Dict String ℕ
unfolding by_error_type_from
by_error_type results = by_error_type_from [] results

abbrev pub or_zeros : Option Totals → Totals
or_zeros none = zeros
or_zeros (some c) = c

unfoldable pub by_exchange_from : Dict String Totals → List ProbeResult → Dict String Totals
unfolding bump
by_exchange_from out [] = out
by_exchange_from out (r ∷ results) =
    by_exchange_from (put r.exchange (bump r.status (or_zeros (get r.exchange out))) out) results

-- `by_exchange`
unfoldable pub by_exchange : List ProbeResult → Dict String Totals
unfolding by_exchange_from
by_exchange results = by_exchange_from [] results
