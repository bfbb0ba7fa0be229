-- ===== src/Examples/Audits.antt =====
-- A run of the counts of tools/auditor/aggregator.py.
use exchange_router_service.Prelude.{◌+◌, ◌≡◌, List, [], ◌∷◌, length, string_has_eq}
use exchange_router_service.Prelude.Dict.{get}
use exchange_router_service.Auditor.{
  ProbeResult, Status, pass, fail, totals, by_exchange, by_error_type, or_zero, or_zeros,
}
use exchange_router_service.Auditor.Counts.{
  entry, with_status, on_exchange, with_error, sum_of, sum_all, counts_lem,
}

abbrev result : Status → ProbeResult
result s = record {
  exchange = "kraken";
  market_type = "spot";
  route = "ticker";
  status = s;
  error_type = "ok";
}

abbrev results : List ProbeResult
results = result pass ∷ result fail ∷ result pass ∷ []

counts_lem_example :
    (entry pass (totals results) ≡ with_status pass results)
    × (sum_of pass (by_exchange results) ≡ entry pass (totals results))
    × (entry pass (or_zeros (get "kraken" (by_exchange results)))
        ≡ on_exchange "kraken" pass results)
    × ((totals results).passed
          + (totals results).warned
          + (totals results).failed
          + (totals results).skipped
        ≡ length results)
    × (or_zero (get "ok" (by_error_type results)) ≡ with_error "ok" results)
    × (sum_all (by_error_type results) ≡ length results)
counts_lem_example = counts_lem results pass "kraken" "ok"
