-- ===== src/Examples/Walks.antt =====
-- Runs of the candles of src/exchanges/kraken/adapter.py.
use exchange_router_service.Prelude.{ℕ, ◌≡◌, refl, some, List, [], ◌∷◌, nat_eq, if◌then◌else◌}
use exchange_router_service.Prelude.Int.{ℤ, pos, ◌-ℤ◌, ◌*ℤ◌}
use exchange_router_service.Prelude.Sort.{sort_by, insert_by}
use exchange_router_service.Errors.{Result, ok, raise, value_error}
use exchange_router_service.Adapter.Pagination.{stops_early}
use exchange_router_service.Kraken.Candles.{
  Walk, begin, walk, max_pages, get_candles, given, anchor_of, take_rows, take_row, mem_time, up_to,
}
use exchange_router_service.Kraken.Candles.Newest.{Newest, futures_candles_lem}

-- two pages that overlap, and then a `ValueError`
abbrev answer : ℕ → ℤ → Result (List (ℤ × Result ℕ))
answer left from =
    if nat_eq left 19
    then ok ((pos 60_000, ok 1) ∷ (pos 120_000, ok 2) ∷ [])
    else if nat_eq left 18
    then ok ((pos 120_000, ok 9) ∷ (pos 180_000, ok 3) ∷ (pos 240_000, ok 4) ∷ [])
    else raise value_error

run :
    get_candles answer (pos 60) (pos 900) (some (pos 200_000)) 2
    ≡ ok ((pos 120_000, 2) ∷ (pos 180_000, 3) ∷ [])
unfolding get_candles walk take_rows take_row mem_time stops_early up_to sort_by insert_by
run = refl

futures_candles_lem_example :
    (w : Walk ℕ) × (walk answer
        (pos 60)
        (anchor_of (pos 900) (given (some (pos 200_000))))
        max_pages
        (anchor_of (pos 900) (given (some (pos 200_000))) -ℤ pos 2 *ℤ pos 60)
        begin
      ≡ ok w)
    × Newest (given (some (pos 200_000))) 2 w ((pos 120_000, 2) ∷ (pos 180_000, 3) ∷ [])
futures_candles_lem_example =
    futures_candles_lem answer (pos 60) (pos 900) (some (pos 200_000)) 2 run
