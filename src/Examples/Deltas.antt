-- ===== src/Examples/Deltas.antt =====
-- Runs of the order books of src/exchanges/bybit/adapter.py and src/exchanges/okx/adapter.py.
use exchange_router_service.Prelude.{
  ℕ, ◌*◌, Bool, true, false, ◌≡◌, refl, none, some, [], ◌∷◌, nat_eq, nat_has_eq,
}
use exchange_router_service.Prelude.Dict.{put, pop}
use exchange_router_service.Deltas.{
  Delta, bybit_books, okx_books, bybit_gap, okx_gap, run, deliver, set_levels, set_level,
}
use exchange_router_service.Deltas.Gaps.{BybitFollows, OkxFollows}
use exchange_router_service.Deltas.Follow.{Outcome, bybit_books-Outcome, okx_books-Outcome}

abbrev nothing : ℕ → Bool
nothing q = nat_eq q 0

abbrev tenfold : ℕ → ℕ
tenfold q = q * 10

abbrev opening : Delta ℕ ℕ
opening = record {
  is_snapshot = true;
  id = some 5;
  prev = none;
  bids = (100, 2) ∷ (99, 1) ∷ [];
  asks = (101, 4) ∷ [];
}

abbrev change : ℕ → Delta ℕ ℕ
change n = record {
  is_snapshot = false;
  id = some n;
  prev = some 5;
  bids = (100, 0) ∷ [];
  asks = (101, 3) ∷ [];
}

bybit_books-Outcome_example :
    Outcome nothing
      (λ q. q)
      BybitFollows
      (opening ∷ change 6 ∷ [])
      (bybit_books nothing (opening ∷ change 6 ∷ []))
bybit_books-Outcome_example = bybit_books-Outcome nothing (opening ∷ change 6 ∷ [])

okx_books-Outcome_example :
    Outcome nothing tenfold OkxFollows
      (opening ∷ change 9 ∷ [])
      (okx_books nothing tenfold (opening ∷ change 9 ∷ []))
okx_books-Outcome_example = okx_books-Outcome nothing tenfold (opening ∷ change 9 ∷ [])

bybit_test :
    bybit_books nothing (opening ∷ change 6 ∷ [])
    ≡ some
        (record { bids = (99, 1) ∷ []; asks = (101, 3) ∷ []; last = some 6; bootstrapped = true })
unfolding bybit_books run deliver bybit_gap set_levels set_level put pop
bybit_test = refl

bybit_gap_test : bybit_books nothing (opening ∷ change 7 ∷ []) ≡ none
unfolding bybit_books run deliver bybit_gap set_levels set_level put pop
bybit_gap_test = refl

okx_test :
    okx_books nothing tenfold (opening ∷ change 9 ∷ [])
    ≡ some
        (record { bids = (99, 10) ∷ []; asks = (101, 30) ∷ []; last = some 9; bootstrapped = true })
unfolding okx_books run deliver okx_gap set_levels set_level put pop
okx_test = refl
