-- ===== src/Examples/Buckets.antt =====
-- Runs of `_RateBucket` of src/exchanges/okx/adapter.py.
use exchange_router_service.Prelude.{ℕ, ◌+◌, ◌≤◌, max, ◌≡◌, refl, some, List, [], ◌∷◌, arith}
use exchange_router_service.Okx.{acquire, turn, pop_left, sleep_of}
use exchange_router_service.Okx.RateWindow.{count_within, serve_all, Log, window_bound}
use exchange_router_service.Okx.Patience.{acquire_ends}

-- two requests a second, and five turns, the third of which comes too early
abbrev calls : List (ℕ × ℕ)
calls = (100, 0) ∷ (200, 0) ∷ (300, 7) ∷ (1101, 0) ∷ (1201, 0) ∷ []

abbrev fresh : Log
fresh = record { sent = []; timestamps = [] }

window_bound_example : count_within 150 (150 + 1000) (serve_all 2 1000 calls fresh).sent ≤ 2
window_bound_example =
    window_bound 2 1000 calls
      (omega arith, (omega arith, (omega arith, (omega arith, (omega arith, tt))))) 150

sent_test : (serve_all 2 1000 calls fresh).sent ≡ 100 ∷ 200 ∷ 1101 ∷ 1201 ∷ []
unfolding turn pop_left sleep_of
sent_test = refl

abbrev no_jitter : ℕ → ℕ
no_jitter n = 0

acquire_ends_example :
    (later : ℕ) × (ts' : List ℕ) × (acquire 2 1000 no_jitter 3 300 (100 ∷ 200 ∷ [])
      ≡ some (later, ts'))
    × (later ≤ 300 + max 1000 10 + 10 + no_jitter 2 + no_jitter 1)
acquire_ends_example =
    acquire_ends 2 1000 no_jitter 300 (100 ∷ 200 ∷ []) (omega arith) (omega arith)
      (omega arith, (omega arith, tt))

-- it wakes at the very end of the window, and then once more
acquire_test : acquire 2 1000 no_jitter 3 300 (100 ∷ 200 ∷ []) ≡ some (1110, 200 ∷ 1110 ∷ [])
unfolding acquire turn pop_left sleep_of
acquire_test = refl
