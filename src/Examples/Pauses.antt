-- ===== src/Examples/Pauses.antt =====
-- Runs of `_make_request` of src/exchanges/binance/adapter.py.
use exchange_router_service.Prelude.{ℕ, ◌≡◌, refl, String, none, [], string_has_eq}
use exchange_router_service.Binance.{Backoffs, Reply, response, verdict, rounds}
use exchange_router_service.Binance.Retries.{uncounted_success}

abbrev host : String
host = "api.binance.com"

abbrev clock : ℕ → ℕ
clock n = 1_000_000

abbrev nothing_paused : Backoffs
nothing_paused = []

-- 204 each time
abbrev empty_reply : ℕ → Reply ℕ
empty_reply n = response 204 100 5 none

uncounted_success_example : rounds host empty_reply clock 1000 0 3 nothing_paused ≡ none
unfolding verdict
uncounted_success_example = uncounted_success host empty_reply clock nothing_paused (λ n. refl) 1000
