-- ===== src/Capabilities/Advertised.antt =====
-- What the capability tables of the adapters promise, against the code that has to keep it.
use exchange_router_service.Prelude.{
  Option-cases, subst, String, Bool, true, false, ◌&&◌, ◌≡◌, refl, none, some, List, [], ◌∷◌,
  str_eq_iff, inl, inr, arith, string_has_eq,
}
use exchange_router_service.Prelude.Int.{ℤ, eqb_ℤ, eqb_ℤ_iff}
use exchange_router_service.Prelude.Dict.{Dict, get}
use exchange_router_service.Router.{
  RouteBlock, Capabilities, route_block, routes_or_empty, block_or_empty, mem_text,
}
use exchange_router_service.Router.Periods.{period_to_ms}
use exchange_router_service.Capabilities.{
  interval_to_ms, interval_to_ms_with_months, interval_to_ms_of_binance, codes,
}
use exchange_router_service.Capabilities.Binance
use exchange_router_service.Capabilities.Bybit
use exchange_router_service.Capabilities.Hyperliquid
use exchange_router_service.Capabilities.Kraken
use exchange_router_service.Capabilities.Kucoin
use exchange_router_service.Capabilities.Okx

-- a test of every member
unfoldable pub all_pass {ℓ} : {A : Type ℓ} → (A → Bool) → List A → Bool
all_pass test [] = true
all_pass test (x ∷ xs) = test x && all_pass test xs

pub all_pass-mem :
    (test : String → Bool) (i : String) (is : List String)
    → all_pass test is ≡ true
    → mem_text i is ≡ true
    → test i ≡ true
unfolding all_pass mem_text
all_pass-mem test i [] h m = cc
all_pass-mem test i (x ∷ xs) h m =
    ground (arith, str_eq_iff x i, str_eq_iff i x, all_pass-mem test i xs)

all_pass-get :
    {V : Type 0} (test : V → Bool) (k : String) (v : V) (d : Dict String V)
    → all_pass (λ (entry : String × V). test entry.1) d ≡ true
    → get k d ≡ some v
    → test v ≡ true
unfolding all_pass get
all_pass-get test k v [] h e = cc
all_pass-get test k v ((j, w) ∷ d) h e = ground (arith, all_pass-get test k v d)

-- the exchanges that the service knows
pub data Exchange : Type 0 where
  binance bybit hyperliquid kraken kucoin okx : Exchange

abbrev pub capabilities_of : Exchange → Capabilities
capabilities_of binance = Binance.capabilities
capabilities_of bybit = Bybit.capabilities
capabilities_of hyperliquid = Hyperliquid.capabilities
capabilities_of kraken = Kraken.capabilities
capabilities_of kucoin = Kucoin.capabilities
capabilities_of okx = Okx.capabilities

-- `_interval_to_ms` of the adapter; only the adapters of Hyperliquid and KuCoin call theirs
abbrev pub to_ms : Exchange → String → ℤ
to_ms binance = interval_to_ms_of_binance
to_ms bybit = interval_to_ms_with_months
to_ms hyperliquid = interval_to_ms_with_months
to_ms kraken = interval_to_ms
to_ms kucoin = interval_to_ms
to_ms okx = interval_to_ms_with_months

abbrev listed : (String → Bool) → RouteBlock → Bool
unfolding all_pass
listed test b = elim b.intervals [ none ↦ true | some is ↦ all_pass test is ]

listed-mem :
    (test : String → Bool) (b : RouteBlock) (i : String) (is : List String)
    → listed test b ≡ true
    → b.intervals ≡ some is
    → mem_text i is ≡ true
    → test i ≡ true
unfolding listed
listed-mem test b i is h e m = all_pass-mem test i is (ground arith) m

oi_routes : (String → Bool) → Capabilities → Bool
unfolding all_pass listed get
oi_routes test = all_pass (λ (market : String × Dict String RouteBlock).
    listed test (block_or_empty (get "open_interest" market.1)))

same_period : Exchange → String → Bool
same_period e i = elim (period_to_ms (codes i)) [ none ↦ false | some ms ↦ eqb_ℤ ms (to_ms e i) ]

same_periods : (e : Exchange) → oi_routes (same_period e) (capabilities_of e) ≡ true
unfolding oi_routes same_period period_to_ms interval_to_ms interval_to_ms_with_months
    interval_to_ms_of_binance
same_periods binance = refl
same_periods bybit = refl
same_periods hyperliquid = refl
same_periods kraken = refl
same_periods kucoin = refl
same_periods okx = refl

read_same :
    (e : Exchange) (i : String) → same_period e i ≡ true → period_to_ms (codes i) ≡ some (to_ms e i)
unfolding same_period
read_same e i h = elim (Option-cases (period_to_ms (codes i))) [
  | inl none_there ↦ ground arith
  | inr (ms, there) ↦ ground (arith, eqb_ℤ_iff ms (to_ms e i))
]

-- Whatever period an exchange lists for its open interest, on any market, `_period_to_ms` of main.py
-- and `_interval_to_ms` of the adapter read it as the same number of milliseconds.
pub oi_periods_agree :
    (e : Exchange) (market i : String) (is : List String)
    → (route_block (capabilities_of e) market "open_interest").intervals ≡ some is
    → mem_text i is ≡ true
    → period_to_ms (codes i) ≡ some (to_ms e i)
unfolding route_block oi_routes
oi_periods_agree e market i is h m = elim (Option-cases (get market (capabilities_of e))) [
  | inl no_market ↦ cc (
      subst (λ o. (block_or_empty (get "open_interest" (routes_or_empty o))).intervals ≡ some is)
        no_market h)
  | inr (routes, found) ↦
      let h' =
        subst (λ o. (block_or_empty (get "open_interest" (routes_or_empty o))).intervals ≡ some is)
          found h in
      let inside =
        all_pass-get
          (λ (d : Dict String RouteBlock).
            listed (same_period e) (block_or_empty (get "open_interest" d)))
          market routes (capabilities_of e) (same_periods e) found in
      read_same e i
        (listed-mem (same_period e) (block_or_empty (get "open_interest" routes)) i is inside h' m)
]
