-- ===== src/Router/Overview.antt =====
-- src/main.py: the routes that describe the service, its exchanges and their markets.
use exchange_router_service.Prelude.{
  Bool, true, false, ℕ, ◌≡◌, refl, ap, String, true, false, List, [], ◌∷◌, map, length, is_some,
  string_has_eq, arith, inl, inr, Option-cases,
}
use exchange_router_service.Prelude.Dict.{Dict, get, keys}
use exchange_router_service.Errors.{map_result, Result, ok, raise, ◌>>=◌}
use exchange_router_service.Models.{MarketType, market_value, SymbolInfo}
use exchange_router_service.Router.{
  Adapter, Capabilities, RouteBlock, routes_or_empty, found, mem_text,
}

-- an entry of `market_types` in the overview
pub record MarketEntry : Type 0 where
  pub name : String
  pub symbol_count : ℕ
  pub capabilities : Dict String RouteBlock

abbrev pub is_found : {A : Type 0} → Result A → Bool
is_found (ok a) = true
is_found (raise e) = false

-- the names in an overview
abbrev pub names_in : String × List MarketEntry → List String
names_in overview = map (λ e. e.name) overview.1

module _ {Float : Type 0} where
  -- `service_root`: each exchange with its markets
  unfoldable pub service_root : Dict String (Adapter Float) → List (String × List String)
  service_root = map (λ e. (e.0, map market_value e.1.supported_market_types))

  -- `list_exchanges`
  unfoldable pub list_exchanges : Dict String (Adapter Float) → ℕ × List String
  list_exchanges registry = (length registry, keys registry)

  -- `_symbol_count`; a failure counts as no symbol
  unfoldable pub symbol_count : Result (List (SymbolInfo Float)) → ℕ
  symbol_count (raise e) = 0
  symbol_count (ok infos) = length infos

  abbrev pub market_entry : Adapter Float → MarketType → MarketEntry
  unfolding symbol_count
  market_entry a mt = record {
    name = market_value mt;
    symbol_count = symbol_count (a.get_exchange_info mt);
    capabilities = routes_or_empty (get (market_value mt) a.capabilities);
  }

  -- `exchange_overview`; the body is the name of the exchange and the entries
  unfoldable pub exchange_overview :
      Dict String (Adapter Float) → String → Result (String × List MarketEntry)
  unfolding market_entry
  exchange_overview registry exchange = do
    a ← found (get exchange registry)
    ok (exchange, map (market_entry a) a.supported_market_types)

  -- `exchange_capabilities` and `list_market_types`
  unfoldable pub exchange_capabilities : Dict String (Adapter Float) → String → Result Capabilities
  exchange_capabilities registry exchange = do a ← found (get exchange registry); ok a.capabilities

  unfoldable pub list_market_types : Dict String (Adapter Float) → String → Result (List MarketType)
  list_market_types registry exchange = do
    a ← found (get exchange registry)
    ok a.supported_market_types

  mem_text-keys :
      (exchange : String) (registry : Dict String (Adapter Float))
      → mem_text exchange (keys registry) ≡ is_some (get exchange registry)
  unfolding get mem_text
  mem_text-keys exchange [] = refl
  mem_text-keys exchange ((k, a) ∷ registry) = ground (arith, mem_text-keys exchange registry)

  names :
      (a : Adapter Float) (mts : List MarketType)
      → map (λ e. e.name) (map (market_entry a) mts) ≡ map market_value mts
  unfolding market_entry
  names a [] = refl
  names a (mt ∷ mts) = ap (λ ns. market_value mt ∷ ns) (names a mts)

  -- An exchange has an overview exactly when the list of exchanges names it, whatever its adapter
  -- answers. The overview has an entry for each of the markets that `list_market_types` gives, in
  -- that order, and the two routes fail alike.
  overview_lem :
      (registry : Dict String (Adapter Float)) (exchange : String)
      → (is_found (exchange_overview registry exchange)
          ≡ mem_text exchange (list_exchanges registry).1)
        × (map_result names_in (exchange_overview registry exchange)
            ≡ map_result (map market_value) (list_market_types registry exchange))
  unfolding list_exchanges exchange_overview list_market_types
  overview_lem registry exchange = elim (Option-cases (get exchange registry)) [
    | inl miss ↦ (rw miss (ground (arith, mem_text-keys exchange registry)), rw miss)
    | inr (a, hit) ↦ (
      rw hit (ground (arith, mem_text-keys exchange registry)),
      rw hit (ap ok (names a a.supported_market_types)),
    )
  ]
