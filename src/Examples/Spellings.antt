-- ===== src/Examples/Spellings.antt =====
-- Runs of the symbols of src/exchanges/okx/adapter.py.
use exchange_router_service.Prelude.{◌≡◌, refl, List, [], ◌∷◌}
use exchange_router_service.Models.{linear, spot}
use exchange_router_service.Capabilities.{codes}
use exchange_router_service.Symbols.{
  Text, to_upper, text_eq, remove_char, starts_with, remove_from, before_suffix,
}
use exchange_router_service.Okx.Symbols.{normalize_symbol, quoted, get_api_symbol, get_model_symbol}
use exchange_router_service.Okx.Symbols.RoundTrip.{complete, okx_roundtrip, IsQuote}
use exchange_router_service.Prelude.{All, arith}

abbrev quotes : List Text
quotes = codes "USDT" ∷ codes "BTC" ∷ []

quotes-IsQuote : All IsQuote quotes
unfolding to_upper starts_with
quotes-IsQuote = ground arith

okx_roundtrip_example :
    get_model_symbol (get_api_symbol quotes (codes "btc/usdt") spot)
    ≡ complete spot (normalize_symbol (codes "btc/usdt"))
okx_roundtrip_example = okx_roundtrip quotes (codes "btc/usdt") spot quotes-IsQuote

linear_test : get_api_symbol quotes (codes "eth") linear ≡ codes "ETH-USDT-SWAP"
unfolding get_api_symbol normalize_symbol quoted to_upper text_eq remove_char starts_with
    remove_from before_suffix
linear_test = refl

spot_test : get_api_symbol quotes (codes "ethbtc") spot ≡ codes "ETH-BTC"
unfolding get_api_symbol normalize_symbol quoted to_upper text_eq remove_char starts_with
    remove_from before_suffix
spot_test = refl
