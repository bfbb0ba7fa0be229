-- ===== src/Okx/Symbols.antt =====
-- src/exchanges/okx/adapter.py: `normalize_symbol`, `get_api_symbol` and `get_model_symbol`.
pub mod RoundTrip
use exchange_router_service.Prelude.{
  ℕ, ◌≡◌, ◌≢◌, refl, ap, ◌∙◌, sym, subst, Bool, Option, none, some, List, [], ◌∷◌, ◌++◌, All,
  All-map, All-append, Option-cases, inl, inr, arith, length, drop,
}
use exchange_router_service.Models.{MarketType, spot, linear, inverse}
use exchange_router_service.Symbols.{
  Text, dash, upper, remove_char, remove_all, remove_from, before_suffix,
}

abbrev pub swap : Text
swap = b'S' ∷ b'W' ∷ b'A' ∷ b'P' ∷ []

-- "-SWAP"
abbrev pub swap_text : Text
swap_text = dash ∷ swap

abbrev pub usdt : Text
usdt = b'U' ∷ b'S' ∷ b'D' ∷ b'T' ∷ []

abbrev pub usdc : Text
usdc = b'U' ∷ b'S' ∷ b'D' ∷ b'C' ∷ []

abbrev pub usd : Text
usd = b'U' ∷ b'S' ∷ b'D' ∷ []

-- `normalize_symbol`
unfoldable pub normalize_symbol : Text → Text
unfolding remove_char remove_from
normalize_symbol symbol = remove_char b'/' (remove_char dash (remove_all swap_text (upper symbol)))

-- the first of the quotes that the text ends with, and what stands before it
abbrev pub cut : Option Text → Text → Option (Text × Text) → Option (Text × Text)
cut none q rest = rest
cut (some base) q rest = some (base, q)

unfoldable pub quoted : List Text → Text → Option (Text × Text)
unfolding before_suffix
quoted [] s = none
quoted (q ∷ quotes) s = cut (before_suffix q s) q (quoted quotes s)

abbrev pub swap_symbol : Text → Option (Text × Text) → Text → Text
swap_symbol s none quote = s ++ (dash ∷ (quote ++ swap_text))
swap_symbol s (some (base, q)) quote = base ++ (dash ∷ (q ++ swap_text))

abbrev pub spot_symbol : Text → Option (Text × Text) → Text
spot_symbol s none = s
spot_symbol s (some (base, q)) = base ++ (dash ∷ q)

-- `get_api_symbol` of a symbol that is normalized, with the quotes of the spot market
abbrev pub to_api : List Text → MarketType → Text → Text
to_api quotes spot s = spot_symbol s (quoted quotes s)
to_api quotes linear s = swap_symbol s (quoted (usdt ∷ usdc ∷ []) s) usdt
to_api quotes inverse s = swap_symbol s (quoted (usd ∷ []) s) usd

-- `get_api_symbol`
unfoldable pub get_api_symbol : List Text → Text → MarketType → Text
unfolding normalize_symbol quoted
get_api_symbol quotes symbol mt = to_api quotes mt (normalize_symbol symbol)

-- `get_model_symbol`
unfoldable pub get_model_symbol : Text → Text
unfolding remove_char remove_from
get_model_symbol api_symbol = remove_char dash (remove_all swap_text (upper api_symbol))
