-- ===== src/Okx/Symbols/RoundTrip.antt =====
-- The symbols of OKX there and back (src/exchanges/okx/adapter.py).
use mathlib.Core.List.{append-nil}
use exchange_router_service.Prelude.{
  ℕ, ◌≡◌, ◌≢◌, refl, ap, ◌∙◌, sym, subst, false, Option, none, some, List, [], ◌∷◌, ◌++◌, All,
  All-map, Option-cases, inl, inr,
}
use exchange_router_service.Models.{MarketType, spot, linear, inverse}
use exchange_router_service.Symbols.{
  Text, dash, to_upper, upper, remove_char, remove_all, remove_from, starts_with, before_suffix,
}
use exchange_router_service.Symbols.Plain.{
  IsPlain, upper-IsPlain, All-upper, All-remove_char, All-remove_from, remove_char-append,
  remove_all-append,
}
use exchange_router_service.Symbols.Suffix.{before_suffix-append}
use exchange_router_service.Okx.Symbols.{
  swap, swap_text, usdt, usdc, usd, normalize_symbol, cut, quoted, swap_symbol, spot_symbol,
  get_api_symbol, get_model_symbol,
}

normalize_symbol-IsPlain : (s : Text) → All IsPlain (normalize_symbol s)
unfolding normalize_symbol
normalize_symbol-IsPlain s =
    let no_swap = All-remove_from (λ c. to_upper c ≡ c) swap_text 0 (upper s) (All-upper s) in
    let no_dash =
      All-remove_char (λ c. to_upper c ≡ c) dash (remove_all swap_text (upper s)) no_swap in
    let no_slash =
      All-remove_char (λ c. (to_upper c ≡ c) × (c ≢ dash)) b'/'
        (remove_char dash (remove_all swap_text (upper s))) no_dash in
    All-map (λ c. ((to_upper c ≡ c) × (c ≢ dash)) × (c ≢ b'/')) IsPlain (λ c h. (h.0.0, h.0.1, h.1))
      (normalize_symbol s) no_slash

All-append_left : (P : ℕ → Type 0) (s t : Text) → All P (s ++ t) → All P s
All-append_left P [] t h = tt
All-append_left P (c ∷ s) t h = (h.0, All-append_left P s t h.1)

no_dash : (s : Text) → All IsPlain s → All (λ c. c ≢ dash) s
no_dash s h = All-map IsPlain (λ c. c ≢ dash) (λ c p. p.1) s h

upper-append : (s t : Text) → upper (s ++ t) ≡ upper s ++ upper t
upper-append [] t = refl
upper-append (c ∷ s) t = ap (λ r. to_upper c ∷ r) (upper-append s t)

-- a plain text stays in front of what `get_model_symbol` makes of the rest
model-append :
    (b tail out : Text)
    → All IsPlain b
    → upper tail ≡ tail
    → remove_char dash (remove_all swap_text tail) ≡ out
    → get_model_symbol (b ++ tail) ≡ b ++ out
unfolding get_model_symbol
model-append b tail out plain up e =
    ap (λ t. remove_char dash (remove_all swap_text t))
      (upper-append b tail
        ∙ ap (λ r. r ++ upper tail) (upper-IsPlain b plain)
        ∙ ap (λ r. b ++ r) up)
    ∙ ap (remove_char dash) (remove_all-append dash swap b tail (no_dash b plain))
    ∙ remove_char-append dash b (remove_all swap_text tail) (no_dash b plain)
    ∙ ap (λ r. b ++ r) e

unmarked_stays : (s : Text) → All IsPlain s → remove_char dash (remove_all swap_text s) ≡ s
unfolding remove_from remove_char
unmarked_stays s plain =
    ap (λ t. remove_char dash (remove_all swap_text t)) (sym (append-nil s))
    ∙ ap (remove_char dash) (remove_all-append dash swap s [] (no_dash s plain))
    ∙ remove_char-append dash s [] (no_dash s plain)
    ∙ append-nil s

model_plain : (s : Text) → All IsPlain s → get_model_symbol s ≡ s
unfolding remove_from remove_char
model_plain s plain =
    ap get_model_symbol (sym (append-nil s)) ∙ model-append s [] [] plain refl refl ∙ append-nil s

-- a quote of the spot market: plain, and not one that would make the dash in front of it a "-SWAP"
abbrev pub IsQuote : Text → Type 0
IsQuote q = All IsPlain q × (starts_with swap q ≡ false)

model_spot : (b q : Text) → All IsPlain b → IsQuote q → get_model_symbol (b ++ (dash ∷ q)) ≡ b ++ q
unfolding remove_from remove_char to_upper starts_with
model_spot b q plain quote =
    model-append b (dash ∷ q) q plain (ap (λ r. dash ∷ r) (upper-IsPlain q quote.0))
      (rw quote.1 (unmarked_stays q quote.0))

model_usdt :
    (b : Text) → All IsPlain b → get_model_symbol (b ++ (dash ∷ (usdt ++ swap_text))) ≡ b ++ usdt
unfolding remove_from remove_char to_upper starts_with
model_usdt b plain = model-append b (dash ∷ (usdt ++ swap_text)) usdt plain refl refl

model_usdc :
    (b : Text) → All IsPlain b → get_model_symbol (b ++ (dash ∷ (usdc ++ swap_text))) ≡ b ++ usdc
unfolding remove_from remove_char to_upper starts_with
model_usdc b plain = model-append b (dash ∷ (usdc ++ swap_text)) usdc plain refl refl

model_usd :
    (b : Text) → All IsPlain b → get_model_symbol (b ++ (dash ∷ (usd ++ swap_text))) ≡ b ++ usd
unfolding remove_from remove_char to_upper starts_with
model_usd b plain = model-append b (dash ∷ (usd ++ swap_text)) usd plain refl refl

-- Every symbol as OKX's models spell it: on the futures markets one without a quote gets the usual one.
abbrev pub with_quote : Text → Option (Text × Text) → Text → Text
with_quote s none quote = s ++ quote
with_quote s (some _) quote = s

abbrev pub complete : MarketType → Text → Text
complete spot s = s
complete linear s = with_quote s (quoted (usdt ∷ usdc ∷ []) s) usdt
complete inverse s = with_quote s (quoted (usd ∷ []) s) usd

-- what a quote that is found says of the text
quoted-split :
    (P : Text → Type 0) (quotes : List Text) (s b q : Text)
    → All P quotes
    → quoted quotes s ≡ some (b, q)
    → (b ++ q ≡ s) × P q
unfolding quoted
quoted-split P [] s b q h e = cc
quoted-split P (p ∷ quotes) s b q h e = elim (Option-cases (before_suffix p s)) [
  | inl other ↦
      quoted-split P quotes s b q h.1 (subst (λ o. cut o p (quoted quotes s) ≡ some (b, q)) other e)
  | inr (base, found) ↦
      let e' = subst (λ o. cut o p (quoted quotes s) ≡ some (b, q)) found e in
      let b_eq : base ≡ b = cc in
      let q_eq : p ≡ q = cc in (cc (before_suffix-append p s base found), subst P q_eq h.0)
]

api_spot :
    (quotes : List Text) (s : Text)
    → All IsQuote quotes
    → All IsPlain s
    → get_model_symbol (spot_symbol s (quoted quotes s)) ≡ s
api_spot quotes s are plain = elim (Option-cases (quoted quotes s)) [
  | inl missing ↦ rw missing (model_plain s plain)
  | inr ((b, q), found) ↦
      let parts = quoted-split IsQuote quotes s b q are found in
      rw found (
        model_spot b q (All-append_left IsPlain b q (subst (All IsPlain) (sym parts.0) plain))
          parts.1
        ∙ parts.0)
]

-- a quote of the futures markets: `get_model_symbol` takes the dashes and the "-SWAP" off again
abbrev IsSwapQuote : Text → Type 0
IsSwapQuote q =
    (b : Text) → All IsPlain b → get_model_symbol (b ++ (dash ∷ (q ++ swap_text))) ≡ b ++ q

api_swap :
    (quotes : List Text) (quote s : Text)
    → All IsSwapQuote quotes
    → IsSwapQuote quote
    → All IsPlain s
    → get_model_symbol (swap_symbol s (quoted quotes s) quote)
      ≡ with_quote s (quoted quotes s) quote
api_swap quotes quote s are is plain = elim (Option-cases (quoted quotes s)) [
  | inl missing ↦ rw missing (is s plain)
  | inr ((b, q), found) ↦
      let parts = quoted-split IsSwapQuote quotes s b q are found in
      rw found (
        parts.1 b (All-append_left IsPlain b q (subst (All IsPlain) (sym parts.0) plain)) ∙ parts.0)
]

-- Reading back the symbol that a request to OKX carries gives the normalized symbol, on the futures
-- markets with the usual quote added to one that has none, where the quotes of the spot market are plain
-- texts that do not begin with "SWAP".
pub okx_roundtrip :
    (quotes : List Text) (symbol : Text) (mt : MarketType)
    → All IsQuote quotes
    → get_model_symbol (get_api_symbol quotes symbol mt) ≡ complete mt (normalize_symbol symbol)
unfolding get_api_symbol
okx_roundtrip quotes symbol spot are =
    api_spot quotes (normalize_symbol symbol) are (normalize_symbol-IsPlain symbol)
okx_roundtrip quotes symbol linear are =
    api_swap (usdt ∷ usdc ∷ []) usdt (normalize_symbol symbol) (model_usdt, (model_usdc, tt))
      model_usdt (normalize_symbol-IsPlain symbol)
okx_roundtrip quotes symbol inverse are =
    api_swap (usd ∷ []) usd (normalize_symbol symbol) (model_usd, tt) model_usd
      (normalize_symbol-IsPlain symbol)
