-- ===== src/Client/Preflight.antt =====
-- client/exchange_router_client/_core.py: the capabilities that the client keeps, and the check that
-- `_preflight` makes of a call before it is sent.
use exchange_router_service.Prelude.{
  ◌≡◌, refl, String, Bool, true, false, ◌&&◌, ◌||◌, not, Option, none, some, List, [], ◌∷◌, is_some,
  if◌then◌else◌, string_has_eq, arith, inl, inr, Option-cases,
}
use exchange_router_service.Prelude.Int.{ℤ, eqb_ℤ}
use exchange_router_service.Prelude.Dict.{Dict, get, put, get-put_self}
use exchange_router_service.Errors.{ok, raise, value_error}
use exchange_router_service.Models.{MarketType, market_value}
use exchange_router_service.Router.{
  Adapter, Capabilities, RouteBlock, route_block, mem_text, interval_allowed, validate_interval,
}

-- `_ensure_capabilities`; `answer` is what the request for them gives, if it is made, and `none` a
-- `RouterError`. A failure is kept as well, as a block without markets.
abbrev pub or_no_markets : Option Capabilities → Capabilities
or_no_markets none = []
or_no_markets (some c) = c

unfoldable pub ensure_capabilities :
    String
    → Option Capabilities
    → Dict String Capabilities
    → Capabilities × Dict String Capabilities
ensure_capabilities exchange answer known = elim (get exchange known) [
  | some c ↦ (c, known)
  | none ↦ (or_no_markets answer, put exchange (or_no_markets answer) known)
]

-- a block that is not `{}`
abbrev pub is_block : RouteBlock → Bool
is_block b =
    is_some b.rest || is_some b.ws || is_some b.paginated || is_some b.intervals || is_some b.depths

abbrev pub is_off : Option Bool → Bool
is_off none = false
is_off (some b) = not b

unfoldable pub mem_depth : ℤ → List ℤ → Bool
mem_depth d [] = false
mem_depth d (x ∷ xs) = if eqb_ℤ x d then true else mem_depth d xs

-- what `_preflight` comes to: the call is sent, with a warning about its depth or without, or it is
-- refused
pub data Preflight : Type 0 where
  passes : Preflight
  warns : Preflight
  not_supported : Preflight
  bad_request : Preflight

abbrev pub has_markets : Capabilities → Bool
has_markets [] = false
has_markets (x ∷ xs) = true

-- `intervals and interval not in intervals`, for a call with an interval
abbrev pub interval_refused_by : Option (List String) → Option String → Bool
interval_refused_by intervals none = false
interval_refused_by none (some interval) = false
interval_refused_by (some []) (some interval) = false
interval_refused_by (some (i ∷ is)) (some interval) = not (mem_text interval (i ∷ is))

abbrev pub depth_unlisted : Option (List ℤ) → Option ℤ → Bool
depth_unlisted depths none = false
depth_unlisted none (some depth) = false
depth_unlisted (some []) (some depth) = false
depth_unlisted (some (d ∷ ds)) (some depth) = not (mem_depth depth (d ∷ ds))

-- `_preflight`, on the capabilities of the exchange
unfoldable pub preflight : Capabilities → String → String → Option String → Option ℤ → Preflight
unfolding route_block
preflight capabilities market route interval depth =
    let block = route_block capabilities market route in
    if has_markets capabilities && is_block block
    then (if is_off block.rest
        then not_supported
        else if interval_refused_by block.intervals interval
        then bad_request
        else if depth_unlisted block.depths depth
        then warns
        else passes)
    else passes

abbrev pub is_sent : Preflight → Bool
is_sent passes = true
is_sent warns = true
is_sent not_supported = false
is_sent bad_request = false

no_markets :
    (capabilities : Capabilities) (market route : String)
    → has_markets capabilities ≡ false
    → (route_block capabilities market route).intervals ≡ none
unfolding route_block get
no_markets [] market route h = refl
no_markets (x ∷ xs) market route h = cc

module _ {Float : Type 0} where
  -- A call that the client refuses for its interval is one that the service would refuse with
  -- `ValueError`, when the client has the capabilities of the service.
  preflight_refuses :
      (a : Adapter Float) (mt : MarketType) (route value : String) (depth : Option ℤ)
      → preflight a.capabilities (market_value mt) route (some value) depth ≡ bad_request
      → validate_interval a mt route value ≡ raise value_error
  unfolding preflight validate_interval interval_allowed
  preflight_refuses a mt route value depth h = ground arith

  -- An interval that the client sends is one that the service accepts, when the client has the
  -- capabilities of the service.
  pub preflight_sends :
      (a : Adapter Float) (mt : MarketType) (route value : String) (depth : Option ℤ)
      → is_sent (preflight a.capabilities (market_value mt) route (some value) depth) ≡ true
      → validate_interval a mt route value ≡ ok tt
  unfolding preflight validate_interval interval_allowed
  preflight_sends a mt route value depth h =
      ground (arith, no_markets a.capabilities (market_value mt) route)

ensure_known :
    (exchange : String) (answer : Option Capabilities) (known : Dict String Capabilities)
    (c : Capabilities)
    → get exchange known ≡ some c
    → ensure_capabilities exchange answer known ≡ (c, known)
unfolding ensure_capabilities
ensure_known exchange answer known c hit = rw (hit, ensure_capabilities)

ensure_unknown :
    (exchange : String) (answer : Option Capabilities) (known : Dict String Capabilities)
    → get exchange known ≡ none
    → ensure_capabilities exchange answer known
      ≡ (or_no_markets answer, put exchange (or_no_markets answer) known)
unfolding ensure_capabilities
ensure_unknown exchange answer known miss = rw (miss, ensure_capabilities)

-- One request asks for the capabilities of an exchange, successful or not: a later call keeps what
-- the first one gave and leaves the client as it is, whatever a second request would be answered.
pub ensure_capabilities_once :
    (exchange : String) (answer later : Option Capabilities) (known : Dict String Capabilities)
    → (get exchange known ≡ none
        → (ensure_capabilities exchange answer known).0 ≡ or_no_markets answer)
      × (ensure_capabilities exchange later (ensure_capabilities exchange answer known).1 ≡ (
        (ensure_capabilities exchange answer known).0,
        (ensure_capabilities exchange answer known).1,
      ))
ensure_capabilities_once exchange answer later known = elim (Option-cases (get exchange known)) [
  | inl miss ↦
      let e = ensure_unknown exchange answer known miss in
      rw e (
        λ h. refl,
        ensure_known exchange later _ _ (get-put_self exchange (or_no_markets answer) known),
      )
  | inr (c, hit) ↦
      let e = ensure_known exchange answer known c hit in
      rw e (λ h. absurd (ground arith), ensure_known exchange later known c hit)
]
