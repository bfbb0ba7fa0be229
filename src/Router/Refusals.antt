-- ===== src/Router/Refusals.antt =====
-- Which requests the handlers of src/main.py refuse, and how.
use exchange_router_service.Prelude.{
  ap, if◌then◌else◌, Bool-cases, Option-cases, inl, inr, ℕ, ◌≡◌, String, true, false, Option, none,
  some, List, ◌∷◌, arith, string_has_eq,
}
use exchange_router_service.Prelude.Int.{ℤ, pos, ltb_ℤ}
use exchange_router_service.Prelude.Dict.{Dict, get}
use exchange_router_service.Errors.{Error, ok, raise, value_error, http_exception}
use exchange_router_service.Floats.{Floats}
use exchange_router_service.Models.{MarketType, market_value}
use exchange_router_service.Router.{
  Adapter, validate_request, validate_interval, supports, route_block, mem_text,
}
use exchange_router_service.Router.OiRoute.{get_open_interest}
use exchange_router_service.Router.Routes.{
  Request, markets, candles, open_interest, long_short_ratio, bound_of, in_bound, run_request,
  handle,
}

-- the routes whose requests have an interval or a period
pub data TimedRoute : Type 0 where
  candles_route open_interest_route long_short_ratio_route : TimedRoute

abbrev pub route_name : TimedRoute → String
route_name candles_route = "candles"
route_name open_interest_route = "open_interest"
route_name long_short_ratio_route = "long_short_ratio"

abbrev pub timed : TimedRoute → String → String → Option ℤ → ℤ → Request
timed candles_route = candles
timed open_interest_route = open_interest
timed long_short_ratio_route = long_short_ratio

some-injective : {A : Type 0} {a b : A} → some a ≡ some b → a ≡ b
some-injective h = cc

module _ (F : Floats) (registry : Dict String (Adapter F.Float)) (exchange : String)
    (mt : MarketType) where
  open F use {Float}

  -- what the validation of the exchange and the market raises, every request raises
  refused :
      (r : Request) (e : Error)
      → validate_request registry exchange mt ≡ raise e
      → run_request F registry exchange mt r ≡ raise e
  unfolding run_request get_open_interest
  refused markets e h = rw h
  refused _ e h = rw h

  validated :
      (a : Adapter Float)
      → get exchange registry ≡ some a
      → supports mt a.supported_market_types ≡ true
      → validate_request registry exchange mt ≡ ok a
  unfolding validate_request
  validated a hit market = rw hit (rw market)

  refused_interval :
      (a : Adapter Float) (route value i : String) (is : List String)
      → (route_block a.capabilities (market_value mt) route).intervals ≡ some (i ∷ is)
      → mem_text value (i ∷ is) ≡ false
      → validate_interval a mt route value ≡ raise value_error
  unfolding validate_interval
  refused_interval a route value i is listed unlisted = ground arith

  -- the refusal of a request for its bound, its exchange or its market, if there is one
  abbrev pub refusal : Request → Option ℕ
  refusal r =
      if in_bound (bound_of r)
      then elim (get exchange registry) [
        | none ↦ some 404
        | some a ↦ if supports mt a.supported_market_types then none else some 400
      ]
      else some 422

  -- A depth or a limit below 1 is answered with 422. Within the bound an exchange that is not
  -- registered answers every request with 404, and one that does not support the market with 400,
  -- whatever its adapter would give.
  pub handle_refused :
      (r : Request) (status : ℕ)
      → refusal r ≡ some status
      → handle F registry exchange mt r ≡ raise (http_exception status)
  unfolding handle validate_request
  handle_refused r status h = elim (Bool-cases (in_bound (bound_of r))) [
    | inr out ↦
        let e : some 422 ≡ some status = rw (out, refusal) at h in
        rw out (ap (λ s. raise (http_exception s)) (some-injective e))
    | inl inside ↦ elim (Option-cases (get exchange registry)) [
      | inl miss ↦
          let e : some 404 ≡ some status = rw (miss) at (rw (inside, refusal) at h) in
          rw inside (
            refused r (http_exception status)
              (rw miss (ap (λ s. raise (http_exception s)) (some-injective e))))
      | inr (a, hit) ↦ elim (Bool-cases (supports mt a.supported_market_types)) [
        | inl there ↦
            let e : none ≡ some status = rw there at (rw hit at (rw (inside, refusal) at h)) in cc
        | inr no_market ↦
            let e : some 400 ≡ some status =
              rw no_market at (rw hit at (rw (inside, refusal) at h)) in
            rw inside (
              refused r (http_exception status)
                (rw hit (rw no_market (ap (λ s. raise (http_exception s)) (some-injective e)))))
      ]
    ]
  ]

  -- A candle interval that the adapter lists intervals without is answered with `ValueError`, and
  -- the exchange is not asked; so is a period of the open interest and of the long/short ratio.
  pub interval_refused :
      (route : TimedRoute) (a : Adapter Float) (s value i : String) (is : List String)
      (start : Option ℤ) (limit : ℤ)
      → get exchange registry ≡ some a
      → supports mt a.supported_market_types ≡ true
      → ltb_ℤ (pos 0) limit ≡ true
      → (route_block a.capabilities (market_value mt) (route_name route)).intervals ≡ some (i ∷ is)
      → mem_text value (i ∷ is) ≡ false
      → handle F registry exchange mt (timed route s value start limit) ≡ raise value_error
  unfolding handle get_open_interest
  interval_refused candles_route a s value i is start limit hit market inside listed unlisted =
      rw inside
        (rw (validated a hit market) (rw (refused_interval a "candles" value i is listed unlisted)))
  interval_refused open_interest_route a s value i is start limit hit market inside listed
        unlisted =
      rw inside (
        rw (validated a hit market)
          (rw (refused_interval a "open_interest" value i is listed unlisted)))
  interval_refused long_short_ratio_route a s value i is start limit hit market inside listed
        unlisted =
      rw inside (
        rw (validated a hit market)
          (rw (refused_interval a "long_short_ratio" value i is listed unlisted)))
