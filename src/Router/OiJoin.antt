-- ===== src/Router/OiJoin.antt =====
-- What the handler of `/open_interest` in src/main.py returns.
use mathlib.Core.Path.{ap₂}
use exchange_router_service.Prelude.{
  ◌≡◌, refl, ◌∙◌, ap, String, true, Option, none, some, List, [], ◌∷◌, map, if◌then◌else◌, All,
  arith, is_some, inl, inr, Option-cases,
}
use exchange_router_service.Prelude.Int.{ℤ, ◌+ℤ◌, eqb_ℤ, int_has_eq}
use exchange_router_service.Prelude.Dict.{Dict, get, put, get-put, get-nil}
use exchange_router_service.Errors.{Result, ok, raise}
use exchange_router_service.Floats.{Floats}
use exchange_router_service.Models.{
  QtyUnit, base, contract, candle_close, contract_size, Candle, OpenInterest, OiValue,
}
use exchange_router_service.Models.Values.{build_oi_value}
use exchange_router_service.Router.Periods.{period_to_ms}
use exchange_router_service.Router.OiRoute.{
  codes, unit_text, closes_from, rebuilt, join_row, join_rows, period_or, with_candles,
}
use exchange_router_service.Models.Validators.{make_oi_value, make_usd_basis}

abbrev pub later {ℓ} : {A : Type ℓ} → Option A → Option A → Option A
later none o = o
later (some a) o = some a

abbrev pub SizedValue : {Float : Type 0} → QtyUnit → Option Float → Type 0
SizedValue base size = Unit
SizedValue contract size = is_some size ≡ true

module _ (F : Floats) where
  open F use {Float, mul}

  -- What the join makes of a value: on a base unit the notional is native times the close, and the
  -- basis names the close and its time; on contracts it is native times the size, as before.
  abbrev pub scaled_by : Float → Option Float → Option Float
  scaled_by native none = none
  scaled_by native (some size) = some (mul native size)

  abbrev pub valued : Float → QtyUnit → Option Float → ℤ → Float → OiValue Float
  valued native base size ts close = record {
    native = native;
    unit = base;
    contract_size = none;
    usd = some (mul native close);
    usd_basis = record { method = candle_close; close = some close; close_ts = some ts };
  }
  valued native contract size ts close = record {
    native = native;
    unit = contract;
    contract_size = size;
    usd = scaled_by native size;
    usd_basis = record { method = contract_size; close = none; close_ts = none };
  }

  abbrev pub value_with : OiValue Float → ℤ → Float → OiValue Float
  value_with v ts close = valued v.native v.unit v.contract_size ts close

  -- The close of the candle that ends at `t`: of the last such one, the newest candle left out.
  abbrev pub close_at : ℤ → ℤ → List (Candle Float) → Option Float
  close_at period t [] = none
  close_at period t (c ∷ []) = none
  close_at period t (c ∷ c' ∷ cs) =
      later (close_at period t (c' ∷ cs))
        (if eqb_ℤ (c.timestamp +ℤ period) t then some c.close else none)

  get-closes_from :
      (period t : ℤ) (d : Dict ℤ Float) (cs : List (Candle Float))
      → get t (closes_from F period d cs) ≡ later (close_at period t cs) (get t d)
  unfolding closes_from
  get-closes_from period t d [] = refl
  get-closes_from period t d (c ∷ []) = refl
  get-closes_from period t d (c ∷ c' ∷ cs) =
      get-closes_from period t (put (c.timestamp +ℤ period) c.close d) (c' ∷ cs)
      ∙ ground (arith, get-put (c.timestamp +ℤ period) t c.close d)

  -- a row on contracts carries its contract size
  abbrev pub IsSized : OpenInterest Float → Type 0
  IsSized row = SizedValue row.open_interest.unit row.open_interest.contract_size

  -- the value of a row, given the close of the candle that ends at its time
  abbrev pub revalued : OpenInterest Float → Option Float → OpenInterest Float
  revalued row none = row
  revalued row (some close) = record row {
    open_interest = value_with row.open_interest row.timestamp close;
  }

  native-valued :
      (native : Float) (unit : QtyUnit) (size : Option Float) (ts : ℤ) (close : Float)
      → (valued native unit size ts close).native ≡ native
  native-valued native base size ts close = refl
  native-valued native contract size ts close = refl

  build-valued :
      (native : Float) (unit : QtyUnit) (size : Option Float) (ts : ℤ) (close : Float)
      → SizedValue unit size
      → build_oi_value F native (unit_text unit) size (some close) (some ts)
        ≡ ok (valued native unit size ts close)
  unfolding build_oi_value make_oi_value make_usd_basis
  build-valued native base size ts close sized = refl
  build-valued native contract none ts close sized = cc
  build-valued native contract (some s) ts close sized = refl

  rebuilt_lem :
      (row : OpenInterest Float) (close : Float)
      → IsSized row
      → rebuilt F row close ≡ ok (revalued row (some close))
  unfolding rebuilt
  rebuilt_lem row close sized =
      let v = row.open_interest in
      rw (build-valued v.native v.unit v.contract_size row.timestamp close sized)

  join_row_lem :
      (closes : Dict ℤ Float) (row : OpenInterest Float)
      → IsSized row
      → join_row F closes row ≡ ok (revalued row (get row.timestamp closes))
  unfolding join_row
  join_row_lem closes row sized = elim (Option-cases (get row.timestamp closes)) [
    | inl miss ↦ rw (miss, join_row)
    | inr (close, hit) ↦ rw (hit, join_row) (rebuilt_lem row close sized)
  ]

  join_rows_lem :
      (closes : Dict ℤ Float) (rows : List (OpenInterest Float))
      → All IsSized rows
      → join_rows F closes rows ≡ ok (map (λ row. revalued row (get row.timestamp closes)) rows)
  unfolding join_rows
  join_rows_lem closes [] sized = refl
  join_rows_lem closes (row ∷ rows) sized =
      rw (join_row_lem closes row sized.0, join_rows_lem closes rows sized.1)

  later-none : (o p : Option Float) → p ≡ none → later o p ≡ o
  later-none o p e = ground arith

  native-revalued :
      (row : OpenInterest Float) (o : Option Float)
      → (revalued row o).open_interest.native ≡ row.open_interest.native
  native-revalued row none = refl
  native-revalued row (some close) =
      native-valued row.open_interest.native row.open_interest.unit row.open_interest.contract_size
        row.timestamp close

  timestamp-revalued :
      (row : OpenInterest Float) (o : Option Float) → (revalued row o).timestamp ≡ row.timestamp
  timestamp-revalued row none = refl
  timestamp-revalued row (some close) = refl

  natives :
      (closes : Dict ℤ Float) (rows : List (OpenInterest Float))
      → map
          (λ r. r.open_interest.native)
          (map (λ row. revalued row (get row.timestamp closes)) rows)
        ≡ map (λ r. r.open_interest.native) rows
  natives closes [] = refl
  natives closes (row ∷ rows) =
      ap₂ (λ (x : Float) (xs : List Float). x ∷ xs) (native-revalued row (get row.timestamp closes))
        (natives closes rows)

  times :
      (closes : Dict ℤ Float) (rows : List (OpenInterest Float))
      → map (λ r. r.timestamp) (map (λ row. revalued row (get row.timestamp closes)) rows)
        ≡ map (λ r. r.timestamp) rows
  times closes [] = refl
  times closes (row ∷ rows) =
      ap₂ (λ (x : ℤ) (xs : List ℤ). x ∷ xs) (timestamp-revalued row (get row.timestamp closes))
        (times closes rows)

  map-revalued :
      (period : ℤ) (cs : List (Candle Float)) (rows : List (OpenInterest Float))
      → map (λ row. revalued row (get row.timestamp (closes_from F period [] cs))) rows
        ≡ map (λ row. revalued row (close_at period row.timestamp cs)) rows
  map-revalued period cs [] = refl
  map-revalued period cs (row ∷ rows) =
      ap₂ (λ (r : OpenInterest Float) (rs : List (OpenInterest Float)). r ∷ rs)
        (ap (revalued row)
          (get-closes_from period row.timestamp [] cs ∙ later-none _ _ (get-nil row.timestamp)))
        (map-revalued period cs rows)

  -- With two candles or more each row is revalued at the close of the candle that ends at its time,
  -- the newest candle, which may still be open, left out; a row with no such candle stays as it is,
  -- and no row is lost, added or moved.
  pub with_candles_lem :
      (period : String) (rows : List (OpenInterest Float)) (c c' : Candle Float)
      (cs : List (Candle Float))
      → All IsSized rows
      → with_candles F period rows (ok (c ∷ c' ∷ cs))
        ≡ ok (
            map
              (λ row. revalued row (
                close_at
                  (period_or F (period_to_ms (codes period)) c c')
                  row.timestamp
                  (c ∷ c' ∷ cs)))
              rows)
  unfolding with_candles
  with_candles_lem period rows c c' cs sized =
      join_rows_lem (closes_from F _ [] (c ∷ c' ∷ cs)) rows sized
      ∙ ap ok (map-revalued (period_or F (period_to_ms (codes period)) c c') (c ∷ c' ∷ cs) rows)

  -- Whatever the request for candles gives, an error included, the rows are returned: as many, in
  -- their order, each with the native figure that the exchange reported.
  with_candles_total :
      (period : String) (rows : List (OpenInterest Float)) (candles : Result (List (Candle Float)))
      → All IsSized rows
      → (rows' : List (OpenInterest Float)) × (with_candles F period rows candles ≡ ok rows')
        × (map (λ r. r.open_interest.native) rows' ≡ map (λ r. r.open_interest.native) rows)
        × (map (λ r. r.timestamp) rows' ≡ map (λ r. r.timestamp) rows)
  unfolding with_candles
  with_candles_total period rows (raise e) sized = (rows, refl, refl, refl)
  with_candles_total period rows (ok []) sized = (rows, refl, refl, refl)
  with_candles_total period rows (ok (c ∷ [])) sized = (rows, refl, refl, refl)
  with_candles_total period rows (ok (c ∷ c' ∷ cs)) sized =
      let closes =
        closes_from F (period_or F (period_to_ms (codes period)) c c') [] (c ∷ c' ∷ cs) in
      (
        map (λ row. revalued row (get row.timestamp closes)) rows,
        join_rows_lem closes rows sized,
        natives closes rows,
        times closes rows,
      )
