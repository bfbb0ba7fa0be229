-- ===== src/Kraken/Candles/Returns.antt =====
-- When `get_candles` of src/exchanges/kraken/adapter.py returns for a futures market.
use exchange_router_service.Prelude.{
  ℕ, zero, suc, ◌≡◌, refl, true, ◌||◌, Option, List, [], ◌∷◌, nat_eq, All, Bool-cases, inl, inr,
}
use exchange_router_service.Prelude.Int.{ℤ, pos, ◌+ℤ◌, ◌*ℤ◌, ◌-ℤ◌, leb_ℤ}
use exchange_router_service.Errors.{Result, ok, raise}
use exchange_router_service.Adapter.Pagination.{stops_early}
use exchange_router_service.Kraken.Candles.{
  Walk, begin, mem_time, take_row, take_rows, on_page, walk, given, anchor_of, max_pages,
  get_candles,
}

module _ {A : Type 0} where
  -- a row whose candle can be built
  abbrev pub IsRead : ℤ × Result A → Type 0
  IsRead row = (a : A) × (row.1 ≡ ok a)

  -- An answer that the walk bears: rows that can be read, or an error of the status or a `ValueError`.
  abbrev pub IsBorne : Result (List (ℤ × Result A)) → Type 0
  IsBorne (ok rows) = All IsRead rows
  IsBorne (raise e) = stops_early e ≡ true

  abbrev Returns : Result (Walk A) → Type 0
  Returns r = (w : Walk A) × (r ≡ ok w)

  take_row-Returns : (row : ℤ × Result A) (w : Walk A) → IsRead row → Returns (take_row row w)
  unfolding take_row
  take_row-Returns (t, candle) w (a, e) = elim (Bool-cases (mem_time t w.seen_ts)) [
    | inl old ↦ rw old (_, refl)
    | inr new ↦ rw (new, e) (_, refl)
  ]

  take_rows-Returns :
      (rows : List (ℤ × Result A)) (w : Walk A) → All IsRead rows → Returns (take_rows rows w)
  unfolding take_rows
  take_rows-Returns [] w h = (w, refl)
  take_rows-Returns (row ∷ rows) w h =
      let (w', e) = take_row-Returns row w h.0 in rw e (take_rows-Returns rows w' h.1)

  module _ (again : ℤ → Walk A → Result (Walk A)) (interval anchor : ℤ)
      (returns : (from : ℤ) (w : Walk A) → Returns (again from w)) where
    on_page-Returns :
        (from_ts : ℤ) (w : Walk A) (page : Result (List (ℤ × Result A)))
        → IsBorne page
        → Returns (on_page again interval anchor from_ts w page)
    on_page-Returns from_ts w (raise e) h = rw h (w, refl)
    on_page-Returns from_ts w (ok []) h = (w, refl)
    on_page-Returns from_ts w (ok (row ∷ rows)) h =
        let (w', e) =
          take_rows-Returns (row ∷ rows) (record w { added = 0; last_ts_secs = from_ts }) h in
        rw e (elim (Bool-cases (nat_eq w'.added 0 || leb_ℤ (anchor -ℤ interval) w'.last_ts_secs)) [
          | inl over ↦ rw over (w', refl)
          | inr more ↦ rw more (returns (w'.last_ts_secs +ℤ interval) w')
        ])

  walk-Returns :
      (fetch : ℕ → ℤ → Result (List (ℤ × Result A))) (interval anchor : ℤ)
      → ((n : ℕ) (from : ℤ) → IsBorne (fetch n from))
      → (left : ℕ) (from_ts : ℤ) (w : Walk A) → Returns (walk fetch interval anchor left from_ts w)
  unfolding walk
  walk-Returns fetch interval anchor borne zero from_ts w = (w, refl)
  walk-Returns fetch interval anchor borne (suc left) from_ts w =
      on_page-Returns (λ from w'. walk fetch interval anchor left from w') interval anchor
        (walk-Returns fetch interval anchor borne left) from_ts w (fetch left from_ts)
        (borne left from_ts)

  -- Where every answer is one that the walk bears, `get_candles` of a futures market returns candles.
  futures_candles_return :
      (fetch : ℕ → ℤ → Result (List (ℤ × Result A))) (interval now : ℤ) (start_time : Option ℤ)
      (limit : ℕ)
      → ((n : ℕ) (from : ℤ) → IsBorne (fetch n from))
      → (out : List (ℤ × A)) × (get_candles fetch interval now start_time limit ≡ ok out)
  unfolding get_candles
  futures_candles_return fetch interval now start_time limit borne =
      let anchor = anchor_of now (given start_time) in
      let (w, e) =
        walk-Returns fetch interval anchor borne max_pages (anchor -ℤ pos limit *ℤ interval)
          begin in
      rw e (_, refl)
