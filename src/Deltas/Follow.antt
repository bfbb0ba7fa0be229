-- ===== src/Deltas/Follow.antt =====
-- What the order books that are kept from numbered deltas hold (src/exchanges/bybit/adapter.py,
-- src/exchanges/okx/adapter.py).
use exchange_router_service.Prelude.{
  ◌↔◌, ℕ, ◌≡◌, refl, ◌∙◌, ap, Bool, false, Option, none, some, List, [], Eq, Option-cases, inl, inr,
}
use exchange_router_service.Prelude.Dict.{get, get-nil}
use exchange_router_service.Kraken.BookLevels.{named, side_of, or_nil}
use exchange_router_service.Deltas.{
  Delta, Feed, start, bybit_gap, okx_gap, set_levels, run, bybit_books, okx_books,
}
use exchange_router_service.Deltas.Levels.{since, kept, Holds, get-set_levels}
use exchange_router_service.Deltas.Gaps.{
  Gapless, BybitFollows, OkxFollows, bybit_gap_iff, okx_gap_iff,
}
use exchange_router_service.Deltas.Runs.{run-Holds, run_through}

module _ {Price Qty : Type 0} ⦃e : Eq Price⦄ (is_zero : Qty → Bool) (stored : Qty → Qty) where
  -- What comes of some deltas: an end of the stream where one of them is missing; or books that hold
  -- for a price the last quantity that the deltas from the last snapshot on name for it.
  abbrev pub Outcome :
      (Option ℕ → Delta Price Qty → Type 0)
      → List (Delta Price Qty)
      → Option (Feed Price Qty)
      → Type 0
  Outcome Follows ds none = ¬ Gapless Follows none ds
  Outcome Follows ds (some f) =
      Gapless Follows none ds
      × ((p : Price)
          → (get p f.bids
              ≡ kept is_zero stored
                  (named p (side_of (λ (d : Delta Price Qty). d.bids) (or_nil (since none ds))))
                  none)
            × (get p f.asks
                ≡ kept is_zero stored
                    (named p (side_of (λ (d : Delta Price Qty). d.asks) (or_nil (since none ds))))
                    none))

  module _ (gap : Option ℕ → Delta Price Qty → Bool) (Follows : Option ℕ → Delta Price Qty → Type 0)
      (gap_iff : (last : Option ℕ) (d : Delta Price Qty)
        → (gap last d ≡ false) ↔ Follows last d) where
    empty-Holds : Holds {Price = Price} is_zero stored none start
    unfolding set_levels
    empty-Holds = (refl, refl, refl)

    -- What comes of a run from empty books.
    pub run-Outcome :
        (ds : List (Delta Price Qty)) → Outcome Follows ds (run is_zero stored gap ds start)
    run-Outcome ds = elim (Option-cases (run is_zero stored gap ds start)) [
      | inl ended ↦ rw ended (λ gapless.
          let (g, ran) = run_through is_zero stored gap Follows gap_iff ds start gapless in
          cc (ended, ran))
      | inr (f, ran) ↦
          let (gapless, (b, a, _)) =
            run-Holds is_zero stored gap Follows gap_iff none ds start f empty-Holds ran in
          rw ran (
            gapless,
            λ p. (
              ap (get p) b
                  ∙ get-set_levels is_zero stored p
                      (side_of (λ (d : Delta Price Qty). d.bids) (or_nil (since none ds))) []
                  ∙ ap (kept is_zero stored _) (get-nil p),
              ap (get p) a
                  ∙ get-set_levels is_zero stored p
                      (side_of (λ (d : Delta Price Qty). d.asks) (or_nil (since none ds))) []
                  ∙ ap (kept is_zero stored _) (get-nil p),
            ),
          )
    ]

module _ {Price Qty : Type 0} ⦃e : Eq Price⦄ (is_zero : Qty → Bool) where
  -- The books of Bybit. The stream of the order book ends exactly where a delta that is no snapshot
  -- carries a number, there is a last number, and it is not the next one. Otherwise each side holds for a price the last quantity that
  -- the snapshot last taken and the deltas after it name, and nothing where that is 0 or there is
  -- none.
  pub bybit_books-Outcome :
      (ds : List (Delta Price Qty))
      → Outcome is_zero (λ q. q) BybitFollows ds (bybit_books is_zero ds)
  unfolding bybit_books
  bybit_books-Outcome ds = run-Outcome is_zero (λ q. q) bybit_gap BybitFollows bybit_gap_iff ds

  -- The books of OKX. The stream of the order book ends exactly where a delta that is no snapshot names
  -- the number of its predecessor, there is a last number, and it is another one. Otherwise each side holds for a price the last
  -- quantity that the snapshot last taken and the deltas after it name, as `scaled` makes it, and nothing
  -- where that quantity is 0 or there is none.
  pub okx_books-Outcome :
      (scaled : Qty → Qty) (ds : List (Delta Price Qty))
      → Outcome is_zero scaled OkxFollows ds (okx_books is_zero scaled ds)
  unfolding okx_books
  okx_books-Outcome scaled ds = run-Outcome is_zero scaled okx_gap OkxFollows okx_gap_iff ds
