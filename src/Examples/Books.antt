-- ===== src/Examples/Books.antt =====
-- Runs of the order books of src/exchanges/kraken/adapter.py.
use exchange_router_service.Prelude.{
  ℕ, ◌≡◌, refl, Bool, true, false, ltb, none, some, List, [], ◌∷◌, nat_eq, nat_has_eq,
}
use exchange_router_service.Prelude.Int.{pos, ◌-ℤ◌}
use exchange_router_service.Prelude.Sort.{sort_by, insert_by}
use exchange_router_service.Kraken.BookView.{Best, view-Best}
use exchange_router_service.Kraken.BookDeltas.{futures_messages}
use exchange_router_service.Prelude.Dict.{get, put, pop}
use exchange_router_service.Kraken.Book.{
  FuturesMessage, futures_bid, futures_ask, futures_snapshot, futures_other, futures_message,
  add_levels, Books, view, Item, SpotMessage, spot_snapshot, spot_update, spot_other, spot_message,
  set_level, set_levels, apply_item, apply_items,
}
use exchange_router_service.Kraken.BookLevels.{
  spot_messages, no_books, spot_books_lem, held, named, side_of, or_nil, since,
}

abbrev nothing : ℕ → Bool
nothing q = nat_eq q 0

-- an update that comes too early, a snapshot, and updates that replace and take away levels
abbrev feed : List (SpotMessage ℕ ℕ)
feed =
    spot_update (record { bids = (99, 4) ∷ []; asks = [] } ∷ [])
    ∷ spot_snapshot (record { bids = (100, 5) ∷ (99, 7) ∷ []; asks = (101, 2) ∷ [] } ∷ [])
    ∷ spot_other
    ∷ spot_update (record { bids = (100, 0) ∷ []; asks = (101, 3) ∷ (102, 1) ∷ [] } ∷ [])
    ∷ []

spot_books_lem_example :
    (get 101 (spot_messages nothing feed (no_books false)).bids
      ≡ held nothing
          (named 101 (side_of (λ (i : Item ℕ ℕ). i.bids) (or_nil (since none feed))))
          none)
    × (get 101 (spot_messages nothing feed (no_books false)).asks
        ≡ held nothing
            (named 101 (side_of (λ (i : Item ℕ ℕ). i.asks) (or_nil (since none feed))))
            none)
spot_books_lem_example = spot_books_lem nothing feed 101

bid_test : get 100 (spot_messages nothing feed (no_books false)).bids ≡ none
unfolding get put pop spot_message apply_items apply_item set_levels set_level
bid_test = refl

ask_test : get 101 (spot_messages nothing feed (no_books false)).asks ≡ some 3
unfolding get put pop spot_message apply_items apply_item set_levels set_level
ask_test = refl

-- the books of the feed's snapshot, and the best bid of them
abbrev both : Books ℕ ℕ
both = record { bids = (99, 7) ∷ (100, 5) ∷ []; asks = (101, 2) ∷ []; bootstrapped = true }

view-Best_example :
    ((hidden : List (ℕ × ℕ)) × Best
        (λ (l : ℕ × ℕ). pos 0 -ℤ pos l.0)
        1
        both.bids
        (view pos 1 both).bids
        hidden)
    × ((hidden : List (ℕ × ℕ)) × Best
          (λ (l : ℕ × ℕ). pos l.0)
          1
          both.asks
          (view pos 1 both).asks
          hidden)
view-Best_example = view-Best pos 1 both

view_test : (view pos 1 both).bids ≡ (100, 5) ∷ []
unfolding view sort_by insert_by ◌-ℤ◌
view_test = refl

abbrev more : ℕ → Bool
more q = ltb 0 q

-- a delta that comes too early, a snapshot with an empty level, and deltas of both sides
abbrev futures_feed : List (FuturesMessage ℕ ℕ)
futures_feed =
    futures_bid 99 4
    ∷ futures_snapshot ((100, 5) ∷ (99, 0) ∷ []) ((101, 2) ∷ [])
    ∷ futures_other
    ∷ futures_ask 101 0
    ∷ futures_bid 99 6
    ∷ []

futures_bid_test :
    get 99 (futures_messages nothing more futures_feed (no_books false)).bids ≡ some 6
unfolding get put pop futures_message add_levels set_level
futures_bid_test = refl
