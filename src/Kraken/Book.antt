-- ===== src/Kraken/Book.antt =====
-- src/exchanges/kraken/adapter.py: the order books that `stream_orderbook` keeps from snapshots and
-- deltas. A price is any type with a place in the order of the floats (`rank`), a quantity any type
-- with a test for 0 and for more than 0.
use exchange_router_service.Prelude.{ℕ, Bool, true, List, [], ◌∷◌, Eq, if◌then◌else◌, take}
use exchange_router_service.Prelude.Int.{ℤ, pos, ◌-ℤ◌}
use exchange_router_service.Prelude.Dict.{Dict, put, pop}
use exchange_router_service.Prelude.Sort.{sort_by}

module _ (Price Qty : Type 0) where
  -- the entries of one side of a message, in order
  abbrev pub Levels : Type 0
  Levels = List (Price × Qty)

  pub record Books : Type 0 where
    pub bids : Dict Price Qty
    pub asks : Dict Price Qty
    pub bootstrapped : Bool

  -- an item of a spot message: its bids and its asks
  pub record Item : Type 0 where
    pub bids : Levels
    pub asks : Levels

  -- the messages of the spot feed and of the futures feed; `other` is one that is passed over
  pub data SpotMessage : Type 0 where
    spot_snapshot : List Item → SpotMessage
    spot_update : List Item → SpotMessage
    spot_other : SpotMessage

  pub data FuturesMessage : Type 0 where
    futures_snapshot : Levels → Levels → FuturesMessage
    futures_bid : Price → Qty → FuturesMessage
    futures_ask : Price → Qty → FuturesMessage
    futures_other : FuturesMessage

-- the levels that a view shows
pub record View (Price Qty : Type 0) : Type 0 where
  pub bids : List (Price × Qty)
  pub asks : List (Price × Qty)

module _ {Price Qty : Type 0} ⦃e : Eq Price⦄ (is_zero : Qty → Bool) where
  -- `if q == 0: book.pop(p, None)`, `else: book[p] = q`
  unfoldable pub set_level : Price → Qty → Dict Price Qty → Dict Price Qty
  set_level p q book = if is_zero q then pop p book else put p q book

  unfoldable pub set_levels : List (Price × Qty) → Dict Price Qty → Dict Price Qty
  unfolding set_level
  set_levels [] book = book
  set_levels ((p, q) ∷ levels) book = set_levels levels (set_level p q book)

  unfoldable pub apply_item : Item Price Qty → Books Price Qty → Books Price Qty
  unfolding set_levels
  apply_item item b = record b {
    bids = set_levels item.bids b.bids;
    asks = set_levels item.asks b.asks;
  }

  unfoldable pub apply_items : List (Item Price Qty) → Books Price Qty → Books Price Qty
  unfolding apply_item
  apply_items [] b = b
  apply_items (item ∷ items) b = apply_items items (apply_item item b)

  -- the books after a spot message
  unfoldable pub spot_message : SpotMessage Price Qty → Books Price Qty → Books Price Qty
  unfolding apply_items
  spot_message (spot_snapshot items) b =
      apply_items items (record { bids = []; asks = []; bootstrapped = true })
  spot_message (spot_update items) b = if b.bootstrapped then apply_items items b else b
  spot_message spot_other b = b

module _ {Price Qty : Type 0} ⦃e : Eq Price⦄ (is_positive : Qty → Bool) where
  -- the levels of a futures snapshot
  unfoldable pub add_levels : List (Price × Qty) → Dict Price Qty → Dict Price Qty
  add_levels [] book = book
  add_levels ((p, q) ∷ levels) book =
      add_levels levels (if is_positive q then put p q book else book)

module _ {Price Qty : Type 0} ⦃e : Eq Price⦄ (is_zero is_positive : Qty → Bool) where
  -- the books after a futures message
  unfoldable pub futures_message : FuturesMessage Price Qty → Books Price Qty → Books Price Qty
  unfolding add_levels set_level
  futures_message (futures_snapshot bids asks) b = record {
    bids = add_levels is_positive bids [];
    asks = add_levels is_positive asks [];
    bootstrapped = true;
  }
  futures_message (futures_bid p q) b =
      if b.bootstrapped then record b { bids = set_level is_zero p q b.bids } else b
  futures_message (futures_ask p q) b =
      if b.bootstrapped then record b { asks = set_level is_zero p q b.asks } else b
  futures_message futures_other b = b

module _ {Price Qty : Type 0} (rank : Price → ℤ) where
  -- the best levels of the books, as they are yielded
  unfoldable pub view : ℕ → Books Price Qty → View Price Qty
  view depth b = record {
    bids = take depth (sort_by (λ (l : Price × Qty). pos 0 -ℤ rank l.0) b.bids);
    asks = take depth (sort_by (λ (l : Price × Qty). rank l.0) b.asks);
  }
