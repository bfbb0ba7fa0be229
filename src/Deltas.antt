-- ===== src/Deltas.antt =====
-- The order books that `stream_orderbook` of src/exchanges/bybit/adapter.py and of
-- src/exchanges/okx/adapter.py keep from snapshots and from deltas with sequence numbers. A price is
-- any type with an equality, a quantity any type with a test for 0. The messages are parsed: one that
-- cannot be ends the stream, as a gap does.
pub mod Gaps
pub mod Levels
pub mod Runs
pub mod Follow
use exchange_router_service.Prelude.{
  ℕ, ◌+◌, Bool, true, false, not, ◌&&◌, Option, none, some, List, [], ◌∷◌, Eq, nat_eq,
  if◌then◌else◌,
}
use exchange_router_service.Prelude.Dict.{Dict, get, put, pop}

module _ (Price Qty : Type 0) where
  -- A message of Bybit, or an item of a message of OKX: whether it is a snapshot, its number (`u`,
  -- `seqId`), the number of its predecessor that it names (`prevSeqId`), and its levels.
  pub record Delta : Type 0 where
    pub is_snapshot : Bool
    pub id : Option ℕ
    pub prev : Option ℕ
    pub bids : List (Price × Qty)
    pub asks : List (Price × Qty)

  pub record Feed : Type 0 where
    pub bids : Dict Price Qty
    pub asks : Dict Price Qty
    pub last : Option ℕ
    pub bootstrapped : Bool

abbrev pub start : {Price Qty : Type 0} → Feed Price Qty
start = record { bids = []; asks = []; last = none; bootstrapped = false }

-- `last_u is not None and u is not None and u != last_u + 1`
unfoldable pub bybit_gap : {Price Qty : Type 0} → Option ℕ → Delta Price Qty → Bool
bybit_gap none d = false
bybit_gap (some last) d = elim d.id [ none ↦ false | some u ↦ not (nat_eq u (last + 1)) ]

-- `last_seq is not None and prev is not None and prev != last_seq`
unfoldable pub okx_gap : {Price Qty : Type 0} → Option ℕ → Delta Price Qty → Bool
okx_gap none d = false
okx_gap (some last) d = elim d.prev [ none ↦ false | some p ↦ not (nat_eq p last) ]

module _ {Price Qty : Type 0} ⦃e : Eq Price⦄ (is_zero : Qty → Bool) (stored : Qty → Qty) where
  -- a level: `stored` is what the book keeps of a quantity, `q * qty_mult` at OKX
  unfoldable pub set_level : Price → Qty → Dict Price Qty → Dict Price Qty
  set_level p q book = if is_zero q then pop p book else put p (stored q) book

  unfoldable pub set_levels : List (Price × Qty) → Dict Price Qty → Dict Price Qty
  unfolding set_level
  set_levels [] book = book
  set_levels ((p, q) ∷ levels) book = set_levels levels (set_level p q book)

  abbrev pub apply_delta : Delta Price Qty → Feed Price Qty → Feed Price Qty
  apply_delta d f =
      if f.bootstrapped
      then record f { bids = set_levels d.bids f.bids; asks = set_levels d.asks f.asks }
      else f

  module _ (gap : Option ℕ → Delta Price Qty → Bool) where
    -- a round of the loop; `none` is that the stream ends, so that clients resync
    unfoldable pub deliver : Delta Price Qty → Feed Price Qty → Option (Feed Price Qty)
    unfolding set_levels
    deliver d f =
        if d.is_snapshot
        then some
            (apply_delta d (record { bids = []; asks = []; last = d.id; bootstrapped = true }))
        else if gap f.last d
        then none
        else some (apply_delta d (record f { last = d.id }))

    abbrev pub and_then :
        (Feed Price Qty → Option (Feed Price Qty))
        → Option (Feed Price Qty)
        → Option (Feed Price Qty)
    and_then again none = none
    and_then again (some f) = again f

    unfoldable pub run : List (Delta Price Qty) → Feed Price Qty → Option (Feed Price Qty)
    unfolding deliver
    run [] f = some f
    run (d ∷ ds) f = and_then (run ds) (deliver d f)

module _ {Price Qty : Type 0} ⦃e : Eq Price⦄ (is_zero : Qty → Bool) where
  -- the books of Bybit, which keep the quantities as they are, and those of OKX
  unfoldable pub bybit_books : List (Delta Price Qty) → Option (Feed Price Qty)
  unfolding run bybit_gap
  bybit_books ds = run is_zero (λ q. q) bybit_gap ds start

  unfoldable pub okx_books : (Qty → Qty) → List (Delta Price Qty) → Option (Feed Price Qty)
  unfolding run okx_gap
  okx_books scaled ds = run is_zero scaled okx_gap ds start
