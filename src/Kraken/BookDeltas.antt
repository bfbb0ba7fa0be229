-- ===== src/Kraken/BookDeltas.antt =====
-- What the books of `stream_orderbook` (src/exchanges/kraken/adapter.py) hold after any messages of
-- the futures feed.
use exchange_router_service.Prelude.{
  ◌≡◌, refl, ap, ◌∙◌, Bool, true, false, Option, none, some, List, [], ◌∷◌, ◌++◌, Eq, if◌then◌else◌,
  arith,
}
use exchange_router_service.Prelude.Dict.{Dict, get, put}
use exchange_router_service.Kraken.Book.{
  Books, FuturesMessage, futures_snapshot, futures_bid, futures_ask, futures_other, set_level,
  set_levels, add_levels, futures_message,
}
use exchange_router_service.Kraken.BookLevels.{no_books, named, held, get-set_levels}

-- the levels of the bids and of the asks
abbrev pub Sides : Type 0 → Type 0 → Type 0
Sides Price Qty = List (Price × Qty) × List (Price × Qty)

module _ {Price Qty : Type 0} where
  abbrev pub then_bid : Price → Qty → Option (Sides Price Qty) → Option (Sides Price Qty)
  then_bid p q none = none
  then_bid p q (some (bids, asks)) = some (bids ++ (p, q) ∷ [], asks)

  abbrev pub then_ask : Price → Qty → Option (Sides Price Qty) → Option (Sides Price Qty)
  then_ask p q none = none
  then_ask p q (some (bids, asks)) = some (bids, asks ++ (p, q) ∷ [])

  abbrev pub sides_or_nil : Option (Sides Price Qty) → Sides Price Qty
  sides_or_nil none = ([], [])
  sides_or_nil (some sides) = sides

module _ {Price Qty : Type 0} (is_positive : Qty → Bool) where
  -- the levels of a snapshot that count
  abbrev pub positives : List (Price × Qty) → List (Price × Qty)
  positives [] = []
  positives ((p, q) ∷ levels) =
      let rest = positives levels in if is_positive q then (p, q) ∷ rest else rest

  -- the levels of the last snapshot of some messages, and of the deltas after it, when `before` came
  -- before the messages
  abbrev pub changes :
      Option (Sides Price Qty) → List (FuturesMessage Price Qty) → Option (Sides Price Qty)
  changes before [] = before
  changes before (futures_snapshot bids asks ∷ ms) =
      changes (some (positives bids, positives asks)) ms
  changes before (futures_bid p q ∷ ms) = changes (then_bid p q before) ms
  changes before (futures_ask p q ∷ ms) = changes (then_ask p q before) ms
  changes before (futures_other ∷ ms) = changes before ms

module _ {Price Qty : Type 0} ⦃e : Eq Price⦄ (is_zero : Qty → Bool) where
  set_levels-append :
      (xs ys : List (Price × Qty)) (book : Dict Price Qty)
      → set_levels is_zero (xs ++ ys) book ≡ set_levels is_zero ys (set_levels is_zero xs book)
  unfolding set_levels
  set_levels-append [] ys book = refl
  set_levels-append ((p, q) ∷ xs) ys book = set_levels-append xs ys (set_level is_zero p q book)

  abbrev books_of : Option (Sides Price Qty) → Books Price Qty
  books_of none = no_books false
  books_of (some (bids, asks)) = record {
    bids = set_levels is_zero bids [];
    asks = set_levels is_zero asks [];
    bootstrapped = true;
  }

module _ {Price Qty : Type 0} ⦃e : Eq Price⦄ (is_zero is_positive : Qty → Bool) where
  abbrev pub futures_messages : List (FuturesMessage Price Qty) → Books Price Qty → Books Price Qty
  futures_messages [] b = b
  futures_messages (m ∷ ms) b = futures_messages ms (futures_message is_zero is_positive m b)

  futures_message-bid :
      (o : Option (Sides Price Qty)) (p : Price) (q : Qty)
      → futures_message is_zero is_positive (futures_bid p q) (books_of is_zero o)
        ≡ books_of is_zero (then_bid p q o)
  unfolding futures_message set_levels
  futures_message-bid none p q = refl
  futures_message-bid (some (bids, asks)) p q =
      rw (set_levels-append is_zero bids ((p, q) ∷ []) []) refl

  futures_message-ask :
      (o : Option (Sides Price Qty)) (p : Price) (q : Qty)
      → futures_message is_zero is_positive (futures_ask p q) (books_of is_zero o)
        ≡ books_of is_zero (then_ask p q o)
  unfolding futures_message set_levels
  futures_message-ask none p q = refl
  futures_message-ask (some (bids, asks)) p q =
      rw (set_levels-append is_zero asks ((p, q) ∷ []) []) refl

  module _ (nonzero : (q : Qty) → is_positive q ≡ true → is_zero q ≡ false) where
    add_levels-eq-set_levels :
        (levels : List (Price × Qty)) (book : Dict Price Qty)
        → add_levels is_positive levels book
          ≡ set_levels is_zero (positives is_positive levels) book
    unfolding add_levels set_levels set_level
    add_levels-eq-set_levels [] book = refl
    add_levels-eq-set_levels ((p, q) ∷ levels) book = ground (
      arith,
      nonzero q,
      add_levels-eq-set_levels levels (put p q book),
      add_levels-eq-set_levels levels book,
    )

    futures_messages-books_of :
        (o : Option (Sides Price Qty)) (ms : List (FuturesMessage Price Qty))
        → futures_messages ms (books_of is_zero o) ≡ books_of is_zero (changes is_positive o ms)
    unfolding futures_message
    futures_messages-books_of o [] = refl
    futures_messages-books_of o (futures_snapshot bids asks ∷ ms) =
        rw (add_levels-eq-set_levels bids [], add_levels-eq-set_levels asks [])
          (futures_messages-books_of (some (positives is_positive bids, positives is_positive asks))
            ms)
    futures_messages-books_of o (futures_bid p q ∷ ms) =
        ap (futures_messages ms) (futures_message-bid o p q)
        ∙ futures_messages-books_of (then_bid p q o) ms
    futures_messages-books_of o (futures_ask p q ∷ ms) =
        ap (futures_messages ms) (futures_message-ask o p q)
        ∙ futures_messages-books_of (then_ask p q o) ms
    futures_messages-books_of o (futures_other ∷ ms) = futures_messages-books_of o ms

    get-books_of :
        (p : Price) (o : Option (Sides Price Qty))
        → (get p (books_of is_zero o).bids ≡ held is_zero (named p (sides_or_nil o).0) none)
          × (get p (books_of is_zero o).asks ≡ held is_zero (named p (sides_or_nil o).1) none)
    unfolding get
    get-books_of p none = (refl, refl)
    get-books_of p (some (bids, asks)) =
        (get-set_levels is_zero p bids [], get-set_levels is_zero p asks [])

    -- After any messages of the futures feed, each side of the books that were empty at the start
    -- holds for a price the last quantity that the deltas since the last snapshot, or else the
    -- snapshot's levels of more than 0, name for it on that side, and nothing if that quantity is 0
    -- or none of them names the price. Before the first snapshot the books are empty. A quantity
    -- that tests as more than 0 must not test as 0.
    futures_books_lem :
        (ms : List (FuturesMessage Price Qty)) (p : Price)
        → (get p (futures_messages ms (no_books false)).bids
            ≡ held is_zero (named p (sides_or_nil (changes is_positive none ms)).0) none)
          × (get p (futures_messages ms (no_books false)).asks
              ≡ held is_zero (named p (sides_or_nil (changes is_positive none ms)).1) none)
    futures_books_lem ms p =
        rw (futures_messages-books_of none ms) (get-books_of p (changes is_positive none ms))
