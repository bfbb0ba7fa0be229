-- ===== src/Kraken/BookLevels.antt =====
-- What the books of `stream_orderbook` (src/exchanges/kraken/adapter.py) hold after any messages of
-- the spot feed.
use exchange_router_service.Prelude.{
  ◌≡◌, refl, ◌∙◌, ap, Bool, true, false, Option, none, some, List, [], ◌∷◌, ◌++◌, Eq, if◌then◌else◌,
  arith,
}
use exchange_router_service.Prelude.Dict.{Dict, get, get-put, get-pop}
use exchange_router_service.Kraken.Book.{
  Books, Item, SpotMessage, spot_snapshot, spot_update, spot_other, set_level, set_levels,
  apply_item, apply_items, spot_message,
}

-- the first that is there
abbrev pub prefer : {A : Type 0} → Option A → Option A → Option A
prefer none o = o
prefer (some a) o = some a

abbrev pub or_nil : {A : Type 0} → Option (List A) → List A
or_nil none = []
or_nil (some l) = l

-- the levels of a side of some items, in order
abbrev pub side_of : {I Price Qty : Type 0} → (I → List (Price × Qty)) → List I → List (Price × Qty)
side_of side [] = []
side_of side (item ∷ items) = side item ++ side_of side items

abbrev pub extend_with : {A : Type 0} → Option (List A) → List A → Option (List A)
extend_with none more = none
extend_with (some l) more = some (l ++ more)

-- the items since the last snapshot of some messages, when `before` came before them
abbrev pub since :
    {Price Qty : Type 0}
    → Option (List (Item Price Qty))
    → List (SpotMessage Price Qty)
    → Option (List (Item Price Qty))
since before [] = before
since before (spot_snapshot items ∷ ms) = since (some items) ms
since before (spot_update items ∷ ms) = since (extend_with before items) ms
since before (spot_other ∷ ms) = since before ms

abbrev pub no_books : {Price Qty : Type 0} → Bool → Books Price Qty
no_books b = record { bids = []; asks = []; bootstrapped = b }

module _ {Price Qty : Type 0} ⦃e : Eq Price⦄ where
  -- the last quantity that the levels name for a price
  abbrev pub named : Price → List (Price × Qty) → Option Qty
  named p [] = none
  named p ((k, q) ∷ levels) = prefer (named p levels) (if e.same k p then some q else none)

  named-append :
      (p : Price) (xs ys : List (Price × Qty))
      → named p (xs ++ ys) ≡ prefer (named p ys) (named p xs)
  named-append p [] ys = ground arith
  named-append p ((k, q) ∷ xs) ys = ground (arith, named-append p xs ys)

module _ {Qty : Type 0} (is_zero : Qty → Bool) where
  -- what a book holds for a price, when levels have been applied to one that held `before`
  abbrev pub held : Option Qty → Option Qty → Option Qty
  held none before = before
  held (some q) before = if is_zero q then none else some q

module _ {Price Qty : Type 0} ⦃e : Eq Price⦄ (is_zero : Qty → Bool) where
  pub get-set_levels :
      (p : Price) (levels : List (Price × Qty)) (book : Dict Price Qty)
      → get p (set_levels is_zero levels book) ≡ held is_zero (named p levels) (get p book)
  unfolding set_levels set_level
  get-set_levels p [] book = refl
  get-set_levels p ((k, q) ∷ levels) book =
      get-set_levels p levels (set_level is_zero k q book)
      ∙ ground (arith, get-put k p q book, get-pop k p book)

  get_bids-apply_items :
      (p : Price) (items : List (Item Price Qty)) (b : Books Price Qty)
      → get p (apply_items is_zero items b).bids
        ≡ held is_zero (named p (side_of (λ (i : Item Price Qty). i.bids) items)) (get p b.bids)
  unfolding apply_items apply_item
  get_bids-apply_items p [] b = refl
  get_bids-apply_items p (item ∷ items) b = ground (
    arith,
    get_bids-apply_items p items (apply_item is_zero item b),
    get-set_levels p item.bids b.bids,
    named-append p item.bids (side_of (λ (i : Item Price Qty). i.bids) items),
  )

  get_asks-apply_items :
      (p : Price) (items : List (Item Price Qty)) (b : Books Price Qty)
      → get p (apply_items is_zero items b).asks
        ≡ held is_zero (named p (side_of (λ (i : Item Price Qty). i.asks) items)) (get p b.asks)
  unfolding apply_items apply_item
  get_asks-apply_items p [] b = refl
  get_asks-apply_items p (item ∷ items) b = ground (
    arith,
    get_asks-apply_items p items (apply_item is_zero item b),
    get-set_levels p item.asks b.asks,
    named-append p item.asks (side_of (λ (i : Item Price Qty). i.asks) items),
  )

  apply_items-append :
      (xs ys : List (Item Price Qty)) (b : Books Price Qty)
      → apply_items is_zero (xs ++ ys) b ≡ apply_items is_zero ys (apply_items is_zero xs b)
  unfolding apply_items
  apply_items-append [] ys b = refl
  apply_items-append (x ∷ xs) ys b = apply_items-append xs ys (apply_item is_zero x b)

  bootstrapped-apply_items :
      (items : List (Item Price Qty)) (b : Books Price Qty)
      → (apply_items is_zero items b).bootstrapped ≡ b.bootstrapped
  unfolding apply_items apply_item
  bootstrapped-apply_items [] b = refl
  bootstrapped-apply_items (item ∷ items) b =
      bootstrapped-apply_items items (apply_item is_zero item b)

  -- the books of the items since the last snapshot
  abbrev pub books_of : Option (List (Item Price Qty)) → Books Price Qty
  books_of none = no_books false
  books_of (some items) = apply_items is_zero items (no_books true)

  -- the books after some messages
  abbrev pub spot_messages : List (SpotMessage Price Qty) → Books Price Qty → Books Price Qty
  spot_messages [] b = b
  spot_messages (m ∷ ms) b = spot_messages ms (spot_message is_zero m b)

  spot_message-update :
      (o : Option (List (Item Price Qty))) (items : List (Item Price Qty))
      → spot_message is_zero (spot_update items) (books_of o) ≡ books_of (extend_with o items)
  unfolding spot_message
  spot_message-update none items = refl
  spot_message-update (some xs) items = ground (
    arith,
    bootstrapped-apply_items xs (no_books true),
    apply_items-append xs items (no_books true),
  )

  spot_messages-books_of :
      (o : Option (List (Item Price Qty))) (ms : List (SpotMessage Price Qty))
      → spot_messages ms (books_of o) ≡ books_of (since o ms)
  unfolding spot_message
  spot_messages-books_of o [] = refl
  spot_messages-books_of o (spot_snapshot items ∷ ms) = spot_messages-books_of (some items) ms
  spot_messages-books_of o (spot_update items ∷ ms) =
      ap (spot_messages ms) (spot_message-update o items)
      ∙ spot_messages-books_of (extend_with o items) ms
  spot_messages-books_of o (spot_other ∷ ms) = spot_messages-books_of o ms

  get_bids-books_of :
      (p : Price) (o : Option (List (Item Price Qty)))
      → get p (books_of o).bids
        ≡ held is_zero (named p (side_of (λ (i : Item Price Qty). i.bids) (or_nil o))) none
  unfolding get
  get_bids-books_of p none = refl
  get_bids-books_of p (some items) = get_bids-apply_items p items (no_books true)

  get_asks-books_of :
      (p : Price) (o : Option (List (Item Price Qty)))
      → get p (books_of o).asks
        ≡ held is_zero (named p (side_of (λ (i : Item Price Qty). i.asks) (or_nil o))) none
  unfolding get
  get_asks-books_of p none = refl
  get_asks-books_of p (some items) = get_asks-apply_items p items (no_books true)

  -- After any messages of the spot feed, each side of the books that were empty at the start holds
  -- for a price the last quantity that the items from the last snapshot on name for it on that
  -- side, and nothing if that quantity is 0 or no such item names the price. Before the first
  -- snapshot the books are empty.
  pub spot_books_lem :
      (ms : List (SpotMessage Price Qty)) (p : Price)
      → (get p (spot_messages ms (no_books false)).bids
          ≡ held is_zero
              (named p (side_of (λ (i : Item Price Qty). i.bids) (or_nil (since none ms))))
              none)
        × (get p (spot_messages ms (no_books false)).asks
            ≡ held is_zero
                (named p (side_of (λ (i : Item Price Qty). i.asks) (or_nil (since none ms))))
                none)
  spot_books_lem ms p = (
    ap (λ (b : Books Price Qty). get p b.bids) (spot_messages-books_of none ms)
        ∙ get_bids-books_of p (since none ms),
    ap (λ (b : Books Price Qty). get p b.asks) (spot_messages-books_of none ms)
        ∙ get_asks-books_of p (since none ms),
  )
