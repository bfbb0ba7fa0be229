-- ===== src/Kraken/BookView.antt =====
-- What `stream_orderbook` (src/exchanges/kraken/adapter.py) shows of its books.
use mathlib.Core.List.{Perm}
use exchange_router_service.Prelude.{
  take-append-drop, All-drop, ℕ, zero, suc, min, ◌≡◌, List, [], ◌∷◌, ◌++◌, length, take, drop, All,
  arith,
}
use exchange_router_service.Prelude.Int.{ℤ, pos, ◌-ℤ◌, ◌≤ℤ◌}
use exchange_router_service.Prelude.Sort.{
  sort_by, Sorted, sort_by-Sorted, sort_by-perm, length-sort_by,
}
use exchange_router_service.Kraken.Book.{Books, view}

module _ {A : Type 0} where
  length-take : (n : ℕ) (xs : List A) → length (take n xs) ≡ min n (length xs)
  length-take zero xs = ground arith
  length-take (suc n) [] = ground arith
  length-take (suc n) (x ∷ xs) = ground (arith, length-take n xs)

  All-take : (P : A → Type 0) (n : ℕ) (xs : List A) → All P xs → All P (take n xs)
  All-take P zero xs h = tt
  All-take P (suc n) [] h = tt
  All-take P (suc n) (x ∷ xs) h = (h.0, All-take P n xs h.1)

module _ {A : Type 0} (key : A → ℤ) where
  Sorted-take : (n : ℕ) (xs : List A) → Sorted key xs → Sorted key (take n xs)
  Sorted-take zero xs h = tt
  Sorted-take (suc n) [] h = tt
  Sorted-take (suc n) (x ∷ xs) h = (All-take (λ y. key x ≤ℤ key y) n xs h.0, Sorted-take n xs h.1)

  take-below-drop :
      (n : ℕ) (xs : List A)
      → Sorted key xs
      → All (λ x. All (λ y. key x ≤ℤ key y) (drop n xs)) (take n xs)
  take-below-drop zero xs h = tt
  take-below-drop (suc n) [] h = tt
  take-below-drop (suc n) (x ∷ xs) h =
      (All-drop (λ y. key x ≤ℤ key y) n xs h.0, take-below-drop n xs h.1)

  -- `shown` is the first `depth` of the levels in the order of the key, and `hidden` are the others
  pub record Best (depth : ℕ) (levels shown hidden : List A) : Type 0 where
    pub all_levels : Perm (shown ++ hidden) levels
    pub count : length shown ≡ min depth (length levels)
    pub ordered : Sorted key shown
    pub better : All (λ x. All (λ y. key x ≤ℤ key y) hidden) shown

  take-sort_by-Best :
      (depth : ℕ) (levels : List A)
      → Best depth levels (take depth (sort_by key levels)) (drop depth (sort_by key levels))
  take-sort_by-Best depth levels = record {
    all_levels = rw (take-append-drop depth (sort_by key levels)) (sort_by-perm key levels);
    count = ground (arith, length-take depth (sort_by key levels), length-sort_by key levels);
    ordered = Sorted-take depth (sort_by key levels) (sort_by-Sorted key levels);
    better = take-below-drop depth (sort_by key levels) (sort_by-Sorted key levels);
  }

-- A view shows of each side of the books the first `depth` levels, all of them where there are
-- fewer: bids in descending and asks in ascending order of price. The levels shown and those left out
-- together are the levels of the side, and none that is left out has a better price than one shown.
pub view-Best :
    {Price Qty : Type 0} (rank : Price → ℤ) (depth : ℕ) (b : Books Price Qty)
    → ((hidden : List (Price × Qty)) × Best
          (λ (l : Price × Qty). pos 0 -ℤ rank l.0)
          depth
          b.bids
          (view rank depth b).bids
          hidden)
      × ((hidden : List (Price × Qty)) × Best
            (λ (l : Price × Qty). rank l.0)
            depth
            b.asks
            (view rank depth b).asks
            hidden)
unfolding view
view-Best rank depth b = (
  (_, take-sort_by-Best (λ l. pos 0 -ℤ rank l.0) depth b.bids),
  (_, take-sort_by-Best (λ l. rank l.0) depth b.asks),
)
