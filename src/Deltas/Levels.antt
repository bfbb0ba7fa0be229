-- ===== src/Deltas/Levels.antt =====
-- The books that the deltas since a snapshot make.
use mathlib.Core.List.{append-nil, append_assoc}
use exchange_router_service.Prelude.{
  ◌≡◌, refl, ◌∙◌, ap, sym, Bool, true, Option, none, some, List, [], ◌∷◌, ◌++◌, Eq, is_some,
  if◌then◌else◌, arith,
}
use exchange_router_service.Prelude.Dict.{Dict, get, get-put, get-pop}
use exchange_router_service.Kraken.BookLevels.{named, side_of, or_nil, extend_with}
use exchange_router_service.Deltas.{Delta, Feed, set_level, set_levels, apply_delta}

-- the deltas from the last snapshot on, when `before` came before them
abbrev pub since :
    {Price Qty : Type 0}
    → Option (List (Delta Price Qty))
    → List (Delta Price Qty)
    → Option (List (Delta Price Qty))
since before [] = before
since before (d ∷ ds) =
    since (if d.is_snapshot then some (d ∷ []) else extend_with before (d ∷ [])) ds

module _ {Qty : Type 0} (is_zero : Qty → Bool) (stored : Qty → Qty) where
  -- what a book holds for a price, by the last quantity that its levels name, if it held `before`
  abbrev pub kept : Option Qty → Option Qty → Option Qty
  kept none before = before
  kept (some q) before = if is_zero q then none else some (stored q)

side_of_snoc :
    {I Price Qty : Type 0} (side : I → List (Price × Qty)) (is : List I) (i : I)
    → side_of side (is ++ i ∷ []) ≡ side_of side is ++ side i
side_of_snoc side [] i = append-nil (side i)
side_of_snoc side (j ∷ is) i =
    ap (λ l. side j ++ l) (side_of_snoc side is i)
    ∙ sym (append_assoc (side j) (side_of side is) (side i))

module _ {Price Qty : Type 0} ⦃e : Eq Price⦄ (is_zero : Qty → Bool) (stored : Qty → Qty) where
  pub get-set_levels :
      (p : Price) (levels : List (Price × Qty)) (book : Dict Price Qty)
      → get p (set_levels is_zero stored levels book)
        ≡ kept is_zero stored (named p levels) (get p book)
  unfolding set_levels set_level
  get-set_levels p [] book = refl
  get-set_levels p ((k, q) ∷ levels) book =
      get-set_levels p levels (set_level is_zero stored k q book)
      ∙ ground (arith, get-put k p (stored q) book, get-pop k p book)

  set_levels-append :
      (xs ys : List (Price × Qty)) (book : Dict Price Qty)
      → set_levels is_zero stored (xs ++ ys) book
        ≡ set_levels is_zero stored ys (set_levels is_zero stored xs book)
  unfolding set_levels
  set_levels-append [] ys book = refl
  set_levels-append ((p, q) ∷ xs) ys book =
      set_levels-append xs ys (set_level is_zero stored p q book)

  -- the books are those of the deltas from the last snapshot on
  abbrev pub Holds : Option (List (Delta Price Qty)) → Feed Price Qty → Type 0
  Holds o f =
      (f.bids ≡ set_levels is_zero stored (side_of (λ (d : Delta Price Qty). d.bids) (or_nil o)) [])
      × (f.asks
          ≡ set_levels is_zero stored (side_of (λ (d : Delta Price Qty). d.asks) (or_nil o)) [])
      × (f.bootstrapped ≡ is_some o)

  more_levels :
      (side : Delta Price Qty → List (Price × Qty)) (ds : List (Delta Price Qty))
      (d : Delta Price Qty)
      → set_levels is_zero stored (side_of side (ds ++ d ∷ [])) []
        ≡ set_levels is_zero stored (side d) (set_levels is_zero stored (side_of side ds) [])
  more_levels side ds d =
      ap (λ l. set_levels is_zero stored l []) (side_of_snoc side ds d)
      ∙ set_levels-append (side_of side ds) (side d) []

  pub snapshot-Holds :
      (d : Delta Price Qty) (f : Feed Price Qty)
      → Holds (some (d ∷ [])) (
          apply_delta is_zero stored d
            (record { bids = []; asks = []; last = d.id; bootstrapped = true }))
  snapshot-Holds d f = (
    ap (λ l. set_levels is_zero stored l []) (sym (append-nil d.bids)),
    ap (λ l. set_levels is_zero stored l []) (sym (append-nil d.asks)),
    refl,
  )

  pub delta-Holds :
      (o : Option (List (Delta Price Qty))) (d : Delta Price Qty) (f : Feed Price Qty)
      → Holds o f
      → Holds (extend_with o (d ∷ [])) (apply_delta is_zero stored d (record f { last = d.id }))
  delta-Holds none d f (b, a, s) = rw s (b, a, refl)
  delta-Holds (some ds) d f (b, a, s) = rw s (
    ap (set_levels is_zero stored d.bids) b ∙ sym (more_levels (λ d'. d'.bids) ds d),
    ap (set_levels is_zero stored d.asks) a ∙ sym (more_levels (λ d'. d'.asks) ds d),
    refl,
  )
