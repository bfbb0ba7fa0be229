-- ===== src/Deltas/Runs.antt =====
-- A stream of an order book from numbered deltas, while it goes on.
use exchange_router_service.Prelude.{
  ◌↔◌, ℕ, ◌≡◌, refl, ◌∙◌, sym, subst, Bool, true, false, Option, none, some, List, [], ◌∷◌, Eq,
  Bool-cases, inl, inr, ◌⊎◌, if◌then◌else◌, arith,
}
use exchange_router_service.Kraken.BookLevels.{extend_with}
use exchange_router_service.Deltas.{Delta, Feed, apply_delta, deliver, run}
use exchange_router_service.Deltas.Levels.{since, Holds, snapshot-Holds, delta-Holds}
use exchange_router_service.Deltas.Gaps.{Gapless}

module _ {Price Qty : Type 0} ⦃e : Eq Price⦄ (is_zero : Qty → Bool) (stored : Qty → Qty) where
  module _ (gap : Option ℕ → Delta Price Qty → Bool) (Follows : Option ℕ → Delta Price Qty → Type 0)
      (gap_iff : (last : Option ℕ) (d : Delta Price Qty)
        → (gap last d ≡ false) ↔ Follows last d) where
    run_nil : (f g : Feed Price Qty) → run is_zero stored gap [] f ≡ some g → f ≡ g
    unfolding run
    run_nil f g e = cc

    run_cons :
        (d : Delta Price Qty) (ds : List (Delta Price Qty)) (f g : Feed Price Qty)
        → deliver is_zero stored gap d f ≡ some g
        → run is_zero stored gap (d ∷ ds) f ≡ run is_zero stored gap ds g
    unfolding run
    run_cons d ds f g e = rw e refl

    run_gap :
        (d : Delta Price Qty) (ds : List (Delta Price Qty)) (f : Feed Price Qty)
        → d.is_snapshot ≡ false
        → gap f.last d ≡ true
        → run is_zero stored gap (d ∷ ds) f ≡ none
    unfolding run deliver
    run_gap d ds f e missing = rw (missing, e) refl

    deliver_snapshot :
        (d : Delta Price Qty) (f : Feed Price Qty)
        → d.is_snapshot ≡ true
        → deliver is_zero stored gap d f
          ≡ some (
              apply_delta is_zero stored d
                (record { bids = []; asks = []; last = d.id; bootstrapped = true }))
    unfolding deliver
    deliver_snapshot d f e = rw e refl

    deliver_delta :
        (d : Delta Price Qty) (f : Feed Price Qty)
        → d.is_snapshot ≡ false
        → gap f.last d ≡ false
        → deliver is_zero stored gap d f
          ≡ some (apply_delta is_zero stored d (record f { last = d.id }))
    unfolding deliver
    deliver_delta d f e fits = rw (fits, e) refl

    last-apply_delta :
        (d : Delta Price Qty) (f : Feed Price Qty) → (apply_delta is_zero stored d f).last ≡ f.last
    last-apply_delta d f = ground arith

    -- What a run of the deltas that comes through has seen, and what its books hold.
    pub run-Holds :
        (o : Option (List (Delta Price Qty))) (ds : List (Delta Price Qty)) (f g : Feed Price Qty)
        → Holds is_zero stored o f
        → run is_zero stored gap ds f ≡ some g
        → Gapless Follows f.last ds × Holds is_zero stored (since o ds) g
    run-Holds o [] f g h e = (tt, subst (Holds is_zero stored o) (run_nil f g e) h)
    run-Holds o (d ∷ ds) f g h e = elim (Bool-cases d.is_snapshot) [
      | inl new ↦
          let f' =
            apply_delta is_zero stored d
              (record { bids = []; asks = []; last = d.id; bootstrapped = true }) in
          let (gapless, holds) =
            run-Holds (some (d ∷ [])) ds f' g (snapshot-Holds is_zero stored d f)
              (sym (run_cons d ds f f' (deliver_snapshot d f new)) ∙ e) in
          (
            (inl new, gapless),
            subst
                (λ b.
                  Holds is_zero stored
                    (since (if b then some (d ∷ []) else extend_with o (d ∷ [])) ds) g)
                (sym new) holds,
          )
      | inr old ↦ elim (Bool-cases (gap f.last d)) [
        | inl missing ↦ cc (run_gap d ds f old missing)
        | inr fits ↦
            let f' = apply_delta is_zero stored d (record f { last = d.id }) in
            let (gapless, holds) =
              run-Holds (extend_with o (d ∷ [])) ds f' g (delta-Holds is_zero stored o d f h)
                (sym (run_cons d ds f f' (deliver_delta d f old fits)) ∙ e) in
            (
              (
                inr ((gap_iff f.last d).0 fits),
                subst (λ l. Gapless Follows l ds) (last-apply_delta d (record f { last = d.id }))
                    gapless,
              ),
              subst
                  (λ b.
                    Holds is_zero stored
                      (since (if b then some (d ∷ []) else extend_with o (d ∷ [])) ds) g)
                  (sym old) holds,
            )
      ]
    ]

    through_nil : (f : Feed Price Qty) → run is_zero stored gap [] f ≡ some f
    unfolding run
    through_nil f = refl

    follows_old :
        (d : Delta Price Qty) (f : Feed Price Qty)
        → d.is_snapshot ≡ false
        → (d.is_snapshot ≡ true) ⊎ Follows f.last d
        → gap f.last d ≡ false
    follows_old d f old (inl new) = cc
    follows_old d f old (inr follows) = (gap_iff f.last d).1 follows

    -- A run of deltas that follow one another comes through.
    pub run_through :
        (ds : List (Delta Price Qty)) (f : Feed Price Qty)
        → Gapless Follows f.last ds
        → (g : Feed Price Qty) × (run is_zero stored gap ds f ≡ some g)
    run_through [] f h = (f, through_nil f)
    run_through (d ∷ ds) f h = elim (Bool-cases d.is_snapshot) [
      | inl new ↦
          let f' =
            apply_delta is_zero stored d
              (record { bids = []; asks = []; last = d.id; bootstrapped = true }) in
          let (g, ran) = run_through ds f' h.1 in
          (g, run_cons d ds f f' (deliver_snapshot d f new) ∙ ran)
      | inr old ↦
          let fits : gap f.last d ≡ false = follows_old d f old h.0 in
          let f' = apply_delta is_zero stored d (record f { last = d.id }) in
          let (g, ran) = run_through ds f' (
            subst (λ l. Gapless Follows l ds) (sym (last-apply_delta d (record f { last = d.id })))
              h.1) in
          (g, run_cons d ds f f' (deliver_delta d f old fits) ∙ ran)
    ]
