-- ===== src/Kraken/Candles/Newest.antt =====
-- What `get_candles` of src/exchanges/kraken/adapter.py returns for a futures market.
use exchange_router_service.Prelude.{
  ℕ, ◌-◌, ◌≤◌, ◌≡◌, ◌⊎◌, subst, true, Option, some, List, [], ◌∷◌, length, last_n, length-last_n,
  is_some, if◌then◌else◌, All, All-drop, Bool-cases, inl, inr, arith,
}
use exchange_router_service.Prelude.Int.{ℤ, pos, ◌*ℤ◌, ◌-ℤ◌, ◌≤ℤ◌, ◌<ℤ◌, eqb_ℤ_iff}
use exchange_router_service.Prelude.Sort.{sort_by, Sorted, sort_by-Sorted, Sorted-drop, All-sort_by}
use exchange_router_service.Prelude.Newest.{
  count_at, count_at-sort_by, count_at-last_n, newest_complete,
}
use exchange_router_service.Errors.{Result, ok, ◌>>=◌, Result-cases, ok-injective, raise_not_ok}
use exchange_router_service.Kraken.Candles.{
  Walk, begin, up_to, is_due, given, anchor_of, walk, max_pages, get_candles,
}
use exchange_router_service.Kraken.Candles.Walks.{
  first, time, IsKept, KeptBy, walk-KeptBy, begin-IsKept,
}

module _ {A : Type 0} where
  count_at-up_to :
      (start : Option ℤ) (t : ℤ) (cs : List (ℤ × A))
      → count_at time t (up_to start cs) ≡ (if is_due start t then count_at time t cs else 0)
  unfolding up_to
  count_at-up_to start t [] = ground arith
  count_at-up_to start t (c ∷ cs) = ground (arith, count_at-up_to start t cs, eqb_ℤ_iff c.0 t)

  All-up_to :
      (start : Option ℤ) (P : ℤ × A → Type 0) (cs : List (ℤ × A))
      → All P cs
      → All P (up_to start cs)
  unfolding up_to
  All-up_to start P [] h = tt
  All-up_to start P (c ∷ cs) h = elim (Bool-cases (is_due start c.0)) [
    | inl due ↦ rw due (h.0, All-up_to start P cs h.1)
    | inr early ↦ rw early (All-up_to start P cs h.1)
  ]

  due-up_to :
      (start : Option ℤ) (cs : List (ℤ × A))
      → All (λ (c : ℤ × A). is_due start c.0 ≡ true) (up_to start cs)
  unfolding up_to
  due-up_to start [] = tt
  due-up_to start (c ∷ cs) = elim (Bool-cases (is_due start c.0)) [
    | inl due ↦ rw due (due, due-up_to start cs)
    | inr early ↦ rw early (due-up_to start cs)
  ]

  Sorted-up_to :
      (start : Option ℤ) (cs : List (ℤ × A)) → Sorted time cs → Sorted time (up_to start cs)
  unfolding up_to
  Sorted-up_to start [] h = tt
  Sorted-up_to start (c ∷ cs) h = elim (Bool-cases (is_due start c.0)) [
    | inl due ↦ rw due (All-up_to start (λ d. c.0 ≤ℤ d.0) cs h.0, Sorted-up_to start cs h.1)
    | inr early ↦ rw early (Sorted-up_to start cs h.1)
  ]

  -- What a request of candles returns of the rows of a walk: candles in the order of time, each the
  -- first that came for its time, no two of a time, none later than the time that was asked for, and
  -- no more than the limit. A time of a row that was due is there, unless the limit is reached with
  -- later ones.
  pub record Newest (start : Option ℤ) (limit : ℕ) (w : Walk A) (out : List (ℤ × A)) : Type 0 where
    pub ordered : Sorted time out
    pub once : (t : ℤ) → count_at time t out ≤ 1
    pub firsts : All (λ (c : ℤ × A). first c.0 w.rows ≡ some (ok c.1)) out
    pub due : All (λ (c : ℤ × A). is_due start c.0 ≡ true) out
    pub few : length out ≤ limit
    pub complete :
        (t : ℤ)
        → is_some (first t w.rows) ≡ true
        → is_due start t ≡ true
        → (count_at time t out ≡ 1) ⊎ ((length out ≡ limit) × All (λ (c : ℤ × A). t <ℤ c.0) out)

  module _ (start : Option ℤ) (limit : ℕ) (w : Walk A) (kept : IsKept w) where
    abbrev list_of : List (ℤ × A)
    list_of = up_to start (sort_by time w.all_candles)

    list-Sorted : Sorted time list_of
    list-Sorted =
        Sorted-up_to start (sort_by time w.all_candles) (sort_by-Sorted time w.all_candles)

    list-count :
        (t : ℤ)
        → count_at time t list_of
          ≡ (if is_due start t then (if is_some (first t w.rows) then 1 else 0) else 0)
    list-count t = ground (
      arith,
      count_at-up_to start t (sort_by time w.all_candles),
      count_at-sort_by time t w.all_candles,
      kept.once t,
    )

    last_n-Newest : Newest start limit w (last_n limit list_of)
    last_n-Newest = record {
      ordered = Sorted-drop time (length list_of - limit) list_of list-Sorted;
      once = λ t. ground (arith, count_at-last_n time t limit list_of, list-count t);
      firsts = All-drop _ (length list_of - limit) list_of (
          All-up_to start _ (sort_by time w.all_candles)
            (All-sort_by time _ w.all_candles kept.firsts));
      due =
          All-drop _ (length list_of - limit) list_of
            (due-up_to start (sort_by time w.all_candles));
      few = omega (arith, length-last_n limit list_of);
      complete = λ t there due.
          newest_complete time t limit list_of list-Sorted (ground (arith, list-count t));
    }

  -- Where it returns, `get_candles` of a futures market gives the newest candles of the rows that its
  -- pages brought: in the order of time, each the first that came for its time, no two of a time, none
  -- later than `start_time` where that is given, no more than the limit; and a time that a row brought
  -- and that is due has its candle there, unless the limit is reached with later ones.
  pub futures_candles_lem :
      (fetch : ℕ → ℤ → Result (List (ℤ × Result A))) (interval now : ℤ) (start_time : Option ℤ)
      (limit : ℕ) {out : List (ℤ × A)}
      → get_candles fetch interval now start_time limit ≡ ok out
      → (w : Walk A) × (walk fetch interval
            (anchor_of now (given start_time))
            max_pages
            (anchor_of now (given start_time) -ℤ pos limit *ℤ interval)
            begin
          ≡ ok w)
        × Newest (given start_time) limit w out
  unfolding get_candles
  futures_candles_lem fetch interval now start_time limit {out} h =
      let anchor = anchor_of now (given start_time) in
      let from_ts = anchor -ℤ pos limit *ℤ interval in
      let kept = walk-KeptBy fetch interval anchor max_pages from_ts begin begin-IsKept in
      elim (Result-cases (walk fetch interval anchor max_pages from_ts begin)) [
        | inl (w, e) ↦
            let returned =
              subst
                (λ r.
                  (r >>= λ w'.
                  ok (last_n limit (up_to (given start_time) (sort_by time w'.all_candles))))
                  ≡ ok out)
                e h in
            (
              w,
              e,
              subst (Newest (given start_time) limit w) (ok-injective returned)
                  (last_n-Newest (given start_time) limit w (subst KeptBy e kept)),
            )
        | inr (err, e) ↦ absurd (
            raise_not_ok (
              subst
                (λ r.
                  (r >>= λ w'.
                  ok (last_n limit (up_to (given start_time) (sort_by time w'.all_candles))))
                  ≡ ok out)
                e h))
      ]
