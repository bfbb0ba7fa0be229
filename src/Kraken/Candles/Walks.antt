-- ===== src/Kraken/Candles/Walks.antt =====
-- What the walk over the futures candles of Kraken gathers (src/exchanges/kraken/adapter.py).
use exchange_router_service.Prelude.{
  ℕ, zero, suc, ◌+◌, ◌≡◌, refl, true, false, ◌||◌, Option, none, some, List, [], ◌∷◌, ◌++◌, nat_eq,
  is_some, if◌then◌else◌, All, All-append, All-map, Bool-cases, inl, inr, arith,
}
use exchange_router_service.Prelude.Int.{ℤ, ◌+ℤ◌, ◌-ℤ◌, leb_ℤ, eqb_ℤ, eqb_ℤ_iff}
use exchange_router_service.Prelude.Newest.{count_at, count_at-append}
use exchange_router_service.Errors.{Result, ok, raise, ◌>>=◌}
use exchange_router_service.Adapter.Pagination.{stops_early}
use exchange_router_service.Kraken.Candles.{
  Walk, begin, mem_time, take_row, take_rows, next_page, on_page, walk, floor_seconds,
}

abbrev pub time : {A : Type 0} → ℤ × A → ℤ
time c = c.0

module _ {A : Type 0} where
  -- the first row of a time
  abbrev pub first : ℤ → List (ℤ × Result A) → Option (Result A)
  first t [] = none
  first t ((s, candle) ∷ rows) = if eqb_ℤ s t then some candle else first t rows

  or_first : Option (Result A) → Option (Result A) → Option (Result A)
  or_first none o = o
  or_first (some c) o = some c

  first-append :
      (t : ℤ) (rows more : List (ℤ × Result A))
      → first t (rows ++ more) ≡ or_first (first t rows) (first t more)
  unfolding or_first
  first-append t [] more = refl
  first-append t ((s, c) ∷ rows) more = ground (arith, first-append t rows more)

  -- Every time that a row brought is marked, and has one candle, that of its first row.
  pub record IsKept (w : Walk A) : Type 0 where
    pub marked : (t : ℤ) → mem_time t w.seen_ts ≡ is_some (first t w.rows)
    pub once : (t : ℤ) → count_at time t w.all_candles ≡ (if is_some (first t w.rows) then 1 else 0)
    pub firsts : All (λ (c : ℤ × A). first c.0 w.rows ≡ some (ok c.1)) w.all_candles

  abbrev pub KeptBy : Result (Walk A) → Type 0
  KeptBy (ok w) = IsKept w
  KeptBy (raise e) = Unit

  bind-KeptBy :
      (r : Result (Walk A)) (f : Walk A → Result (Walk A))
      → KeptBy r
      → ((w : Walk A) → IsKept w → KeptBy (f w))
      → KeptBy (r >>= f)
  bind-KeptBy (ok w) f h k = k w h
  bind-KeptBy (raise e) f h k = tt

  later_first :
      (t : ℤ) (c : Result A) (more rows : List (ℤ × Result A))
      → first t rows ≡ some c
      → first t (rows ++ more) ≡ some c
  unfolding or_first
  later_first t c more rows h = rw (first-append t rows more, h) refl

  new_first :
      (t : ℤ) (c : Result A) (rows : List (ℤ × Result A))
      → is_some (first t rows) ≡ false
      → first t (rows ++ (t, c) ∷ []) ≡ some c
  unfolding or_first
  new_first t c rows h = ground (arith, first-append t rows ((t, c) ∷ []), eqb_ℤ_iff t t)

  is_some-first :
      (t s : ℤ) (c : Result A) (rows : List (ℤ × Result A))
      → is_some (first t (rows ++ (s, c) ∷ [])) ≡ (is_some (first t rows) || eqb_ℤ s t)
  unfolding or_first
  is_some-first t s c rows = ground (arith, first-append t rows ((s, c) ∷ []))

  seen-KeptBy :
      (t : ℤ) (candle : Result A) (w : Walk A)
      → mem_time t w.seen_ts ≡ true
      → IsKept w
      → IsKept (record w { last_ts_secs = floor_seconds t; rows = w.rows ++ (t, candle) ∷ [] })
  seen-KeptBy t candle w old k = record {
    marked =
        λ s. ground (arith, k.marked s, k.marked t, is_some-first s t candle w.rows, eqb_ℤ_iff t s);
    once =
        λ s. ground (arith, k.once s, k.marked t, is_some-first s t candle w.rows, eqb_ℤ_iff t s);
    firsts =
        All-map _ _ (λ c h. later_first c.0 (ok c.1) ((t, candle) ∷ []) w.rows h) w.all_candles
          k.firsts;
  }

  parsed-KeptBy :
      (t : ℤ) (a : A) (w : Walk A)
      → mem_time t w.seen_ts ≡ false
      → IsKept w
      → IsKept (record {
        all_candles = w.all_candles ++ (t, a) ∷ [];
        seen_ts = t ∷ w.seen_ts;
        added = w.added + 1;
        last_ts_secs = floor_seconds t;
        rows = w.rows ++ (t, ok a) ∷ [];
      })
  unfolding mem_time
  parsed-KeptBy t a w new k = record {
    marked = λ s. ground (arith, k.marked s, is_some-first s t (ok a) w.rows);
    once = λ s. ground (
      arith,
      k.once s,
      k.marked t,
      is_some-first s t (ok a) w.rows,
      eqb_ℤ_iff t s,
      count_at-append time s w.all_candles ((t, a) ∷ []),
    );
    firsts =
        All-append _ w.all_candles _
          (All-map _ _ (λ c h. later_first c.0 (ok c.1) ((t, ok a) ∷ []) w.rows h) w.all_candles
            k.firsts)
          (new_first t (ok a) w.rows (ground (arith, k.marked t)), tt);
  }

  take_row-KeptBy : (row : ℤ × Result A) (w : Walk A) → IsKept w → KeptBy (take_row row w)
  unfolding take_row
  take_row-KeptBy (t, ok a) w k = elim (Bool-cases (mem_time t w.seen_ts)) [
    | inl old ↦ rw old (seen-KeptBy t (ok a) w old k)
    | inr new ↦ rw new (parsed-KeptBy t a w new k)
  ]
  take_row-KeptBy (t, raise e) w k = elim (Bool-cases (mem_time t w.seen_ts)) [
    | inl old ↦ rw old (seen-KeptBy t (raise e) w old k)
    | inr new ↦ rw new tt
  ]

  take_rows-KeptBy :
      (rows : List (ℤ × Result A)) (w : Walk A) → IsKept w → KeptBy (take_rows rows w)
  unfolding take_rows
  take_rows-KeptBy [] w k = k
  take_rows-KeptBy (row ∷ rows) w k =
      bind-KeptBy (take_row row w) (take_rows rows) (take_row-KeptBy row w k)
        (take_rows-KeptBy rows)

  module _ (again : ℤ → Walk A → Result (Walk A)) (interval anchor : ℤ)
      (kept : (from : ℤ) (w : Walk A) → IsKept w → KeptBy (again from w)) where
    next_page-KeptBy : (w : Walk A) → IsKept w → KeptBy (next_page again interval anchor w)
    next_page-KeptBy w k =
        elim (Bool-cases (nat_eq w.added 0 || leb_ℤ (anchor -ℤ interval) w.last_ts_secs)) [
          | inl over ↦ rw over k
          | inr more ↦ rw more (kept (w.last_ts_secs +ℤ interval) w k)
        ]

    on_page-KeptBy :
        (from_ts : ℤ) (w : Walk A) (page : Result (List (ℤ × Result A)))
        → IsKept w
        → KeptBy (on_page again interval anchor from_ts w page)
    on_page-KeptBy from_ts w (raise e) k = elim (Bool-cases (stops_early e)) [
      | inl early ↦ rw early k
      | inr late ↦ rw late tt
    ]
    on_page-KeptBy from_ts w (ok []) k = k
    on_page-KeptBy from_ts w (ok (row ∷ rows)) k =
        bind-KeptBy (take_rows (row ∷ rows) _) (next_page again interval anchor)
          (take_rows-KeptBy (row ∷ rows) (record w { added = 0; last_ts_secs = from_ts })
            (record { marked = k.marked; once = k.once; firsts = k.firsts }))
          next_page-KeptBy

  pub walk-KeptBy :
      (fetch : ℕ → ℤ → Result (List (ℤ × Result A))) (interval anchor : ℤ) (left : ℕ) (from_ts : ℤ)
      (w : Walk A)
      → IsKept w
      → KeptBy (walk fetch interval anchor left from_ts w)
  unfolding walk
  walk-KeptBy fetch interval anchor zero from_ts w k = k
  walk-KeptBy fetch interval anchor (suc left) from_ts w k =
      on_page-KeptBy (λ from w'. walk fetch interval anchor left from w') interval anchor
        (walk-KeptBy fetch interval anchor left) from_ts w (fetch left from_ts) k

  pub begin-IsKept : IsKept begin
  unfolding mem_time
  begin-IsKept = record { marked = λ t. refl; once = λ t. refl; firsts = tt }
