-- ===== src/Kraken/Candles.antt =====
-- The candles of the futures markets of src/exchanges/kraken/adapter.py (`get_candles`): a walk from an
-- early time forward, page by page. A row of a page has its timestamp in milliseconds, as
-- `normalize_timestamp` gives it, and the candle that it makes, or the exception.
pub mod Walks
pub mod Newest
pub mod Returns
use exchange_router_service.Prelude.{
  ℕ, zero, suc, ◌+◌, ◌*◌, ◌/◌, Bool, true, false, ◌||◌, Option, none, some, List, [], ◌∷◌, ◌++◌,
  last_n, nat_eq, if◌then◌else◌,
}
use exchange_router_service.Prelude.Int.{ℤ, pos, negsuc, ◌+ℤ◌, ◌-ℤ◌, ◌*ℤ◌, leb_ℤ, eqb_ℤ}
use exchange_router_service.Prelude.Sort.{sort_by}
use exchange_router_service.Errors.{Error, Result, ok, raise, ◌>>=◌}
use exchange_router_service.Adapter.Pagination.{stops_early}

-- `range(20)`
abbrev pub max_pages : ℕ
max_pages = 20

-- `ts // 1000`
abbrev pub floor_seconds : ℤ → ℤ
floor_seconds (pos ms) = pos (ms / 1000)
floor_seconds (negsuc ms) = negsuc (ms / 1000)

-- `int(start_time / 1000)`
abbrev pub whole_seconds : ℤ → ℤ
whole_seconds (pos ms) = pos (ms / 1000)
whole_seconds (negsuc ms) = pos 0 -ℤ pos (suc ms / 1000)

-- `start_time`, where it is neither missing nor 0
abbrev pub given : Option ℤ → Option ℤ
given none = none
given (some t) = if eqb_ℤ t (pos 0) then none else some t

abbrev pub anchor_of : ℤ → Option ℤ → ℤ
anchor_of now none = now
anchor_of now (some t) = whole_seconds t

unfoldable pub mem_time : ℤ → List ℤ → Bool
mem_time t [] = false
mem_time t (s ∷ seen) = eqb_ℤ s t || mem_time t seen

-- `[c for c in candles if c.timestamp <= start_time]`, where there is one
abbrev pub is_due : Option ℤ → ℤ → Bool
is_due none t = true
is_due (some start) t = leb_ℤ t start

module _ (A : Type 0) where
  -- The variables of the loops. `rows` is a record of the run: the rows of all pages.
  pub record Walk : Type 0 where
    pub all_candles : List (ℤ × A)
    pub seen_ts : List ℤ
    pub added : ℕ
    pub last_ts_secs : ℤ
    pub rows : List (ℤ × Result A)

module _ {A : Type 0} where
  unfoldable pub up_to : Option ℤ → List (ℤ × A) → List (ℤ × A)
  up_to start [] = []
  up_to start (c ∷ cs) = let rest = up_to start cs in if is_due start c.0 then c ∷ rest else rest

  abbrev pub begin : Walk A
  begin = record { all_candles = []; seen_ts = []; added = 0; last_ts_secs = pos 0; rows = [] }

  -- a row of a page
  unfoldable pub take_row : ℤ × Result A → Walk A → Result (Walk A)
  unfolding mem_time
  take_row (t, candle) w =
      let w' = record w { last_ts_secs = floor_seconds t; rows = w.rows ++ (t, candle) ∷ [] } in
      let parsed = candle >>= λ a. ok (record w' {
        all_candles = w.all_candles ++ (t, a) ∷ [];
        seen_ts = t ∷ w.seen_ts;
        added = w.added + 1;
      }) in
      if mem_time t w.seen_ts then ok w' else parsed

  unfoldable pub take_rows : List (ℤ × Result A) → Walk A → Result (Walk A)
  unfolding take_row
  take_rows [] w = ok w
  take_rows (row ∷ rows) w = do w' ← take_row row w; take_rows rows w'

  -- what a page leads to; `again` is the next round, from a time on
  abbrev pub next_page : (ℤ → Walk A → Result (Walk A)) → ℤ → ℤ → Walk A → Result (Walk A)
  next_page again interval anchor w =
      let more = again (w.last_ts_secs +ℤ interval) w in
      if nat_eq w.added 0 || leb_ℤ (anchor -ℤ interval) w.last_ts_secs then ok w else more

  abbrev pub on_page :
      (ℤ → Walk A → Result (Walk A))
      → ℤ
      → ℤ
      → ℤ
      → Walk A
      → Result (List (ℤ × Result A))
      → Result (Walk A)
  on_page again interval anchor from_ts w (raise e) = if stops_early e then ok w else raise e
  on_page again interval anchor from_ts w (ok []) = ok w
  on_page again interval anchor from_ts w (ok (row ∷ rows)) = do
    w' ← take_rows (row ∷ rows) (record w { added = 0; last_ts_secs = from_ts })
    next_page again interval anchor w'

  module _ (fetch : ℕ → ℤ → Result (List (ℤ × Result A))) (interval anchor : ℤ) where
    -- the `for` loop, with the number of rounds that are left
    unfoldable pub walk : ℕ → ℤ → Walk A → Result (Walk A)
    unfolding take_rows stops_early ◌+ℤ◌ ◌-ℤ◌
    walk zero from_ts w = ok w
    walk (suc left) from_ts w =
        on_page (λ from w'. walk left from w') interval anchor from_ts w (fetch left from_ts)

  -- `get_candles` of a futures market; `fetch` answers the request of a
  -- round, from a time in seconds on
  unfoldable pub get_candles :
      (ℕ → ℤ → Result (List (ℤ × Result A))) → ℤ → ℤ → Option ℤ → ℕ → Result (List (ℤ × A))
  unfolding walk up_to ◌-ℤ◌ ◌*ℤ◌ sort_by
  get_candles fetch interval now start_time limit =
      let anchor = anchor_of now (given start_time) in
      do
        w ← walk fetch interval anchor max_pages (anchor -ℤ pos limit *ℤ interval) begin
        ok (last_n limit (up_to (given start_time) (sort_by (λ (c : ℤ × A). c.0) w.all_candles)))
