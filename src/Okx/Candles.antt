-- ===== src/Okx/Candles.antt =====
-- src/exchanges/okx/adapter.py: `get_candles`, which joins the recent candles with the pages of the
-- older ones. A candle is known by its timestamp and by its dump; `recent` and `history` give the rows
-- of an answer that can be parsed, `history` those of its n-th request.
pub mod Joined
pub mod Shape
use exchange_router_service.Prelude.{
  ℕ, ◌-◌, min, Bool, true, false, ◌&&◌, String, Option, none, some, List, [], ◌∷◌, ◌++◌, length,
  last_n, leb, if◌then◌else◌,
}
use exchange_router_service.Prelude.Int.{ℤ, pos, ◌+ℤ◌, ◌-ℤ◌, eqb_ℤ, int_has_eq}
use exchange_router_service.Prelude.Dict.{Dict, put, values}
use exchange_router_service.Prelude.Sort.{sort_by}
use exchange_router_service.Errors.{Result, ok, raise, map_result, ◌>>=◌}
use exchange_router_service.Adapter.Pagination.{paginate_backwards}

-- `per_req`, and the most of a page of the history
abbrev pub per_req : ℕ
per_req = 300

abbrev pub per_page : ℕ
per_page = 100

-- `end_ts if end_ts is not None else start_time`
abbrev pub or_given : Option ℤ → Option ℤ → Option ℤ
or_given none given = given
or_given (some end_ts) given = some end_ts

-- `if anchor: p["after"] = str(anchor + 1)`
unfoldable pub after : Option ℤ → Option ℤ
unfolding ◌+ℤ◌
after none = none
after (some anchor) = if eqb_ℤ anchor (pos 0) then none else some (anchor +ℤ pos 1)

-- whether one request is enough: `start_time is None and limit <= per_req`
abbrev pub is_short : Option ℤ → ℕ → Bool
is_short none limit = leb limit per_req
is_short (some start) limit = false

module _ {A : Type 0} (timestamp : A → ℤ) where
  -- `{c.timestamp: c for c in candles}`, into a dictionary
  unfoldable pub by_time : List A → Dict ℤ A → Dict ℤ A
  by_time [] d = d
  by_time (c ∷ cs) d = by_time cs (put (timestamp c) c d)

  -- the end of `get_candles`
  unfoldable pub combined : ℕ → List A → List A → List A
  unfolding by_time sort_by
  combined limit history_batch recent_batch =
      last_n limit (sort_by timestamp (values (by_time (history_batch ++ recent_batch) [])))

  module _ (dump : A → String) (recent : Option ℤ → ℕ → Result (List A))
      (history : ℕ → Option ℤ → ℕ → Result (List A)) (start_time : Option ℤ) (limit : ℕ) where
    abbrev pub fetch_recent : Option ℤ → ℕ → Result (List A)
    fetch_recent end_ts l =
        map_result (sort_by timestamp) (recent (after (or_given end_ts start_time)) (min l per_req))

    abbrev pub fetch_history : ℕ → Option ℤ → ℕ → Result (List A)
    fetch_history n end_ts l =
        map_result (sort_by timestamp)
          (history n (after (or_given end_ts start_time)) (min l per_page))

    -- from `recent_batch` on
    unfoldable pub with_history : List A → Result (List A)
    unfolding combined after sort_by paginate_backwards
    with_history [] = paginate_backwards timestamp dump fetch_history limit per_page
    with_history (c ∷ cs) =
        let older = λ (n : ℕ) (end_ts : Option ℤ) (l : ℕ).
          fetch_history n (or_given end_ts (some (timestamp c -ℤ pos 1))) l in
        let joined =
          paginate_backwards timestamp dump older (limit - length (c ∷ cs)) per_page
          >>= λ history_batch. ok (combined limit history_batch (c ∷ cs)) in
        if leb limit (length (c ∷ cs)) then ok (last_n limit (c ∷ cs)) else joined

    -- `get_candles`
    unfoldable pub get_candles : Result (List A)
    unfolding with_history after sort_by
    get_candles =
        let short = fetch_recent none limit >>= λ batch. ok (last_n limit batch) in
        let long = fetch_recent none (min limit per_req) >>= with_history in
        if is_short start_time limit then short else long
