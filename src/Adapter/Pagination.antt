-- ===== src/Adapter/Pagination.antt =====
-- src/exchanges/base.py: `_paginate_backwards`, which walks a series from its newest page back in
-- time. The upstream is `fetch`: the answer to the n-th request, for an end and a page size. An item
-- is known by its timestamp and by its dump (`model_dump_json()`).
pub mod Pages
pub mod Window
pub mod Requests
pub mod Returns
use exchange_router_service.Prelude.{
  ℕ, zero, suc, ◌+◌, String, Bool, true, false, ◌||◌, Option, none, some, List, [], ◌∷◌, ◌++◌,
  length, last_n, ltb, str_eq, if◌then◌else◌,
}
use exchange_router_service.Prelude.Int.{ℤ, pos, leb_ℤ}
use exchange_router_service.Prelude.Sort.{sort_by}
use exchange_router_service.Errors.{
  Error, http_status_error, Result, ok, raise, is_value_error, ◌>>=◌,
}
use mathlib.Core.List.{flatten, reverse}

abbrev pub max_requests : ℕ
max_requests = 100

-- `except (httpx.HTTPStatusError, ValueError)`
unfoldable pub stops_early : Error → Bool
unfolding is_value_error
stops_early http_status_error = true
stops_early e = is_value_error e

unfoldable pub seen_before : String → List String → Bool
seen_before k [] = false
seen_before k (s ∷ seen) = if str_eq s k then true else seen_before k seen

-- The loop variables. The last two are records of the run: the items of all pages, and the ends
-- that were asked for, the last one first.
pub record State {ℓ} (A : Type ℓ) : Type ℓ where
  pub chunks : List (List A)
  pub seen : List String
  pub collected : ℕ
  pub current_end : Option ℤ
  pub req_count : ℕ
  pub fetched : List A
  pub asked : List ℤ

abbrev pub start {ℓ} : {A : Type ℓ} → State A
start = record {
  chunks = [];
  seen = [];
  collected = 0;
  current_end = none;
  req_count = 0;
  fetched = [];
  asked = [];
}

-- `next_end <= 0 or (current_end is not None and next_end >= current_end)`
unfoldable pub no_progress : ℤ → Option ℤ → Bool
no_progress next_end none = leb_ℤ next_end (pos 0)
no_progress next_end (some current_end) = leb_ℤ next_end (pos 0) || leb_ℤ current_end next_end

module _ {ℓ} {A : Type ℓ} where
  -- the state after a page that brought something new
  unfoldable pub take_page : List A → List A → List String → State A → State A
  take_page batch new_items seen s = record s {
    chunks = s.chunks ++ new_items ∷ [];
    seen = seen;
    collected = s.collected + length new_items;
    req_count = s.req_count + 1;
    fetched = s.fetched ++ batch;
  }

  abbrev pub move_end : ℤ → State A → State A
  move_end next_end s = record s { current_end = some next_end; asked = next_end ∷ s.asked }

module _ {ℓ} {A : Type ℓ} (timestamp : A → ℤ) (dump : A → String) where
  -- `new_items` and `seen` after the loop over a batch
  unfoldable pub fresh : List A → List String → List A × List String
  unfolding seen_before
  fresh [] seen = ([], seen)
  fresh (x ∷ xs) seen =
      let old = seen_before (dump x) seen in
      let (items, seen') = fresh xs (if old then seen else dump x ∷ seen) in
      (if old then items else x ∷ items, seen')

  -- the rest of a round, on the sorted batch; `again` is the next round
  unfoldable pub turn : (State A → Result (State A)) → State A → List A → Result (State A)
  unfolding fresh take_page no_progress
  turn again s [] = ok s
  turn again s (x ∷ xs) =
      let batch = x ∷ xs in
      let (new_items, seen) = fresh batch s.seen in
      elim new_items [
        | [] ↦ ok (record s { fetched = s.fetched ++ batch })
        | n ∷ ns ↦
            let s' = take_page batch (n ∷ ns) seen s in
            elim (no_progress (timestamp x) s.current_end) [
              | true ↦ ok s'
              | false ↦ again (move_end (timestamp x) s')
            ]
      ]

  -- the answer of the upstream, or its error
  unfoldable pub answer :
      (State A → Result (State A)) → State A → Result (List A) → Result (State A)
  unfolding turn stops_early
  answer again s (raise e) = if stops_early e then ok s else raise e
  answer again s (ok batch) = turn again s (sort_by timestamp batch)

  -- `chunks.reverse()`, the flattening and the final sort
  unfoldable pub gathered : State A → List A
  gathered s = sort_by timestamp (flatten (reverse s.chunks))

  module _ (fetch : ℕ → Option ℤ → ℕ → Result (List A)) (total_limit limit_per_req : ℕ) where
    -- the `while` loop, with the number of requests that are left
    unfoldable pub loop : ℕ → State A → Result (State A)
    unfolding answer
    loop zero s = ok s
    loop (suc left) s = elim (ltb s.collected total_limit) [
      | true ↦ answer (loop left) s (fetch s.req_count s.current_end limit_per_req)
      | false ↦ ok s
    ]

    unfoldable pub paginate_backwards : Result (List A)
    unfolding loop gathered
    paginate_backwards = do s ← loop max_requests start; ok (last_n total_limit (gathered s))
