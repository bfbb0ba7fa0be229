-- ===== src/Examples/Pages.antt =====
-- Runs of `_paginate_backwards` and `normalize_timestamp` (src/exchanges/base.py): two pages of
-- numbers that overlap, each number its own timestamp.
use mathlib.Core.List.{flatten}
use exchange_router_service.Prelude.{
  true, ℕ, ◌≤◌, min, String, ◌≡◌, refl, Option, List, [], ◌∷◌, length, last_n, arith, nat_eq,
  if◌then◌else◌,
}
use exchange_router_service.Prelude.Int.{ℤ, pos}
use exchange_router_service.Prelude.Sort.{Sorted, sort_by, insert_by}
use exchange_router_service.Errors.{Error, Result, ok, raise, value_error, is_value_error}
use exchange_router_service.Adapter.Pagination.{
  State, start, max_requests, loop, paginate_backwards, answer, turn, fresh, take_page, no_progress,
  stops_early, gathered, seen_before,
}
use exchange_router_service.Adapter.Pagination.Pages.{occurrences}
use exchange_router_service.Adapter.Pagination.Window.{paginate_window}
use exchange_router_service.Adapter.Pagination.Returns.{paginate_returns}

abbrev timestamp : ℕ → ℤ
timestamp n = pos n

abbrev dump : ℕ → String
dump n = if nat_eq n 5 then "5" else if nat_eq n 6 then "6" else if nat_eq n 7 then "7" else "8"

-- the page 7, 6 and then the page 6, 5; a third request fails
abbrev fetch : ℕ → Option ℤ → ℕ → Result (List ℕ)
fetch n e size =
    if nat_eq n 0
    then ok (7 ∷ 6 ∷ [])
    else if nat_eq n 1
    then ok (6 ∷ 5 ∷ [])
    else raise value_error

paginate_window_example :
    (s : State ℕ) × (all : List ℕ) × (loop timestamp dump fetch 10 2 max_requests start ≡ ok s)
    × Sorted timestamp all
    × ((k : String)
        → occurrences timestamp dump k all ≡ min 1 (occurrences timestamp dump k s.fetched))
    × (5 ∷ 6 ∷ 7 ∷ [] ≡ last_n 10 all)
unfolding paginate_backwards loop answer turn fresh take_page no_progress stops_early gathered
    seen_before sort_by insert_by flatten is_value_error
paginate_window_example = paginate_window timestamp dump fetch 10 2 refl

-- the requests fail with `ValueError` only
caught : (n : ℕ) (end : Option ℤ) (e : Error) → fetch n end 2 ≡ raise e → stops_early e ≡ true
unfolding stops_early is_value_error
caught n end e h = ground arith

paginate_returns_example :
    (out : List ℕ) × (paginate_backwards timestamp dump fetch 10 2 ≡ ok out)
    × Sorted timestamp out
    × (length out ≤ 10)
    × ((k : String) → occurrences timestamp dump k out ≤ 1)
paginate_returns_example = paginate_returns timestamp dump fetch 10 2 caught
