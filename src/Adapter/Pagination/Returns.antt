-- ===== src/Adapter/Pagination/Returns.antt =====
-- When `_paginate_backwards` (src/exchanges/base.py) returns a list.
use exchange_router_service.Prelude.{
  ℕ, zero, suc, ◌≤◌, ◌≡◌, refl, String, true, Option, List, [], ◌∷◌, ◌++◌, length, inl, inr,
  Bool-cases, ltb, last_n,
}
use exchange_router_service.Prelude.Int.{ℤ}
use exchange_router_service.Prelude.Sort.{sort_by, Sorted}
use exchange_router_service.Errors.{Error, Result, ok, raise}
use exchange_router_service.Adapter.Pagination.{
  State, start, max_requests, fresh, turn, answer, loop, no_progress, take_page, move_end,
  stops_early, gathered, paginate_backwards,
}
use exchange_router_service.Adapter.Pagination.Pages.{nil-or-cons, occurrences}
use exchange_router_service.Adapter.Pagination.Window.{paginate_shape}

module _ {ℓ} {A : Type ℓ} (timestamp : A → ℤ) (dump : A → String) where
  abbrev Returns : (State A → Result (State A)) → Type ℓ
  Returns again = (s : State A) → (s' : State A) × (again s ≡ ok s')

  turn_total :
      (again : State A → Result (State A))
      → Returns again
      → (s : State A) (batch : List A)
      → (s' : State A) × (turn timestamp dump again s batch ≡ ok s')
  unfolding turn
  turn_total again total s [] = (s, refl)
  turn_total again total s (x ∷ xs) = elim (nil-or-cons (fresh timestamp dump (x ∷ xs) s.seen).0) [
    | inl nothing ↦ (record s { fetched = s.fetched ++ x ∷ xs }, rw (nothing, turn))
    | inr (n, ns, e) ↦ elim (Bool-cases (no_progress (timestamp x) s.current_end)) [
      | inl stop ↦ (
        take_page (x ∷ xs) (n ∷ ns) (fresh timestamp dump (x ∷ xs) s.seen).1 s,
        rw (e, turn) (rw stop),
      )
      | inr on ↦
          let page = take_page (x ∷ xs) (n ∷ ns) (fresh timestamp dump (x ∷ xs) s.seen).1 s in
          let (s', ran) = total (move_end (timestamp x) page) in (s', rw (e, turn) (rw on ran))
    ]
  ]

  module _ (fetch : ℕ → Option ℤ → ℕ → Result (List A)) (total_limit limit_per_req : ℕ) where
    answer_total :
        (again : State A → Result (State A))
        → Returns again
        → (s : State A) (r : Result (List A)) → ((e : Error) → r ≡ raise e → stops_early e ≡ true)
        → (s' : State A) × (answer timestamp dump again s r ≡ ok s')
    unfolding answer
    answer_total again total s (raise e) caught = (s, rw (caught e refl))
    answer_total again total s (ok batch) caught =
        turn_total again total s (sort_by timestamp batch)

    loop_total :
        (left : ℕ)
        → ((n : ℕ) (end : Option ℤ) (e : Error)
            → fetch n end limit_per_req ≡ raise e
            → stops_early e ≡ true)
        → Returns (loop timestamp dump fetch total_limit limit_per_req left)
    unfolding loop
    loop_total zero caught s = (s, refl)
    loop_total (suc left) caught s = elim (Bool-cases (ltb s.collected total_limit)) [
      | inl more ↦
          let (s', ran) =
            answer_total (loop timestamp dump fetch total_limit limit_per_req left)
              (loop_total left caught) s (fetch s.req_count s.current_end limit_per_req)
              (caught s.req_count s.current_end) in
          (s', rw (more, loop) ran)
      | inr done ↦ (s, rw (done, loop))
    ]

    -- Where the requests fail with nothing but HTTP status errors and `ValueError`, a list is
    -- returned whatever the pages hold: what has been gathered, in the order of time, at most
    -- `total_limit` long, and without an item twice.
    pub paginate_returns :
        ((n : ℕ) (end : Option ℤ) (e : Error)
          → fetch n end limit_per_req ≡ raise e
          → stops_early e ≡ true)
        → (out : List A) × (paginate_backwards timestamp dump fetch total_limit limit_per_req
            ≡ ok out)
          × Sorted timestamp out
          × (length out ≤ total_limit)
          × ((k : String) → occurrences timestamp dump k out ≤ 1)
    unfolding paginate_backwards
    paginate_returns caught =
        let (s, ran) = loop_total max_requests caught start in
        let e : paginate_backwards timestamp dump fetch total_limit limit_per_req
            ≡ ok (last_n total_limit (gathered timestamp dump s)) =
          rw (ran, paginate_backwards) in
        let (sorted, short, once) =
          paginate_shape timestamp dump fetch total_limit limit_per_req e in
        (last_n total_limit (gathered timestamp dump s), e, sorted, short, once)
