-- ===== src/Adapter/Pagination/Window.antt =====
-- What `_paginate_backwards` (src/exchanges/base.py) returns.
use mathlib.Core.List.{flatten, reverse, reverse-cons}
use exchange_router_service.Prelude.{
  ℕ, zero, suc, ◌-◌, ◌≤◌, min, ◌≡◌, refl, sym, String, Option, List, [], ◌∷◌, arith, length,
  length-append, drop, last_n, length-last_n, inl, inr,
}
use exchange_router_service.Prelude.Int.{ℤ}
use exchange_router_service.Prelude.Sort.{sort_by, insert_by, sort_by-Sorted, Sorted, Sorted-drop}
use exchange_router_service.Errors.{Result, ok, raise, ok-injective, Result-cases}
use exchange_router_service.Adapter.Pagination.{
  State, start, max_requests, loop, gathered, paginate_backwards,
}
use exchange_router_service.Adapter.Pagination.Pages.{
  occurrences, occurrences-append, IsSound, IsSound-start, IsSound-Keeps, loop_rule, flatten_snoc,
}

module _ {ℓ} {A : Type ℓ} (timestamp : A → ℤ) (dump : A → String) where
  occurrences-insert_by :
      (k : String) (x : A) (xs : List A)
      → occurrences timestamp dump k (insert_by timestamp x xs)
        ≡ occurrences timestamp dump k (x ∷ xs)
  unfolding insert_by
  occurrences-insert_by k x [] = refl
  occurrences-insert_by k x (y ∷ ys) = ground (arith, occurrences-insert_by k x ys)

  occurrences-sort_by :
      (k : String) (xs : List A)
      → occurrences timestamp dump k (sort_by timestamp xs) ≡ occurrences timestamp dump k xs
  unfolding sort_by
  occurrences-sort_by k [] = refl
  occurrences-sort_by k (x ∷ xs) =
      ground (arith, occurrences-insert_by k x (sort_by timestamp xs), occurrences-sort_by k xs)

  occurrences-reverse :
      (k : String) (chunks : List (List A))
      → occurrences timestamp dump k (flatten (reverse chunks))
        ≡ occurrences timestamp dump k (flatten chunks)
  unfolding flatten
  occurrences-reverse k [] = refl
  occurrences-reverse k (c ∷ cs) =
      rw (reverse-cons, flatten_snoc (reverse cs) c)
        (omega (
          arith,
          occurrences-append timestamp dump k (flatten (reverse cs)) c,
          occurrences-append timestamp dump k c (flatten cs),
          occurrences-reverse k cs,
        ))

  length-flatten-reverse :
      (chunks : List (List A)) → length (flatten (reverse chunks)) ≡ length (flatten chunks)
  unfolding flatten
  length-flatten-reverse [] = refl
  length-flatten-reverse (c ∷ cs) =
      rw (reverse-cons, flatten_snoc (reverse cs) c)
        (omega (
          arith,
          length-append (flatten (reverse cs)) c,
          length-append c (flatten cs),
          length-flatten-reverse cs,
        ))

  occurrences-drop :
      (k : String) (n : ℕ) (xs : List A)
      → occurrences timestamp dump k (drop n xs) ≤ occurrences timestamp dump k xs
  occurrences-drop k zero xs = omega arith
  occurrences-drop k (suc n) [] = omega arith
  occurrences-drop k (suc n) (x ∷ xs) = omega (arith, occurrences-drop k n xs)

  module _ (fetch : ℕ → Option ℤ → ℕ → Result (List A)) (total_limit limit_per_req : ℕ) where
    -- Whenever a list is returned: every dump that any page brought stands exactly once in a list
    -- `all` that is in the order of time and holds nothing else, and the result is the newest
    -- `total_limit` items of that list.
    pub paginate_window :
        {out : List A}
        → paginate_backwards timestamp dump fetch total_limit limit_per_req ≡ ok out
        → (s : State A) × (all : List A) × (loop timestamp dump fetch total_limit limit_per_req
              max_requests start
            ≡ ok s)
          × Sorted timestamp all
          × ((k : String)
              → occurrences timestamp dump k all ≡ min 1 (occurrences timestamp dump k s.fetched))
          × (out ≡ last_n total_limit all)
    unfolding paginate_backwards gathered
    paginate_window {out} h =
        elim (Result-cases
          (loop timestamp dump fetch total_limit limit_per_req max_requests start)) [
            | inl (s, e) ↦
                let h' : ok (last_n total_limit (gathered timestamp dump s)) ≡ ok out =
                  rw (e, paginate_backwards) at h in
                let v =
                  loop_rule timestamp dump (IsSound timestamp dump) (IsSound-Keeps timestamp dump)
                    fetch total_limit limit_per_req max_requests start s
                    (IsSound-start timestamp dump) e in
                (
                  s,
                  gathered timestamp dump s,
                  e,
                  sort_by-Sorted timestamp _,
                  λ k. ground (
                    arith,
                    occurrences-sort_by k (flatten (reverse s.chunks)),
                    occurrences-reverse k s.chunks,
                    v.once k,
                  ),
                  sym (ok-injective h'),
                )
            | inr (err, e) ↦ let h' : raise err ≡ ok out = rw (e, paginate_backwards) at h in cc
          ]

    -- A list that is returned is in the order of time, at most `total_limit` long, and holds no
    -- item twice.
    pub paginate_shape :
        {out : List A}
        → paginate_backwards timestamp dump fetch total_limit limit_per_req ≡ ok out
        → Sorted timestamp out
          × (length out ≤ total_limit)
          × ((k : String) → occurrences timestamp dump k out ≤ 1)
    paginate_shape {out} h =
        let (s, all, ran, sorted, once, cut) = paginate_window h in
        rw cut (
          Sorted-drop timestamp (length all - total_limit) all sorted,
          omega (arith, length-last_n total_limit all),
          λ k. omega (arith, occurrences-drop k (length all - total_limit) all, once k),
        )
