-- ===== src/Adapter/Pagination/Requests.antt =====
-- The requests of `_paginate_backwards` (src/exchanges/base.py): how many, and for which ends.
use exchange_router_service.Prelude.{
  ℕ, zero, suc, ◌+◌, ◌<◌, ◌≡◌, refl, ap, String, false, Option, none, some, List, [], ◌∷◌, arith,
  inl, inr, Bool-cases, last_n, ltb,
}
use exchange_router_service.Prelude.Int.{ℤ, pos, ◌<ℤ◌}
use exchange_router_service.Prelude.Sort.{sort_by}
use exchange_router_service.Errors.{Result, ok, raise, ◌>>=◌}
use exchange_router_service.Adapter.Pagination.{
  State, start, max_requests, fresh, take_page, turn, answer, loop, no_progress, gathered,
  paginate_backwards,
}
use exchange_router_service.Adapter.Pagination.Pages.{Keeps, loop_rule, nil-or-cons}

-- The ends that were asked for, the last one first: each is positive and before the one asked
-- before it.
abbrev pub Descends : List ℤ → Type 0
Descends [] = Unit
Descends (e ∷ []) = pos 0 <ℤ e
Descends (e ∷ f ∷ es) = (pos 0 <ℤ e) × (e <ℤ f) × Descends (f ∷ es)

abbrev pub last_asked : List ℤ → Option ℤ
last_asked [] = none
last_asked (e ∷ es) = some e

module _ {A : Type 0} (timestamp : A → ℤ) (dump : A → String) where
  record IsPaced (s : State A) : Type 0 where
    now : s.current_end ≡ last_asked s.asked
    descends : Descends s.asked

  descend :
      (e : ℤ) (es : List ℤ)
      → no_progress e (last_asked es) ≡ false
      → Descends es
      → Descends (e ∷ es)
  unfolding no_progress
  descend e [] h d = ground arith
  descend e (f ∷ es) h d = ground arith

  IsPaced-Keeps : Keeps timestamp dump IsPaced
  unfolding take_page
  IsPaced-Keeps = record {
    page = λ batch s v. record { now = v.now; descends = v.descends };
    old = λ batch s v _. record { now = v.now; descends = v.descends };
    move = λ e s v on. record {
      now = refl;
      descends = descend e s.asked (rw (← v.now) on) v.descends;
    };
  }

  -- Page by page the loop asks for an earlier and positive end: it never asks for a page again.
  asked-Descends :
      (fetch : ℕ → Option ℤ → ℕ → Result (List A)) (total_limit limit_per_req : ℕ) {s : State A}
      → loop timestamp dump fetch total_limit limit_per_req max_requests start ≡ ok s
      → Descends s.asked
  asked-Descends fetch total_limit limit_per_req {s} h =
      (loop_rule timestamp dump IsPaced IsPaced-Keeps fetch total_limit limit_per_req max_requests
        start s (record { now = refl; descends = tt }) h).descends

  turn_cong :
      (again again' : State A → Result (State A)) (s : State A) (batch : List A)
      → ((t : State A) → t.req_count ≡ s.req_count + 1 → again t ≡ again' t)
      → turn timestamp dump again s batch ≡ turn timestamp dump again' s batch
  unfolding turn take_page
  turn_cong again again' s [] same = refl
  turn_cong again again' s (x ∷ xs) same =
      elim (nil-or-cons (fresh timestamp dump (x ∷ xs) s.seen).0) [
        | inl nothing ↦ rw (nothing, turn)
        | inr (n, ns, e) ↦ elim (Bool-cases (no_progress (timestamp x) s.current_end)) [
          | inl stop ↦ rw (e, turn) (rw stop)
          | inr on ↦ rw (e, turn) (rw on (same _ refl))
        ]
      ]

  answer_cong :
      (again again' : State A → Result (State A)) (s : State A) (r : Result (List A))
      → ((t : State A) → t.req_count ≡ s.req_count + 1 → again t ≡ again' t)
      → answer timestamp dump again s r ≡ answer timestamp dump again' s r
  unfolding answer
  answer_cong again again' s (raise e) same = refl
  answer_cong again again' s (ok batch) same =
      turn_cong again again' s (sort_by timestamp batch) same

  module _ (fetch fetch' : ℕ → Option ℤ → ℕ → Result (List A)) (total_limit limit_per_req : ℕ) where
    loop_cong :
        (left : ℕ) (s : State A)
        → ((n : ℕ) (e : Option ℤ)
            → n < s.req_count + left
            → fetch n e limit_per_req ≡ fetch' n e limit_per_req)
        → loop timestamp dump fetch total_limit limit_per_req left s
          ≡ loop timestamp dump fetch' total_limit limit_per_req left s
    unfolding loop
    loop_cong zero s same = refl
    loop_cong (suc left) s same = elim (Bool-cases (ltb s.collected total_limit)) [
      | inl more ↦
          rw (more, loop)
            (rw (same s.req_count s.current_end (omega arith))
              (answer_cong _ _ s _ (λ t e. loop_cong left t (λ n f l. same n f (omega arith)))))
      | inr done ↦ rw (done, loop)
    ]

    -- At most 100 requests are made: what the upstream would answer to any later one has no effect.
    paginate_requests :
        ((n : ℕ) (e : Option ℤ) → n < 100 → fetch n e limit_per_req ≡ fetch' n e limit_per_req)
        → paginate_backwards timestamp dump fetch total_limit limit_per_req
          ≡ paginate_backwards timestamp dump fetch' total_limit limit_per_req
    unfolding paginate_backwards
    paginate_requests same =
        ap (λ r. r >>= λ s. ok (last_n total_limit (gathered timestamp dump s)))
          (loop_cong max_requests start (λ n e l. same n e (omega arith)))
