-- ===== src/Adapter/Pagination/Pages.antt =====
-- What the rounds of `_paginate_backwards` (src/exchanges/base.py) gather, page by page.
use mathlib.Core.List.{flatten, append_assoc, append-nil}
use exchange_router_service.Prelude.{
  ℕ, zero, suc, ◌+◌, min, ◌≡◌, refl, ◌∙◌, ap, sym, ◌⊎◌, subst, String, false, ◌||◌, Option, List,
  [], ◌∷◌, ◌++◌, arith, length, length-append, ltb, str_eq, str_eq_iff, if◌then◌else◌, inl, inr,
  Bool-cases,
}
use exchange_router_service.Prelude.Int.{ℤ}
use exchange_router_service.Prelude.Sort.{sort_by}
use exchange_router_service.Errors.{Result, ok, raise, ok-injective}
use exchange_router_service.Adapter.Pagination.{
  State, start, seen_before, fresh, take_page, turn, answer, loop, no_progress, stops_early,
  move_end,
}

pub flatten_snoc {ℓ} :
    {A : Type ℓ} (xs : List (List A)) (x : List A) → flatten (xs ++ x ∷ []) ≡ flatten xs ++ x
unfolding flatten
flatten_snoc [] x = append-nil x
flatten_snoc (y ∷ ys) x = ap (λ r. y ++ r) (flatten_snoc ys x) ∙ sym (append_assoc y (flatten ys) x)

pub nil-or-cons {ℓ} :
    {A : Type ℓ} (l : List A) → (l ≡ []) ⊎ ((x : A) × (xs : List A) × (l ≡ x ∷ xs))
nil-or-cons [] = inl refl
nil-or-cons (x ∷ xs) = inr (x, xs, refl)

module _ {ℓ} {A : Type ℓ} (timestamp : A → ℤ) (dump : A → String) where
  -- how many items have the dump `k`
  abbrev pub occurrences : String → List A → ℕ
  occurrences k [] = 0
  occurrences k (x ∷ xs) = (if str_eq (dump x) k then 1 else 0) + occurrences k xs

  pub occurrences-append :
      (k : String) (xs ys : List A) → occurrences k (xs ++ ys) ≡ occurrences k xs + occurrences k ys
  occurrences-append k [] ys = omega arith
  occurrences-append k (x ∷ xs) ys = omega (arith, occurrences-append k xs ys)

  fresh_lem :
      (xs : List A) (seen : List String) (k : String)
      → (occurrences k (fresh timestamp dump xs seen).0
          ≡ (if seen_before k seen then 0 else min 1 (occurrences k xs)))
        × (seen_before k (fresh timestamp dump xs seen).1
            ≡ (seen_before k seen || ltb 0 (occurrences k xs)))
  unfolding fresh seen_before
  fresh_lem [] seen k = ground arith
  fresh_lem (x ∷ xs) seen k =
      ground (arith, fresh_lem xs seen k, fresh_lem xs (dump x ∷ seen) k, str_eq_iff (dump x) k)

  -- The state after any number of rounds: what has been fetched stands in the chunks, each dump
  -- once, and is marked as seen.
  pub record IsSound (s : State A) : Type ℓ where
    pub total : s.collected ≡ length (flatten s.chunks)
    pub once : (k : String) → occurrences k (flatten s.chunks) ≡ min 1 (occurrences k s.fetched)
    pub marked : (k : String) → seen_before k s.seen ≡ ltb 0 (occurrences k s.fetched)

  pub IsSound-start : IsSound start
  unfolding flatten seen_before
  IsSound-start = record { total = refl; once = λ k. refl; marked = λ k. refl }

  -- A page with something new.
  take_page-IsSound :
      (batch : List A) {s : State A}
      → IsSound s
      → IsSound (
          take_page batch
            (fresh timestamp dump batch s.seen).0
            (fresh timestamp dump batch s.seen).1
            s)
  unfolding take_page
  take_page-IsSound batch {s} v =
      let items = (fresh timestamp dump batch s.seen).0 in
      record {
        total =
            rw (flatten_snoc s.chunks items)
              (omega (arith, length-append (flatten s.chunks) items, v.total));
        once = λ k. rw (flatten_snoc s.chunks items) (
            ground (
              arith,
              occurrences-append k (flatten s.chunks) items,
              occurrences-append k s.fetched batch,
              fresh_lem batch s.seen k,
              v.once k,
              v.marked k,
            ));
        marked = λ k.
            ground
              (arith, occurrences-append k s.fetched batch, fresh_lem batch s.seen k, v.marked k);
      }

  -- A page with nothing new ends the loop; it is recorded as fetched.
  old_page-IsSound :
      (batch : List A) {s : State A}
      → IsSound s
      → (fresh timestamp dump batch s.seen).0 ≡ []
      → IsSound (record s { fetched = s.fetched ++ batch })
  old_page-IsSound batch {s} v nothing =
      let none_new : (k : String) → occurrences k (fresh timestamp dump batch s.seen).0 ≡ 0 =
        λ k. rw nothing in
      record {
        total = v.total;
        once = λ k. ground (
          arith,
          occurrences-append k s.fetched batch,
          fresh_lem batch s.seen k,
          none_new k,
          v.once k,
          v.marked k,
        );
        marked = λ k. ground (
          arith,
          occurrences-append k s.fetched batch,
          fresh_lem batch s.seen k,
          none_new k,
          v.marked k,
        );
      }

  move_end-IsSound : (e : ℤ) {s : State A} → IsSound s → IsSound (move_end e s)
  move_end-IsSound e v = record { total = v.total; once = v.once; marked = v.marked }

  -- What a round has to keep, for `P` to hold where the loop returns.
  pub record Keeps (P : State A → Type ℓ) : Type ℓ where
    pub page :
        (batch : List A) (s : State A)
        → P s
        → P (
            take_page batch
              (fresh timestamp dump batch s.seen).0
              (fresh timestamp dump batch s.seen).1
              s)
    pub old :
        (batch : List A) (s : State A)
        → P s
        → (fresh timestamp dump batch s.seen).0 ≡ []
        → P (record s { fetched = s.fetched ++ batch })
    pub move : (e : ℤ) (s : State A) → P s → no_progress e s.current_end ≡ false → P (move_end e s)

  pub IsSound-Keeps : Keeps IsSound
  IsSound-Keeps = record {
    page = λ batch s v. take_page-IsSound batch v;
    old = λ batch s v. old_page-IsSound batch v;
    move = λ e s v _. move_end-IsSound e v;
  }

  module _ (P : State A → Type ℓ) (keeps : Keeps P) where
    turn_rule :
        (again : State A → Result (State A))
        → ((s s' : State A) → P s → again s ≡ ok s' → P s')
        → (s s' : State A) (batch : List A) → P s
        → turn timestamp dump again s batch ≡ ok s'
        → P s'
    unfolding turn
    turn_rule again ih s s' [] v h = subst P (ok-injective h) v
    turn_rule again ih s s' (x ∷ xs) v h =
        elim (nil-or-cons (fresh timestamp dump (x ∷ xs) s.seen).0) [
          | inl nothing ↦
              let h' : ok (record s { fetched = s.fetched ++ x ∷ xs }) ≡ ok s' =
                rw (nothing, turn) at h in
              subst P (ok-injective h') (keeps.old (x ∷ xs) s v nothing)
          | inr (n, ns, e) ↦
              let page = take_page (x ∷ xs) (n ∷ ns) (fresh timestamp dump (x ∷ xs) s.seen).1 s in
              let kept : P page = rw e at (keeps.page (x ∷ xs) s v) in
              elim (Bool-cases (no_progress (timestamp x) s.current_end)) [
                | inl stop ↦
                    let h' : ok page ≡ ok s' = rw (e, turn, stop) at h in
                    subst P (ok-injective h') kept
                | inr on ↦
                    let h' : again (move_end (timestamp x) page) ≡ ok s' = rw (e, turn, on) at h in
                    ih (move_end (timestamp x) page) s' (keeps.move (timestamp x) page kept on) h'
              ]
        ]

    answer_rule :
        (again : State A → Result (State A))
        → ((s s' : State A) → P s → again s ≡ ok s' → P s')
        → (s s' : State A) (r : Result (List A)) → P s
        → answer timestamp dump again s r ≡ ok s'
        → P s'
    unfolding answer
    answer_rule again ih s s' (ok batch) v h = turn_rule again ih s s' (sort_by timestamp batch) v h
    answer_rule again ih s s' (raise e) v h = elim (Bool-cases (stops_early e)) [
      | inl stop ↦ let h' : ok s ≡ ok s' = rw (stop, answer) at h in subst P (ok-injective h') v
      | inr on ↦ let h' : raise e ≡ ok s' = rw (on, answer) at h in cc
    ]

    module _ (fetch : ℕ → Option ℤ → ℕ → Result (List A)) (total_limit limit_per_req : ℕ) where
      -- What every round keeps holds where the loop returns.
      pub loop_rule :
          (left : ℕ) (s s' : State A)
          → P s
          → loop timestamp dump fetch total_limit limit_per_req left s ≡ ok s'
          → P s'
      unfolding loop
      loop_rule zero s s' v h = subst P (ok-injective h) v
      loop_rule (suc left) s s' v h = elim (Bool-cases (ltb s.collected total_limit)) [
        | inl more ↦ answer_rule _ (loop_rule left) s s' _ v (rw (more, loop) at h)
        | inr done ↦ let h' : ok s ≡ ok s' = rw (done, loop) at h in subst P (ok-injective h') v
      ]
