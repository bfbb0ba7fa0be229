-- ===== src/Prelude/Newest.antt =====
-- The newest items of a list that is in the order of time: `sorted(...)[-limit:]`.
use Prim.Native.Nat.{ℕ, zero, suc, ◌+◌, ◌-◌, ◌≤◌, ◌<◌}
use mathlib.Core.Path.{◌≡◌, refl, ap, sym, ◌∙◌, subst}
use mathlib.Core.Logic.{◌⊎◌, inl, inr}
use mathlib.Core.List.{List, [], ◌∷◌, ◌++◌}
use native.Mathlib.Omega.{arith}
use exchange_router_service.Prelude.Tests.{if◌then◌else◌, nat_eq, Bool-cases}
use exchange_router_service.Prelude.Lists.{
  length, take, drop, take-append-drop, last_n, length-last_n, All, All-drop,
}
use exchange_router_service.Prelude.Int.{ℤ, ◌≤ℤ◌, ◌<ℤ◌, eqb_ℤ, eqb_ℤ_iff}
use exchange_router_service.Prelude.Sort.{sort_by, insert_by, Sorted}

module _ {ℓ} {A : Type ℓ} (key : A → ℤ) where
  -- how many items are of a time
  abbrev pub count_at : ℤ → List A → ℕ
  count_at t [] = 0
  count_at t (x ∷ xs) = (if eqb_ℤ (key x) t then 1 else 0) + count_at t xs

  pub count_at-append :
      (t : ℤ) (xs ys : List A) → count_at t (xs ++ ys) ≡ count_at t xs + count_at t ys
  count_at-append t [] ys = omega arith
  count_at-append t (x ∷ xs) ys = omega (arith, count_at-append t xs ys)

  count_at-insert_by :
      (t : ℤ) (x : A) (xs : List A) → count_at t (insert_by key x xs) ≡ count_at t (x ∷ xs)
  unfolding insert_by
  count_at-insert_by t x [] = refl
  count_at-insert_by t x (y ∷ xs) = ground (arith, count_at-insert_by t x xs)

  pub count_at-sort_by : (t : ℤ) (xs : List A) → count_at t (sort_by key xs) ≡ count_at t xs
  unfolding sort_by
  count_at-sort_by t [] = refl
  count_at-sort_by t (x ∷ xs) =
      ground (arith, count_at-insert_by t x (sort_by key xs), count_at-sort_by t xs)

  count_at-parts :
      (t : ℤ) (k : ℕ) (xs : List A)
      → count_at t xs ≡ count_at t (take k xs) + count_at t (drop k xs)
  count_at-parts t k xs =
      ap (count_at t) (sym (take-append-drop k xs)) ∙ count_at-append t (take k xs) (drop k xs)

  pub count_at-last_n : (t : ℤ) (n : ℕ) (xs : List A) → count_at t (last_n n xs) ≤ count_at t xs
  count_at-last_n t n xs = omega (arith, count_at-parts t (length xs - n) xs)

  -- what stands behind an item of a time is not earlier
  not_later :
      (t : ℤ) (k : ℕ) (xs : List A)
      → Sorted key xs
      → 0 < count_at t (take k xs)
      → All (λ x. t ≤ℤ key x) (drop k xs)
  not_later t zero xs h before = absurd (omega arith)
  not_later t (suc k) [] h before = tt
  not_later t (suc k) (x ∷ xs) h before = elim (Bool-cases (eqb_ℤ (key x) t)) [
    | inl same ↦
        All-drop (λ y. t ≤ℤ key y) k xs
          (subst (λ s. All (λ y. s ≤ℤ key y) xs) ((eqb_ℤ_iff (key x) t).0 same) h.0)
    | inr other ↦ not_later t k xs h.1 (ground arith)
  ]

  later_than :
      (t : ℤ) (xs : List A)
      → count_at t xs ≡ 0
      → All (λ x. t ≤ℤ key x) xs
      → All (λ x. t <ℤ key x) xs
  later_than t [] h ge = tt
  later_than t (x ∷ xs) h ge =
      (ground (arith, eqb_ℤ_iff (key x) t, ge.0), later_than t xs (ground arith) ge.1)

  front_positive : (t : ℤ) (k : ℕ) (xs : List A) → 0 < count_at t (take k xs) → 0 < k
  front_positive t zero xs h = h
  front_positive t (suc k) xs h = omega arith

  -- An item whose time is like no other is among the newest, unless the limit is reached with later
  -- ones.
  pub newest_complete :
      (t : ℤ) (limit : ℕ) (xs : List A)
      → Sorted key xs
      → count_at t xs ≡ 1
      → (count_at t (last_n limit xs) ≡ 1)
        ⊎ ((length (last_n limit xs) ≡ limit) × All (λ x. t <ℤ key x) (last_n limit xs))
  newest_complete t limit xs sorted one =
      let k = length xs - limit in
      elim (Bool-cases (nat_eq (count_at t (drop k xs)) 0)) [
        | inl gone ↦
            let none_left : count_at t (drop k xs) ≡ 0 = ground arith in
            let before : 0 < count_at t (take k xs) = omega (arith, count_at-parts t k xs) in
            inr (
              omega (arith, length-last_n limit xs, front_positive t k xs before),
              later_than t (drop k xs) none_left (not_later t k xs sorted before),
            )
        | inr stays ↦ inl (ground (arith, count_at-parts t k xs))
      ]
