-- ===== src/Prelude/Sort.antt =====
-- `list.sort(key=...)` for an integer key: a stable insertion sort.
use Prim.Native.Nat.{ℕ, zero, suc}
use mathlib.Core.Path.{◌≡◌, refl}
use mathlib.Core.Logic.{inl, inr}
use mathlib.Core.List.{List, [], ◌∷◌, Perm}
use mathlib.Core.List.Perm
use native.Mathlib.Omega.{arith}
use exchange_router_service.Prelude.Tests.{if◌then◌else◌, leb→le, Bool-cases}
use exchange_router_service.Prelude.Lists.{length, drop, All, All-map}
use exchange_router_service.Prelude.Int.{ℤ, ◌≤ℤ◌, leb_ℤ}

module _ {ℓ} {A : Type ℓ} (key : A → ℤ) where
  unfoldable pub insert_by : A → List A → List A
  insert_by a [] = a ∷ []
  insert_by a (x ∷ xs) = if leb_ℤ (key a) (key x) then a ∷ x ∷ xs else x ∷ insert_by a xs

  unfoldable pub sort_by : List A → List A
  sort_by [] = []
  sort_by (x ∷ xs) = insert_by x (sort_by xs)

  -- Every member is at most the members behind it.
  abbrev pub Sorted : List A → Type 0
  Sorted [] = Unit
  Sorted (x ∷ xs) = All (λ y. key x ≤ℤ key y) xs × Sorted xs

  All-insert_by {κ} :
      (P : A → Type κ) (a : A) (xs : List A) → P a → All P xs → All P (insert_by a xs)
  unfolding insert_by
  All-insert_by P a [] h hs = (h, tt)
  All-insert_by P a (x ∷ xs) h hs = elim (Bool-cases (leb_ℤ (key a) (key x))) [
    | inl e ↦ rw e (h, hs)
    | inr e ↦ rw e (hs.0, All-insert_by P a xs h hs.1)
  ]

  pub All-sort_by {κ} : (P : A → Type κ) (xs : List A) → All P xs → All P (sort_by xs)
  unfolding sort_by
  All-sort_by P [] h = tt
  All-sort_by P (x ∷ xs) h = All-insert_by P x (sort_by xs) h.0 (All-sort_by P xs h.1)

  insert_by-Sorted : (a : A) (xs : List A) → Sorted xs → Sorted (insert_by a xs)
  unfolding insert_by
  insert_by-Sorted a [] h = (tt, tt)
  insert_by-Sorted a (x ∷ xs) h = elim (Bool-cases (leb_ℤ (key a) (key x))) [
    | inl e ↦
        let below : key a ≤ℤ key x = leb→le _ _ e in
        rw e (
          (below, All-map (λ y. key x ≤ℤ key y) (λ y. key a ≤ℤ key y) (λ y q. omega arith) xs h.0),
          h,
        )
    | inr e ↦
        let above : key x ≤ℤ key a = ground arith in
        rw e (All-insert_by (λ y. key x ≤ℤ key y) a xs above h.0, insert_by-Sorted a xs h.1)
  ]

  pub sort_by-Sorted : (xs : List A) → Sorted (sort_by xs)
  unfolding sort_by
  sort_by-Sorted [] = tt
  sort_by-Sorted (x ∷ xs) = insert_by-Sorted x (sort_by xs) (sort_by-Sorted xs)

  pub Sorted-drop : (n : ℕ) (xs : List A) → Sorted xs → Sorted (drop n xs)
  Sorted-drop zero xs h = h
  Sorted-drop (suc n) [] h = tt
  Sorted-drop (suc n) (x ∷ xs) h = Sorted-drop n xs h.1

  insert_by-perm : (a : A) (xs : List A) → Perm (insert_by a xs) (a ∷ xs)
  unfolding insert_by
  insert_by-perm a [] = Perm.refl _
  insert_by-perm a (x ∷ xs) = elim (Bool-cases (leb_ℤ (key a) (key x))) [
    | inl e ↦ rw e (Perm.refl _)
    | inr e ↦ rw e (Perm.trans (Perm.cons x (insert_by-perm a xs)) (Perm.swap a x xs))
  ]

  pub sort_by-perm : (xs : List A) → Perm (sort_by xs) xs
  unfolding sort_by
  sort_by-perm [] = Perm.refl _
  sort_by-perm (x ∷ xs) = Perm.trans (insert_by-perm x (sort_by xs)) (Perm.cons x (sort_by-perm xs))

  length-insert_by : (a : A) (xs : List A) → length (insert_by a xs) ≡ suc (length xs)
  unfolding insert_by
  length-insert_by a [] = refl
  length-insert_by a (x ∷ xs) = ground (arith, length-insert_by a xs)

  pub length-sort_by : (xs : List A) → length (sort_by xs) ≡ length xs
  unfolding sort_by
  length-sort_by [] = refl
  length-sort_by (x ∷ xs) = omega (arith, length-insert_by x (sort_by xs), length-sort_by xs)
