-- ===== src/Deltas/Gaps.antt =====
-- Deltas that follow one another (src/exchanges/bybit/adapter.py, src/exchanges/okx/adapter.py).
use exchange_router_service.Prelude.{
  ◌↔◌, ℕ, ◌+◌, ◌≡◌, refl, true, false, Option, none, some, List, [], ◌∷◌, Option-cases, inl, inr,
  ◌⊎◌, arith,
}
use exchange_router_service.Deltas.{Delta, bybit_gap, okx_gap}

-- No delta is missing: one that is no snapshot follows the delta before it.
abbrev pub Gapless :
    {Price Qty : Type 0}
    → (Option ℕ → Delta Price Qty → Type 0)
    → Option ℕ
    → List (Delta Price Qty)
    → Type 0
Gapless Follows last [] = Unit
Gapless Follows last (d ∷ ds) = ((d.is_snapshot ≡ true) ⊎ Follows last d) × Gapless Follows d.id ds

-- the number is one more than the last, where both are there
abbrev pub BybitFollows : {Price Qty : Type 0} → Option ℕ → Delta Price Qty → Type 0
BybitFollows last d = (l u : ℕ) → last ≡ some l → d.id ≡ some u → u ≡ l + 1

-- the predecessor that the delta names is the last, where both are there
abbrev pub OkxFollows : {Price Qty : Type 0} → Option ℕ → Delta Price Qty → Type 0
OkxFollows last d = (l p : ℕ) → last ≡ some l → d.prev ≡ some p → p ≡ l

pub bybit_gap_iff :
    {Price Qty : Type 0} (last : Option ℕ) (d : Delta Price Qty)
    → (bybit_gap last d ≡ false) ↔ BybitFollows last d
unfolding bybit_gap
bybit_gap_iff none d = (λ h l u e i. cc, λ h. refl)
bybit_gap_iff (some l) d = elim (Option-cases d.id) [
  | inl none_there ↦ (λ h l' u e i. cc, λ h. ground arith)
  | inr (u, i) ↦ (λ h l' u' e j. ground arith, λ h. ground (arith, h l u refl i))
]

pub okx_gap_iff :
    {Price Qty : Type 0} (last : Option ℕ) (d : Delta Price Qty)
    → (okx_gap last d ≡ false) ↔ OkxFollows last d
unfolding okx_gap
okx_gap_iff none d = (λ h l p e i. cc, λ h. refl)
okx_gap_iff (some l) d = elim (Option-cases d.prev) [
  | inl none_there ↦ (λ h l' p e i. cc, λ h. ground arith)
  | inr (p, i) ↦ (λ h l' p' e j. ground arith, λ h. ground (arith, h l p refl i))
]
