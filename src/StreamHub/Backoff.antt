-- ===== src/StreamHub/Backoff.antt =====
-- The waits before the reconnections of `StreamHub._run` (src/exchanges/base.py).
use exchange_router_service.Prelude.{
  ℕ, zero, suc, ◌+◌, ◌^◌, ◌≤◌, min, ◌≡◌, refl, ap, Bool, true, false, List, [], ◌∷◌, arith, All,
}
use exchange_router_service.StreamHub.{next_delay, waits}
use native.Mathlib.Numerals.{towards_suc}

-- Every wait lies between 1 and 30 seconds, whatever the connections did.
pub waits_bounds :
    (delay : ℕ) (sessions : List Bool)
    → 1 ≤ delay
    → delay ≤ 30
    → All (λ d. (1 ≤ d) × (d ≤ 30)) (waits delay sessions)
unfolding waits
waits_bounds delay [] lo hi = tt
waits_bounds delay (true ∷ sessions) lo hi =
    ((omega arith, omega arith), waits_bounds (next_delay 1) sessions (omega arith) (omega arith))
waits_bounds delay (false ∷ sessions) lo hi =
    ((lo, hi), waits_bounds (next_delay delay) sessions (omega arith) (omega arith))

abbrev pub silent : ℕ → List Bool
silent zero = []
silent (suc n) = false ∷ silent n

-- the waits from exponent `i` on
abbrev pub doubling : ℕ → ℕ → List ℕ
doubling i zero = []
doubling i (suc n) = min (2 ^ i) 30 ∷ doubling (i + 1) n

next_delay-pow : (i : ℕ) → next_delay (min (2 ^ i) 30) ≡ min (2 ^ (i + 1)) 30
unfolding next_delay
next_delay-pow i = simp towards_suc (omega arith)

waits-silent : (i n : ℕ) → waits (min (2 ^ i) 30) (silent n) ≡ doubling i n
unfolding waits
waits-silent i zero = refl
waits-silent i (suc n) =
    ap (λ r. min (2 ^ i) 30 ∷ r) (rw (next_delay-pow i) (waits-silent (i + 1) n))

-- After a connection that brought a message the wait is 1 second, and each silent connection that
-- follows doubles it, up to 30 seconds: the waits are min(2^k, 30), whatever the delay was before.
waits-doubling : (delay n : ℕ) → waits delay (true ∷ silent n) ≡ 1 ∷ doubling 1 n
unfolding waits next_delay
waits-doubling delay n = ap (λ r. 1 ∷ r) (waits-silent 1 n)
