-- ===== src/Okx/Patience.antt =====
-- A caller of `_RateBucket.acquire` (src/exchanges/okx/adapter.py) that nobody disturbs gets through.
use exchange_router_service.Prelude.{
  false, ℕ, suc, ◌+◌, ◌-◌, ◌≤◌, ◌<◌, max, ◌≡◌, refl, ◌∙◌, some, List, [], ◌∷◌, ◌++◌, length, All,
  ltb, inl, inr, arith, Bool-cases, ltb→lt, lt→ltb, ap,
}
use exchange_router_service.Okx.RateWindow.{length-pop_left}
use exchange_router_service.Okx.{pop_left, sleep_of, turn, acquire, sleeps, after_turn}

module _ (most window : ℕ) (jitter : ℕ → ℕ) where
  passes_at :
      (fuel now : ℕ) (ts : List ℕ)
      → length (pop_left window now ts) < most
      → acquire most window jitter (suc fuel) now ts
        ≡ some (now, pop_left window now ts ++ now ∷ [])
  unfolding acquire turn
  passes_at fuel now ts h = rw (lt→ltb _ _ h) refl

  turn_sleeps :
      (now t j : ℕ) (ts rest : List ℕ)
      → pop_left window now ts ≡ t ∷ rest
      → most ≤ suc (length rest)
      → turn most window now j ts ≡ (sleeps (max (t + window - now) 10 + j), t ∷ rest)
  unfolding turn sleep_of
  turn_sleeps now t j ts rest e h =
      let full : ltb (suc (length rest)) most ≡ false = ground arith in rw (e, full) refl

  sleeps_at :
      (fuel now t : ℕ) (ts rest : List ℕ)
      → pop_left window now ts ≡ t ∷ rest
      → most ≤ suc (length rest)
      → acquire most window jitter (suc fuel) now ts
        ≡ acquire most window jitter fuel
            (now + (max (t + window - now) 10 + jitter fuel))
            (t ∷ rest)
  unfolding acquire
  sleeps_at fuel now t ts rest e h =
      ap (after_turn (λ later ts'. acquire most window jitter fuel later ts') now)
        (turn_sleeps now t (jitter fuel) ts rest e h)

  first_gone :
      (now t : ℕ) (rest : List ℕ)
      → t + window < now
      → length (pop_left window now (t ∷ rest)) ≤ length rest
  unfolding pop_left
  first_gone now t rest h = ground (arith, length-pop_left most window now rest)

  first_kept :
      (now t : ℕ) (rest : List ℕ) → now ≤ t + window → pop_left window now (t ∷ rest) ≡ t ∷ rest
  unfolding pop_left
  first_kept now t rest h = ground arith

  -- the second turn of a caller, and the third
  woken :
      (now t : ℕ) (rest : List ℕ)
      → t + window ≤ now
      → suc (length rest) ≤ most
      → most ≤ suc (length rest)
      → (later : ℕ) × (ts' : List ℕ) × (acquire most window jitter 2 now (t ∷ rest)
          ≡ some (later, ts'))
        × (later ≤ now + 10 + jitter 1)
  woken now t rest due few full = elim (Bool-cases (ltb (t + window) now)) [
    | inl over ↦ (
      _,
      _,
      passes_at 1 now (t ∷ rest) (omega (arith, first_gone now t rest (ltb→lt _ _ over), few)),
      omega arith,
    )
    | inr exact ↦
        let still : now ≤ t + window = ground arith in
        let late : t + window < now + (max (t + window - now) 10 + jitter 1) = omega arith in
        let later = now + (max (t + window - now) 10 + jitter 1) in
        (
          _,
          _,
          sleeps_at 1 now t (t ∷ rest) rest (first_kept now t rest still) full
              ∙ passes_at 0 later (t ∷ rest) (omega (arith, first_gone later t rest late, few)),
          omega arith,
        )
  ]

  All-pop_left :
      (P : ℕ → Type 0) (now : ℕ) (ts : List ℕ) → All P ts → All P (pop_left window now ts)
  unfolding pop_left
  All-pop_left P now [] h = tt
  All-pop_left P now (t ∷ ts) h = elim (Bool-cases (ltb (t + window) now)) [
    | inl gone ↦ rw gone (All-pop_left P now ts h.1)
    | inr kept ↦ rw kept h
  ]

  -- the turns of a caller, by what the first leaves of the deque
  first_turn :
      (now : ℕ) (ts kept : List ℕ)
      → pop_left window now ts ≡ kept
      → 0 < most
      → length kept ≤ most
      → All (λ t. t ≤ now) kept
      → (later : ℕ) × (ts' : List ℕ) × (acquire most window jitter 3 now ts ≡ some (later, ts'))
        × (later ≤ now + max window 10 + 10 + jitter 2 + jitter 1)
  first_turn now ts [] e positive few past = (_, _, passes_at 2 now ts (rw e positive), omega arith)
  first_turn now ts (t ∷ rest) e positive few past =
      elim (Bool-cases (ltb (suc (length rest)) most)) [
        | inl room ↦ (_, _, passes_at 2 now ts (rw e (ltb→lt _ _ room)), omega arith)
        | inr full ↦
            let filled : most ≤ suc (length rest) = ground arith in
            let (later, ts', ran, soon) =
              woken (now + (max (t + window - now) 10 + jitter 2)) t rest (omega arith) few
                filled in
            (later, ts', sleeps_at 2 now t ts rest e filled ∙ ran, omega (arith, past.0, soon))
      ]

  -- A caller whose bucket holds no more than its most, and to which nobody comes in between, gets
  -- through after two sleeps at the most: it waits until the oldest request leaves the window, and
  -- where it wakes at that very moment, once more.
  pub acquire_ends :
      (now : ℕ) (ts : List ℕ)
      → 0 < most
      → length ts ≤ most
      → All (λ t. t ≤ now) ts
      → (later : ℕ) × (ts' : List ℕ) × (acquire most window jitter 3 now ts ≡ some (later, ts'))
        × (later ≤ now + max window 10 + 10 + jitter 2 + jitter 1)
  acquire_ends now ts positive few past =
      first_turn now ts (pop_left window now ts) refl positive
        (omega (arith, length-pop_left most window now ts))
        (All-pop_left (λ t. t ≤ now) now ts past)
