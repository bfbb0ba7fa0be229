-- ===== src/Okx/RateWindow.antt =====
-- What `_RateBucket` (src/exchanges/okx/adapter.py) promises: a limit on every window of time, for
-- any callers, and that a caller gets through.
use mathlib.Core.List.{append_assoc}
use exchange_router_service.Prelude.{
  sym, ℕ, ◌+◌, ◌≤◌, ◌<◌, ◌≡◌, refl, ap, ◌∙◌, ◌&&◌, List, [], ◌∷◌, ◌++◌, length, ltb, leb, All, inl,
  inr, Bool-cases, if◌then◌else◌, arith, length-append, ltb→lt, All-map, All-append,
}
use exchange_router_service.Okx.{Turn, passes, sleeps, index_error, pop_left, sleep_of, turn}

-- how many of the times lie from `a` to `b`
abbrev pub count_within : ℕ → ℕ → List ℕ → ℕ
count_within a b [] = 0
count_within a b (t ∷ ts) = (if leb a t && leb t b then 1 else 0) + count_within a b ts

count_within-append :
    (a b : ℕ) (xs ys : List ℕ)
    → count_within a b (xs ++ ys) ≡ count_within a b xs + count_within a b ys
count_within-append a b [] ys = omega arith
count_within-append a b (x ∷ xs) ys = omega (arith, count_within-append a b xs ys)

count_within-le : (a b : ℕ) (xs : List ℕ) → count_within a b xs ≤ length xs
count_within-le a b [] = omega arith
count_within-le a b (x ∷ xs) = ground (arith, count_within-le a b xs)

count_within_past : (a b : ℕ) (xs : List ℕ) → All (λ t. t < a) xs → count_within a b xs ≡ 0
count_within_past a b [] h = refl
count_within_past a b (x ∷ xs) h = ground (arith, count_within_past a b xs h.1)

-- `t` has left the window that ends at `now`
abbrev Left : ℕ → ℕ → ℕ → Type 0
Left window now t = t + window < now

pop_left-split :
    (window now : ℕ) (ts : List ℕ)
    → (gone : List ℕ) × (ts ≡ gone ++ pop_left window now ts) × All (Left window now) gone
unfolding pop_left
pop_left-split window now [] = ([], refl, tt)
pop_left-split window now (t ∷ ts) = elim (Bool-cases (ltb (t + window) now)) [
  | inl gone ↦
      let (ts', e, h) = pop_left-split window now ts in
      rw gone ((t ∷ ts', ap (λ r. t ∷ r) e, (ground arith, h)))
  | inr kept ↦ rw kept ([], refl, tt)
]

-- the times at which requests went, and the deque
pub record Log : Type 0 where
  pub sent : List ℕ
  pub timestamps : List ℕ

abbrev pub note : ℕ → List ℕ → Turn → List ℕ
note now sent passes = sent ++ now ∷ []
note now sent (sleeps wait) = sent
note now sent index_error = sent

note-sleep_of :
    (window now jitter : ℕ) (sent ts : List ℕ)
    → note now sent (sleep_of window now jitter ts) ≡ sent
unfolding sleep_of
note-sleep_of window now jitter sent [] = refl
note-sleep_of window now jitter sent (t ∷ ts) = refl

module _ (most window : ℕ) where
  -- a turn of some caller, at a time and with its jitter
  abbrev pub serve : ℕ × ℕ → Log → Log
  unfolding turn
  serve (now, jitter) log =
      let (t, ts) = turn most window now jitter log.timestamps in
      record { sent = note now log.sent t; timestamps = ts }

  abbrev pub serve_all : List (ℕ × ℕ) → Log → Log
  serve_all [] log = log
  serve_all (call ∷ calls) log = serve_all calls (serve call log)

  record IsKept (last : ℕ) (log : Log) : Type 0 where
    old : List ℕ
    split : log.sent ≡ old ++ log.timestamps
    left : All (Left window last) old
    few : length log.timestamps ≤ most
    bound : (a : ℕ) → count_within a (a + window) log.sent ≤ most

  bound_snoc :
      (now a : ℕ) (old kept : List ℕ)
      → All (Left window now) old
      → length kept < most
      → count_within a (a + window) (old ++ kept) ≤ most
      → count_within a (a + window) (old ++ (kept ++ now ∷ [])) ≤ most
  bound_snoc now a old kept h few b = elim (Bool-cases (leb a now && leb now (a + window))) [
    | inl within ↦
        let reach : now ≤ a + window = ground arith in
        let past = All-map (Left window now) (λ t. t < a) (λ t l. omega arith) old h in
        omega (
          arith,
          count_within-append a (a + window) old (kept ++ now ∷ []),
          count_within_past a (a + window) old past,
          count_within-le a (a + window) (kept ++ now ∷ []),
          length-append kept (now ∷ []),
        )
    | inr outside ↦
        let none_more : count_within a (a + window) (now ∷ []) ≡ 0 = ground arith in
        omega (
          arith,
          count_within-append a (a + window) old (kept ++ now ∷ []),
          count_within-append a (a + window) kept (now ∷ []),
          count_within-append a (a + window) old kept,
        )
  ]

  pub length-pop_left : (now : ℕ) (ts : List ℕ) → length (pop_left window now ts) ≤ length ts
  unfolding pop_left
  length-pop_left now [] = omega arith
  length-pop_left now (t ∷ ts) = ground (arith, length-pop_left now ts)

  serve-IsKept :
      (now jitter last : ℕ) (log : Log)
      → last ≤ now
      → IsKept last log
      → IsKept now (serve (now, jitter) log)
  unfolding turn
  serve-IsKept now jitter last log later v =
      let (gone, e, h) = pop_left-split window now log.timestamps in
      let kept = pop_left window now log.timestamps in
      let left =
        All-append (Left window now) v.old gone
          (All-map (Left window last) (Left window now) (λ t l. omega arith) v.old v.left) h in
      let same : log.sent ≡ (v.old ++ gone) ++ kept =
        v.split ∙ ap (λ r. v.old ++ r) e ∙ sym (append_assoc v.old gone kept) in
      let more : log.sent ++ now ∷ [] ≡ (v.old ++ gone) ++ (kept ++ now ∷ []) =
        ap (λ r. r ++ now ∷ []) same ∙ append_assoc (v.old ++ gone) kept (now ∷ []) in
      elim (Bool-cases (ltb (length kept) most)) [
        | inl room ↦ rw room (record {
          old = v.old ++ gone;
          split = more;
          left = left;
          few = omega (arith, length-append kept (now ∷ []), ltb→lt _ _ room);
          bound = λ a. rw more (
              bound_snoc now a (v.old ++ gone) kept left (ltb→lt _ _ room)
                (rw (← same) (v.bound a)));
        })
        | inr full ↦ rw full (
            rw (note-sleep_of window now jitter log.sent kept) (record {
              old = v.old ++ gone;
              split = same;
              left = left;
              few = omega (arith, length-pop_left now log.timestamps, v.few);
              bound = v.bound;
            }))
      ]

  -- the times of the calls do not fall
  abbrev pub Ordered : ℕ → List (ℕ × ℕ) → Type 0
  Ordered last [] = Unit
  Ordered last ((now, jitter) ∷ calls) = (last ≤ now) × Ordered now calls

  serve_all_bound :
      (last : ℕ) (calls : List (ℕ × ℕ)) (log : Log)
      → Ordered last calls
      → IsKept last log
      → (a : ℕ) → count_within a (a + window) (serve_all calls log).sent ≤ most
  serve_all_bound last [] log h v a = v.bound a
  serve_all_bound last ((now, jitter) ∷ calls) log h v a =
      serve_all_bound now calls (serve (now, jitter) log) h.1
        (serve-IsKept now jitter last log h.0 v) a

  -- However many callers take their turns at a bucket that was empty at first, at times that do not
  -- fall, in no stretch of time of the length of the window do more than `most` requests go, the two
  -- ends of the stretch included.
  pub window_bound :
      (calls : List (ℕ × ℕ))
      → Ordered 0 calls
      → (a : ℕ)
      → count_within a (a + window) (serve_all calls (record { sent = []; timestamps = [] })).sent
        ≤ most
  window_bound calls h a =
      serve_all_bound 0 calls (record { sent = []; timestamps = [] }) h
        (record { old = []; split = refl; left = tt; few = omega arith; bound = λ b. omega arith })
        a
