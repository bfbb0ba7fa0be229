-- ===== src/Kraken/Runs.antt =====
-- The requests that `_await_throttle` of src/exchanges/kraken/adapter.py lets go, in any order of
-- callers and of backoffs.
use exchange_router_service.Prelude.{
  ltb, ℕ, ◌+◌, ◌≤◌, max, ◌≡◌, Bool, true, false, Option, none, some, List, [], ◌∷◌, if◌then◌else◌,
}
use exchange_router_service.Kraken.{
  PairCall, pair_eq, pair_has_eq, Throttle, idle, await_throttle, backoff_wait, set_backoff,
}

-- what happened, the newest first: a request at a time, or a backoff that was set at a time, with
-- its end and whether it was a strong one
pub data Event : Type 0 where
  requested : ℕ → Option PairCall → Event
  backed_off : ℕ → ℕ → Bool → Event

abbrev pub last_request : List Event → ℕ
last_request [] = 0
last_request (requested t call ∷ log) = t
last_request (backed_off t until strong ∷ log) = last_request log

abbrev pub is_call : PairCall → Option PairCall → Bool
is_call pair none = false
is_call pair (some p) = pair_eq p pair

abbrev pub last_call : PairCall → List Event → ℕ
last_call pair [] = 0
last_call pair (requested t call ∷ log) = if is_call pair call then t else last_call pair log
last_call pair (backed_off t until strong ∷ log) = last_call pair log

-- the end of the longest backoff, and the end of the slowdown that strong ones bring
abbrev pub backoff_end : List Event → ℕ
backoff_end [] = 0
backoff_end (requested t call ∷ log) = backoff_end log
backoff_end (backed_off t until strong ∷ log) = max (backoff_end log) until

abbrev pub slow_end : List Event → ℕ
slow_end [] = 0
slow_end (requested t call ∷ log) = slow_end log
slow_end (backed_off t until true ∷ log) = max (slow_end log) (t + 60_000)
slow_end (backed_off t until false ∷ log) = slow_end log

-- the earliest time after a call at `last`, where there was one
abbrev pub due : ℕ → ℕ → ℕ
due last gap = if ltb 0 last then last + gap else 0

abbrev pub gap_at : ℕ → List Event → ℕ
gap_at t log = if ltb t (slow_end log) then 1200 else 200

abbrev pub pair_due : Option PairCall → List Event → ℕ
pair_due none log = 0
pair_due (some pair) log = due (last_call pair log) 1100

-- A request comes at least 200 ms after the one before it, 1200 ms within a minute after a strong
-- backoff; 1100 ms after the last one for its endpoint and pair; and after the end of every backoff.
abbrev pub Polite : List Event → Type 0
Polite [] = Unit
Polite (backed_off t until strong ∷ log) = Polite log
Polite (requested t call ∷ log) =
    (due (last_request log) (gap_at t log) ≤ t)
    × (pair_due call log ≤ t)
    × (backoff_end log ≤ t)
    × Polite log

-- the runs: the requests that pass, and the backoffs; a pass that has to wait
-- changes nothing
pub data Run : Throttle → List Event → Type 0 where
  begin : Run idle []
  passes :
      {s : Throttle} {log : List Event} (call : Option PairCall) (now : ℕ)
      → Run s log
      → (await_throttle call now s).0 ≡ true
      → Run (await_throttle call now s).1 (requested now call ∷ log)
  waits :
      {s : Throttle} {log : List Event} (call : Option PairCall) (now : ℕ)
      → Run s log
      → (await_throttle call now s).0 ≡ false
      → Run (await_throttle call now s).1 log
  backs_off :
      {s : Throttle} {log : List Event} (jitter : ℕ → ℕ) (attempt : ℕ) (retry_until : Option ℕ)
      (strong : Bool) (now : ℕ)
      → Run s log
      → Run
          (set_backoff jitter attempt retry_until strong now s)
          (backed_off now (now + backoff_wait jitter attempt now retry_until) strong ∷ log)
