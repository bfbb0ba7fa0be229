-- ===== src/Kraken/Spacing.antt =====
-- The requests that `_await_throttle` of src/exchanges/kraken/adapter.py lets go are spaced.
use exchange_router_service.Prelude.{
  ltb, ℕ, ◌+◌, ◌≤◌, ◌<◌, ◌≡◌, refl, Bool, true, false, Option, none, some, List, [], ◌∷◌, leb, inl,
  inr, Bool-cases, if◌then◌else◌, arith,
}
use exchange_router_service.Prelude.Dict.{Dict, get, get-put}
use exchange_router_service.Kraken.{
  PairCall, pair_has_eq, Throttle, idle, rest_of, global_interval, or_never, pair_delay, wait_for,
  note_call, await_throttle, backoff_wait, set_backoff,
}
use exchange_router_service.Kraken.Runs.{
  Event, requested, backed_off, last_request, is_call, last_call, backoff_end, slow_end, due,
  gap_at, pair_due, Polite, Run, begin, passes, waits, backs_off,
}

-- what the throttle remembers of the log
record IsRecord (s : Throttle) (log : List Event) : Type 0 where
  last : s.last_request_at ≡ last_request log
  pairs : (pair : PairCall) → or_never (get pair s.last_pair_call_at) ≡ last_call pair log
  backoff : s.backoff_until ≡ backoff_end log
  slowdown : s.slowdown_until ≡ slow_end log
  extra : 0 < slow_end log → 1000 ≤ s.extra_interval

pass_state :
    (call : Option PairCall) (now : ℕ) (s : Throttle)
    → (await_throttle call now s).0 ≡ true
    → (wait_for call now s ≡ 0)
      × ((await_throttle call now s).1 ≡ record s {
        last_request_at = now;
        last_pair_call_at = note_call call now s.last_pair_call_at;
      })
unfolding await_throttle
pass_state call now s h = elim (Bool-cases (leb (wait_for call now s) 0)) [
  | inl go ↦ (ground arith, rw (go, await_throttle))
  | inr stay ↦ absurd (ground arith)
]

wait_state :
    (call : Option PairCall) (now : ℕ) (s : Throttle)
    → (await_throttle call now s).0 ≡ false
    → (await_throttle call now s).1 ≡ s
unfolding await_throttle
wait_state call now s h = elim (Bool-cases (leb (wait_for call now s) 0)) [
  | inl go ↦ absurd (ground arith)
  | inr stay ↦ rw (stay, await_throttle)
]

noted :
    (call : Option PairCall) (now : ℕ) (d : Dict PairCall ℕ) (pair : PairCall)
    → or_never (get pair (note_call call now d))
      ≡ (if is_call pair call then now else or_never (get pair d))
noted none now d pair = refl
noted (some p) now d pair = ground (arith, get-put p pair now d)

pair_politeness :
    (call : Option PairCall) (now : ℕ) (s : Throttle) (log : List Event)
    → IsRecord s log
    → pair_delay call now s ≡ 0
    → pair_due call log ≤ now
unfolding pair_delay rest_of
pair_politeness none now s log r h = omega arith
pair_politeness (some pair) now s log r h = ground (arith, r.pairs pair)

delays :
    (call : Option PairCall) (now : ℕ) (s : Throttle)
    → wait_for call now s ≡ 0
    → (pair_delay call now s ≡ 0)
      × (s.backoff_until ≤ now)
      × (rest_of now s.last_request_at (global_interval now s) ≡ 0)
unfolding wait_for
delays call now s h = ground arith

rested :
    (now last interval gap : ℕ)
    → gap ≤ interval
    → rest_of now last interval ≡ 0
    → due last gap ≤ now
unfolding rest_of
rested now last interval gap le h = ground arith

paced :
    (now : ℕ) (s : Throttle) (log : List Event)
    → IsRecord s log
    → gap_at now log ≤ global_interval now s
unfolding global_interval
paced now s log r = elim (Bool-cases (ltb now (slow_end log))) [
  | inl slow ↦ ground (arith, r.slowdown, r.extra (ground arith))
  | inr plain ↦ ground (arith, r.slowdown)
]

politeness :
    (call : Option PairCall) (now : ℕ) (s : Throttle) (log : List Event)
    → IsRecord s log
    → wait_for call now s ≡ 0
    → Polite log
    → Polite (requested now call ∷ log)
politeness call now s log r h polite =
    let (pair, back, rest) = delays call now s h in
    let spaced =
      rested now s.last_request_at (global_interval now s) (gap_at now log) (paced now s log r)
        rest in
    (rw (← r.last) spaced, pair_politeness call now s log r pair, omega (arith, r.backoff), polite)

passed-IsRecord :
    (call : Option PairCall) (now : ℕ) (s : Throttle) (log : List Event)
    → IsRecord s log
    → IsRecord
        (record s {
          last_request_at = now;
          last_pair_call_at = note_call call now s.last_pair_call_at;
        })
        (requested now call ∷ log)
passed-IsRecord call now s log r = record {
  last = refl;
  pairs = λ pair. ground (arith, noted call now s.last_pair_call_at pair, r.pairs pair);
  backoff = r.backoff;
  slowdown = r.slowdown;
  extra = r.extra;
}

backed_off-IsRecord :
    (jitter : ℕ → ℕ) (attempt : ℕ) (retry_until : Option ℕ) (strong : Bool) (now : ℕ) (s : Throttle)
    (log : List Event)
    → IsRecord s log
    → IsRecord
        (set_backoff jitter attempt retry_until strong now s)
        (backed_off now (now + backoff_wait jitter attempt now retry_until) strong ∷ log)
unfolding set_backoff
backed_off-IsRecord jitter attempt retry_until true now s log r = record {
  last = r.last;
  pairs = r.pairs;
  backoff = omega (arith, r.backoff);
  slowdown = omega (arith, r.slowdown);
  extra = λ h. omega arith;
}
backed_off-IsRecord jitter attempt retry_until false now s log r = record {
  last = r.last;
  pairs = r.pairs;
  backoff = omega (arith, r.backoff);
  slowdown = r.slowdown;
  extra = r.extra;
}

idle-IsRecord : IsRecord idle []
unfolding get
idle-IsRecord = record {
  last = refl;
  pairs = λ pair. refl;
  backoff = refl;
  slowdown = refl;
  extra = λ h. absurd (omega arith);
}

runs : {s : Throttle} {log : List Event} → Run s log → IsRecord s log × Polite log
runs begin = (idle-IsRecord, tt)
runs (passes {s} {log} call now run go) =
    let (r, polite) = runs run in
    let (free, state) = pass_state call now s go in
    (rw state (passed-IsRecord call now s log r), politeness call now s log r free polite)
runs (waits {s} {log} call now run stay) =
    let (r, polite) = runs run in (rw (wait_state call now s stay) r, polite)
runs (backs_off {s} {log} jitter attempt retry_until strong now run) =
    let (r, polite) = runs run in
    (backed_off-IsRecord jitter attempt retry_until strong now s log r, polite)

-- Whatever callers come and go and whatever backoffs they set, the requests that the adapter sends
-- are spaced: 200 ms from one to the next, 1200 ms within the minute after a rate limit was met,
-- 1100 ms between two for one endpoint and pair, and none before a backoff is over.
pub run-Polite : {s : Throttle} {log : List Event} → Run s log → Polite log
run-Polite run = (runs run).1
