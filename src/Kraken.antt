-- ===== src/Kraken.antt =====
-- src/exchanges/kraken/adapter.py: how the adapter spaces its requests (`_await_throttle`,
-- `_set_backoff`). `time.time()` is in whole milliseconds, and positive.
pub mod Runs
pub mod Spacing
pub mod Patience
pub mod Book
pub mod BookLevels
pub mod BookDeltas
pub mod BookView
pub mod Intervals
pub mod Requests
pub mod Attempts
pub mod Candles
use exchange_router_service.Prelude.{
  ℕ, ◌+◌, ◌-◌, ◌*◌, ◌^◌, min, max, String, ◌≡◌, ◌↔◌, Bool, true, false, ◌&&◌, Option, none, some,
  List, [], ◌∷◌, ltb, leb, Eq, str_eq, str_eq_iff, if◌then◌else◌, arith,
}
use exchange_router_service.Prelude.Dict.{Dict, get, put}

-- the endpoint and the pair of a spot call that is counted for its pair
abbrev pub PairCall : Type 0
PairCall = String × String

abbrev pub pair_eq : PairCall → PairCall → Bool
pair_eq (e, p) (f, q) = str_eq e f && str_eq p q

pub pair_eq_iff : (a b : PairCall) → (pair_eq a b ≡ true) ↔ (a ≡ b)
pair_eq_iff (e, p) (f, q) = ground (arith, str_eq_iff e f, str_eq_iff p q)

instance abbrev pub pair_has_eq : Eq PairCall
pair_has_eq = record { same = pair_eq; same_iff = pair_eq_iff }

-- `_base_interval_ms` and `_pair_interval_ms`
abbrev pub base_interval : ℕ
base_interval = 200

abbrev pub pair_interval : ℕ
pair_interval = 1100

pub record Throttle : Type 0 where
  pub backoff_until : ℕ
  pub slowdown_until : ℕ
  pub extra_interval : ℕ
  pub last_request_at : ℕ
  pub last_pair_call_at : Dict PairCall ℕ

-- `__init__`
abbrev pub idle : Throttle
idle = record {
  backoff_until = 0;
  slowdown_until = 0;
  extra_interval = 0;
  last_request_at = 0;
  last_pair_call_at = [];
}

-- what is left of an interval since `last`; 0 stands for no call yet
unfoldable pub rest_of : ℕ → ℕ → ℕ → ℕ
rest_of now last interval =
    if ltb 0 last && ltb now (last + interval) then last + interval - now else 0

unfoldable pub global_interval : ℕ → Throttle → ℕ
global_interval now s =
    if ltb now s.slowdown_until then base_interval + s.extra_interval else base_interval

abbrev pub or_never : Option ℕ → ℕ
or_never none = 0
or_never (some t) = t

abbrev pub pair_delay : Option PairCall → ℕ → Throttle → ℕ
unfolding rest_of
pair_delay none now s = 0
pair_delay (some pair) now s = rest_of now (or_never (get pair s.last_pair_call_at)) pair_interval

-- `wait`: the longest of the delays, 0 where there is none
unfoldable pub wait_for : Option PairCall → ℕ → Throttle → ℕ
unfolding pair_delay global_interval
wait_for call now s =
    max (if ltb now s.backoff_until then s.backoff_until - now else 0)
      (max (rest_of now s.last_request_at (global_interval now s)) (pair_delay call now s))

abbrev pub note_call : Option PairCall → ℕ → Dict PairCall ℕ → Dict PairCall ℕ
note_call none now d = d
note_call (some pair) now d = put pair now d

-- One pass of the loop of `_await_throttle`, at `now`: the call may go, or it waits and comes back.
unfoldable pub await_throttle : Option PairCall → ℕ → Throttle → Bool × Throttle
unfolding wait_for
await_throttle call now s =
    if leb (wait_for call now s) 0
    then (
      true,
      record s {
        last_request_at = now;
        last_pair_call_at = note_call call now s.last_pair_call_at;
      },
    )
    else (false, s)

-- The wait of `_set_backoff`: until the time that the upstream named, or a power of two of seconds,
-- at most 60, times a random factor, which `jitter` applies.
unfoldable pub backoff_wait : (ℕ → ℕ) → ℕ → ℕ → Option ℕ → ℕ
backoff_wait jitter attempt now none = jitter (min 60_000 (1000 * 2 ^ attempt))
backoff_wait jitter attempt now (some t) =
    if ltb now t then t - now else jitter (min 60_000 (1000 * 2 ^ attempt))

-- `_set_backoff`
unfoldable pub set_backoff : (ℕ → ℕ) → ℕ → Option ℕ → Bool → ℕ → Throttle → Throttle
unfolding backoff_wait
set_backoff jitter attempt retry_until strong now s = record s {
  backoff_until = max s.backoff_until (now + backoff_wait jitter attempt now retry_until);
  slowdown_until = if strong then max s.slowdown_until (now + 60_000) else s.slowdown_until;
  extra_interval = if strong then max s.extra_interval 1000 else s.extra_interval;
}
