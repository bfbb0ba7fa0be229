-- ===== src/Hyperliquid/Snapshots.antt =====
-- src/exchanges/hyperliquid/adapter.py: `_ctx_snapshot` and `_high_low_24h_cached`, which keep an
-- answer of the upstream for a while and ask for a new one under a lock, one key of the cache at a time.
-- `time.monotonic()` is in whole milliseconds. A call runs to its next `await` at once: `look` is the
-- way to the lock, `under_lock` the one from the lock to the request, `answered` and `failed` the end.
pub mod Single
use exchange_router_service.Prelude.{
  ℕ, ◌-◌, Bool, true, false, Option, none, some, List, [], ◌∷◌, ltb, if◌then◌else◌,
}

-- `_CTX_TTL_S` and `_TICKER_RESEED_S`
abbrev pub ctx_ttl : ℕ
ctx_ttl = 3000

abbrev pub ticker_reseed : ℕ
ticker_reseed = 120_000

-- The entry of a key, with the time when it was stored; whether some call holds the lock; and, as a
-- record of the run, the calls of `_make_request`: when each began, and when it returned. The last one
-- comes first.
module _ (A : Type 0) where
  pub record Cached : Type 0 where
    pub entry : Option (ℕ × A)
    pub locked : Bool
    pub requests : List (ℕ × Option ℕ)

module _ {A : Type 0} (ttl : ℕ) where
  -- `entry is not None and time.monotonic() - entry[0] < ttl`
  unfoldable pub is_fresh : ℕ → Option (ℕ × A) → Bool
  is_fresh now none = false
  is_fresh now (some (stored, value)) = ltb (now - stored) ttl

  abbrev pub value_of : Option (ℕ × A) → Option A
  value_of none = none
  value_of (some (stored, value)) = some value

  -- what a call returns without the lock; `none` sends it there
  unfoldable pub look : ℕ → Cached A → Option A
  unfolding is_fresh
  look now c = if is_fresh now c.entry then value_of c.entry else none

  -- A call gets the lock: it returns, or its request goes.
  unfoldable pub under_lock : ℕ → Cached A → Option A × Cached A
  unfolding is_fresh
  under_lock now c =
      if is_fresh now c.entry
      then (value_of c.entry, c)
      else (none, record c { locked = true; requests = (now, none) ∷ c.requests })

-- the last request is answered
abbrev pub answer_last : ℕ → List (ℕ × Option ℕ) → List (ℕ × Option ℕ)
answer_last now [] = []
answer_last now ((sent, answer) ∷ requests) = (sent, some now) ∷ requests

module _ {A : Type 0} where
  unfoldable pub answered : ℕ → A → Cached A → Cached A
  answered now value c = record {
    entry = some (now, value);
    locked = false;
    requests = answer_last now c.requests;
  }

  -- the request raises
  unfoldable pub failed : Cached A → Cached A
  failed c = record c { locked = false }

  -- `_high_low_24h_cached` stores its entry again, with the time that it had
  abbrev pub amended : (A → A) → Option (ℕ × A) → Option (ℕ × A)
  amended change none = none
  amended change (some (stored, value)) = some (stored, change value)

  unfoldable pub amend : (A → A) → Cached A → Cached A
  amend change c = record c { entry = amended change c.entry }

module _ {Price : Type 0} (lt : Price → Price → Bool) (zero_price : Price) where
  abbrev pub higher : Price → Option Price → Option Price
  higher close none = some close
  higher close (some high) = if lt high close then some close else some high

  abbrev pub lower : Price → Option Price → Option Price
  lower close none = some close
  lower close (some low) = if lt close low then some close else some low

  -- what a close makes of the highest and the lowest price
  unfoldable pub widen : Price → Option Price × Option Price → Option Price × Option Price
  widen close (high, low) =
      if lt zero_price close then (higher close high, lower close low) else (high, low)
