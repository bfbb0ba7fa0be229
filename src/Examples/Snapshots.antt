-- ===== src/Examples/Snapshots.antt =====
-- Runs of `_ctx_snapshot` of src/exchanges/hyperliquid/adapter.py.
use exchange_router_service.Prelude.{ℕ, ◌≡◌, refl, none, some, [], ◌∷◌, arith, ltb, false}
use exchange_router_service.Hyperliquid.Snapshots.{
  Cached, ctx_ttl, is_fresh, look, under_lock, answered, widen,
}
use exchange_router_service.Hyperliquid.Snapshots.Single.{
  Spaced, Reach, begin, passes, locks, answers, requests-Spaced,
}

abbrev nothing : Cached ℕ
nothing = record { entry = none; locked = false; requests = [] }

-- two calls come at once, the second gets the lock when the answer is there, and a third comes later
abbrev asked : Cached ℕ
unfolding under_lock
asked = (under_lock ctx_ttl 100 nothing).1

abbrev kept : Cached ℕ
unfolding answered
kept = answered 400 7 asked

abbrev shared : Cached ℕ
unfolding under_lock
shared = (under_lock ctx_ttl 400 kept).1

abbrev renewed : Cached ℕ
unfolding under_lock
renewed = (under_lock ctx_ttl 3400 shared).1

history : Reach ctx_ttl 3400 renewed
unfolding under_lock answered is_fresh
history =
    locks
      (passes 3400
        (locks
          (answers 7 (passes 400 (locks (passes 100 begin (omega arith)) refl) (omega arith)) refl)
          refl)
        (omega arith))
      refl

requests-Spaced_example : Spaced ctx_ttl renewed.requests
requests-Spaced_example = requests-Spaced ctx_ttl history

requests_test : renewed.requests ≡ (3400, none) ∷ (100, some 400) ∷ []
unfolding under_lock answered is_fresh
requests_test = refl

look_test : look ctx_ttl 3399 kept ≡ some 7
unfolding look answered under_lock is_fresh
look_test = refl

widen_test : widen ltb 0 12 (some 10, some 11) ≡ (some 12, some 11)
unfolding widen
widen_test = refl
