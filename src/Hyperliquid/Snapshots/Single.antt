-- ===== src/Hyperliquid/Snapshots/Single.antt =====
-- How often the calls of a cached answer ask the upstream (`_ctx_snapshot`, `_high_low_24h_cached` of
-- src/exchanges/hyperliquid/adapter.py), in any order of their steps.
use exchange_router_service.Prelude.{
  ℕ, ◌+◌, ◌≤◌, ◌≡◌, refl, ◌∙◌, Bool, true, false, Option, none, some, List, [], ◌∷◌, leb, All,
  All-map, Bool-cases, inl, inr, arith,
}
use exchange_router_service.Hyperliquid.Snapshots.{
  Cached, is_fresh, under_lock, answer_last, answered, failed, amended, amend,
}

abbrev pub Request : Type 0
Request = ℕ × Option ℕ

-- whether the answer to a request, if there is one, is some time old
abbrev pub is_old : ℕ → ℕ → Request → Bool
is_old ttl now (sent, none) = true
is_old ttl now (sent, some answer) = leb (answer + ttl) now

-- The requests, the last one first: one goes only when the answers to those before it are `ttl` old.
abbrev pub Spaced : ℕ → List Request → Type 0
Spaced ttl [] = Unit
Spaced ttl (r ∷ rs) = All (λ (old : Request). is_old ttl r.0 old ≡ true) rs × Spaced ttl rs

answer_last-Spaced :
    (ttl now : ℕ) (rs : List Request) → Spaced ttl rs → Spaced ttl (answer_last now rs)
answer_last-Spaced ttl now [] h = h
answer_last-Spaced ttl now (r ∷ rs) h = h

module _ {A : Type 0} (ttl : ℕ) where
  -- The histories of the calls for a key, with the time.
  pub data Reach : ℕ → Cached A → Type 0 where
    begin : Reach 0 (record { entry = none; locked = false; requests = [] })
    passes : {now : ℕ} {c : Cached A} (later : ℕ) → Reach now c → now ≤ later → Reach later c
    locks :
        {now : ℕ} {c : Cached A}
        → Reach now c
        → c.locked ≡ false
        → Reach now (under_lock ttl now c).1
    answers :
        {now : ℕ} {c : Cached A} (value : A)
        → Reach now c
        → c.locked ≡ true
        → Reach now (answered now value c)
    fails : {now : ℕ} {c : Cached A} → Reach now c → c.locked ≡ true → Reach now (failed c)
    amends : {now : ℕ} {c : Cached A} (change : A → A) → Reach now c → Reach now (amend change c)

module _ {A : Type 0} where
  -- whether the entry is as new as the answer to a request
  abbrev is_covered : Option (ℕ × A) → Request → Bool
  is_covered entry (sent, none) = true
  is_covered none (sent, some answer) = false
  is_covered (some (stored, value)) (sent, some answer) = leb answer stored

  abbrev is_past : ℕ → Option (ℕ × A) → Bool
  is_past now none = true
  is_past now (some (stored, value)) = leb stored now

  module _ (ttl : ℕ) where
    record IsValid (now : ℕ) (c : Cached A) : Type 0 where
      spaced : Spaced ttl c.requests
      past : is_past now c.entry ≡ true
      covered : All (λ (r : Request). is_covered c.entry r ≡ true) c.requests

    old_answer :
        (now : ℕ) (entry : Option (ℕ × A)) (r : Request)
        → is_past now entry ≡ true
        → is_fresh ttl now entry ≡ false
        → is_covered entry r ≡ true
        → is_old ttl now r ≡ true
    unfolding is_fresh
    old_answer now entry (sent, none) p f h = refl
    old_answer now none (sent, some answer) p f h = ground arith
    old_answer now (some (stored, value)) (sent, some answer) p f h = ground arith

    under_lock-IsValid :
        (now : ℕ) (c : Cached A) → IsValid now c → IsValid now (under_lock ttl now c).1
    unfolding under_lock
    under_lock-IsValid now c v = elim (Bool-cases (is_fresh ttl now c.entry)) [
      | inl fresh ↦ rw fresh v
      | inr stale ↦ rw stale (record {
        spaced = (
          All-map _ _ (λ r h. old_answer now c.entry r v.past stale h) c.requests v.covered,
          v.spaced,
        );
        past = v.past;
        covered = (refl, v.covered);
      })
    ]

    newly_covered :
        (now : ℕ) (value : A) (entry : Option (ℕ × A)) (r : Request)
        → is_past now entry ≡ true
        → is_covered entry r ≡ true
        → is_covered (some (now, value)) r ≡ true
    newly_covered now value entry (sent, none) p h = refl
    newly_covered now value none (sent, some answer) p h = ground arith
    newly_covered now value (some (stored, old)) (sent, some answer) p h = ground arith

    answer_last_covered :
        (now : ℕ) (value : A) (rs : List Request)
        → All (λ (r : Request). is_covered (some (now, value)) r ≡ true) rs
        → All (λ (r : Request). is_covered (some (now, value)) r ≡ true) (answer_last now rs)
    answer_last_covered now value [] h = h
    answer_last_covered now value (r ∷ rs) h = (ground arith, h.1)

    answered-IsValid :
        (now : ℕ) (value : A) (c : Cached A) → IsValid now c → IsValid now (answered now value c)
    unfolding answered
    answered-IsValid now value c v = record {
      spaced = answer_last-Spaced ttl now c.requests v.spaced;
      past = ground arith;
      covered =
          answer_last_covered now value c.requests
            (All-map _ _ (λ r h. newly_covered now value c.entry r v.past h) c.requests v.covered);
    }

    amended_past :
        (now : ℕ) (change : A → A) (entry : Option (ℕ × A))
        → is_past now (amended change entry) ≡ is_past now entry
    amended_past now change none = refl
    amended_past now change (some (stored, value)) = refl

    amended_covered :
        (change : A → A) (entry : Option (ℕ × A)) (r : Request)
        → is_covered (amended change entry) r ≡ is_covered entry r
    amended_covered change entry (sent, none) = refl
    amended_covered change none (sent, some answer) = refl
    amended_covered change (some (stored, value)) (sent, some answer) = refl

    amend-IsValid :
        (now : ℕ) (change : A → A) (c : Cached A) → IsValid now c → IsValid now (amend change c)
    unfolding amend
    amend-IsValid now change c v = record {
      spaced = v.spaced;
      past = rw (amended_past now change c.entry) v.past;
      covered = All-map _ _ (λ r h. amended_covered change c.entry r ∙ h) c.requests v.covered;
    }

    later_past :
        (now later : ℕ) (entry : Option (ℕ × A))
        → now ≤ later
        → is_past now entry ≡ true
        → is_past later entry ≡ true
    later_past now later none h p = refl
    later_past now later (some (stored, value)) h p = ground arith

    cached-IsValid : {now : ℕ} {c : Cached A} → Reach ttl now c → IsValid now c
    unfolding failed
    cached-IsValid begin = record { spaced = tt; past = refl; covered = tt }
    cached-IsValid (passes {now} {c} later r h) =
        let v = cached-IsValid r in
        record {
          spaced = v.spaced;
          past = later_past now later c.entry h v.past;
          covered = v.covered;
        }
    cached-IsValid (locks {now} {c} r h) = under_lock-IsValid now c (cached-IsValid r)
    cached-IsValid (answers {now} {c} value r h) = answered-IsValid now value c (cached-IsValid r)
    cached-IsValid (fails {now} {c} r h) =
        let v = cached-IsValid r in record { spaced = v.spaced; past = v.past; covered = v.covered }
    cached-IsValid (amends {now} {c} change r) = amend-IsValid now change c (cached-IsValid r)

    -- Whatever calls for a key come, and in whatever order they wait for the lock, get it, and have
    -- their requests answered or fail: a request for the key goes only when all answers to the
    -- requests before it are at least as old as the cache keeps them.
    pub requests-Spaced : {now : ℕ} {c : Cached A} → Reach ttl now c → Spaced ttl c.requests
    requests-Spaced r = (cached-IsValid r).spaced
