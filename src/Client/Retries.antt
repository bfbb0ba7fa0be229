-- ===== src/Client/Retries.antt =====
-- How the retry loop of client/exchange_router_client/_core.py comes out.
use exchange_router_service.Prelude.{
  ℕ, zero, suc, ◌+◌, ◌≤◌, ◌<◌, ◌≡◌, refl, Bool, true, false, Option, none, some, List, [], ◌∷◌,
  ◌++◌, arith, ltb, inl, inr, ◌⊎◌, Bool-cases, ◌∙◌,
}
use mathlib.Core.List.{append_assoc, append-nil}
use exchange_router_service.Floats.{Floats}
use exchange_router_service.Client.Errors.{router_unreachable, error_for_status, is_retried}
use exchange_router_service.Client.Requests.{
  not_json, undecoded, Reply, body, status_error, transport_error, http_error, Outcome, got, failed,
  sleep_for, retry, react, rounds, request,
}

-- What a reply says without regard to the attempts: the outcome it settles, or the error that it
-- leaves when no attempt is left.
module _ {Body Float : Type 0} where
  abbrev pub is_transient : Reply Body Float → Bool
  is_transient (body b) = false
  is_transient not_json = false
  is_transient (status_error status detail retry_after) = is_retried status
  is_transient (transport_error text) = true
  is_transient (http_error text) = false

  abbrev pub outcome_of : Reply Body Float → Outcome Body Float
  outcome_of (body b) = got b
  outcome_of not_json = undecoded
  outcome_of (status_error status detail retry_after) =
      failed (error_for_status status detail retry_after)
  outcome_of (transport_error text) = failed (router_unreachable text)
  outcome_of (http_error text) = failed (router_unreachable text)

  abbrev pub retry_after_of : Reply Body Float → Option Float
  retry_after_of (status_error status detail retry_after) = retry_after
  retry_after_of _ = none

module _ (F : Floats) (uniform : ℕ → F.Float) where
  open F use {Float}

  module _ {Body : Type 0} (answer : ℕ → Reply Body Float) (max_retries : ℕ) where
    settle :
        (fuel attempt : ℕ) (sleeps : List Float) (r : Reply Body Float)
        → is_transient r ≡ false
        → react F uniform answer max_retries
            (rounds F uniform answer max_retries fuel)
            attempt
            sleeps
            r
          ≡ some (outcome_of r, sleeps)
    settle fuel attempt sleeps (body b) h = refl
    settle fuel attempt sleeps not_json h = refl
    settle fuel attempt sleeps (status_error status detail retry_after) h =
        let e : is_retried status ≡ false = h in rw (e, react)
    settle fuel attempt sleeps (transport_error text) h = cc
    settle fuel attempt sleeps (http_error text) h = refl

    give_up :
        (fuel attempt : ℕ) (sleeps : List Float) (r : Reply Body Float)
        → ltb max_retries (attempt + 1) ≡ true
        → react F uniform answer max_retries
            (rounds F uniform answer max_retries fuel)
            attempt
            sleeps
            r
          ≡ some (outcome_of r, sleeps)
    give_up fuel attempt sleeps (body b) l = refl
    give_up fuel attempt sleeps not_json l = refl
    give_up fuel attempt sleeps (status_error status detail retry_after) l =
        elim (Bool-cases (is_retried status)) [
          | inl e ↦ rw (e, react) (rw (l, retry))
          | inr e ↦ rw (e, react)
        ]
    give_up fuel attempt sleeps (transport_error text) l = rw (l, react, retry)
    give_up fuel attempt sleeps (http_error text) l = refl

    go_on :
        (fuel attempt : ℕ) (sleeps : List Float) (r : Reply Body Float)
        → is_transient r ≡ true
        → ltb max_retries (attempt + 1) ≡ false
        → react F uniform answer max_retries
            (rounds F uniform answer max_retries fuel)
            attempt
            sleeps
            r
          ≡ rounds F uniform answer max_retries fuel
              (attempt + 1)
              (sleeps ++ sleep_for F uniform (attempt + 1) (retry_after_of r) ∷ [])
    go_on fuel attempt sleeps (body b) h l = cc
    go_on fuel attempt sleeps not_json h l = cc
    go_on fuel attempt sleeps (status_error status detail retry_after) h l =
        let e : is_retried status ≡ true = h in rw (e, react) (rw (l, retry))
    go_on fuel attempt sleeps (transport_error text) h l = rw (l, react, retry)
    go_on fuel attempt sleeps (http_error text) h l = cc

    -- the waits before the attempts from the n-th on
    abbrev pub waits_before : ℕ → ℕ → List Float
    waits_before n zero = []
    waits_before n (suc k) =
        sleep_for F uniform (n + 1) (retry_after_of (answer n)) ∷ waits_before (n + 1) k

    -- what `rounds` gives with `left` attempts to spare
    abbrev Settled : ℕ → ℕ → List Float → Type 0
    Settled left attempt sleeps =
        (k : ℕ) × (k ≤ left)
        × (rounds F uniform answer max_retries (suc left) attempt sleeps
            ≡ some (outcome_of (answer (attempt + k)), sleeps ++ waits_before attempt k))
        × ((i : ℕ) → i < k → is_transient (answer (attempt + i)) ≡ true)
        × ((is_transient (answer (attempt + k)) ≡ false) ⊎ (k ≡ left))

    settle_at_once :
        (left attempt : ℕ) (sleeps : List Float)
        → (rounds F uniform answer max_retries (suc left) attempt sleeps
            ≡ some (outcome_of (answer attempt), sleeps))
        → (is_transient (answer attempt) ≡ false) ⊎ (0 ≡ left)
        → Settled left attempt sleeps
    settle_at_once left attempt sleeps ran last =
        let e : attempt + 0 ≡ attempt = omega arith in
        (0, omega arith, rw e (rw append-nil ran), λ i l. absurd (omega arith), rw e last)

    rounds_suc :
        (left attempt : ℕ) (sleeps : List Float)
        → is_transient (answer attempt) ≡ true
        → attempt + suc left ≡ max_retries
        → Settled left
            (attempt + 1)
            (sleeps ++ sleep_for F uniform (attempt + 1) (retry_after_of (answer attempt)) ∷ [])
        → Settled (suc left) attempt sleeps
    unfolding rounds
    rounds_suc left attempt sleeps again budget (k, within, ran, before, last) =
        let shift : (i : ℕ) → attempt + 1 + i ≡ attempt + suc i = λ i. omega arith in
        (
          suc k,
          omega arith,
          go_on (suc left) attempt sleeps (answer attempt) again (ground arith)
              ∙ ran
              ∙ rw (shift k, append_assoc) refl,
          λ i l. earlier i l,
          rw (← shift k) (elim last [ inl final ↦ inl final | inr e ↦ inr (omega arith) ]),
        )
      where
        earlier : (i : ℕ) → i < suc k → is_transient (answer (attempt + i)) ≡ true
        earlier zero l = let e : attempt + 0 ≡ attempt = omega arith in rw e again
        earlier (suc i) l =
            let e : attempt + 1 + i ≡ attempt + suc i = omega arith in
            rw (← e) (before i (omega arith))

    rounds_lem :
        (left attempt : ℕ) (sleeps : List Float)
        → attempt + left ≡ max_retries
        → Settled left attempt sleeps
    unfolding rounds
    rounds_lem zero attempt sleeps budget =
        settle_at_once zero attempt sleeps
          (give_up 0 attempt sleeps (answer attempt) (ground arith)) (inr refl)
    rounds_lem (suc left) attempt sleeps budget =
        elim (Bool-cases (is_transient (answer attempt))) [
          | inr final ↦
              settle_at_once (suc left) attempt sleeps
                (settle (suc left) attempt sleeps (answer attempt) final) (inl final)
          | inl again ↦
              rounds_suc left attempt sleeps again budget
                (rounds_lem left (attempt + 1) _ (omega arith))
        ]

    from_start :
        Settled max_retries 0 []
        → (k : ℕ) × (k ≤ max_retries)
          × (request F uniform answer max_retries ≡ some (outcome_of (answer k), waits_before 0 k))
          × ((i : ℕ) → i < k → is_transient (answer i) ≡ true)
          × ((is_transient (answer k) ≡ false) ⊎ (k ≡ max_retries))
    unfolding request
    from_start (k, within, ran, before, last) =
        let one : max_retries + 1 ≡ suc max_retries = omega arith in
        let plain : (i : ℕ) → 0 + i ≡ i = λ i. omega arith in
        (
          k,
          within,
          rw one (rw (plain k) at ran),
          λ i l. rw (plain i) at (before i l),
          rw (plain k) at last,
        )

    -- `_request` always comes to an outcome, after at most `max_retries` failed attempts: that of
    -- the first reply that is not worth another attempt, or of the last one, when all before it
    -- were; between them it waits what `_sleep_for` says for each of the failed replies.
    pub request_lem :
        (k : ℕ) × (k ≤ max_retries)
        × (request F uniform answer max_retries ≡ some (outcome_of (answer k), waits_before 0 k))
        × ((i : ℕ) → i < k → is_transient (answer i) ≡ true)
        × ((is_transient (answer k) ≡ false) ⊎ (k ≡ max_retries))
    request_lem = from_start (rounds_lem max_retries 0 [] (omega arith))
