-- ===== src/Client/Service.antt =====
-- The client against the service: what `_request` of client/exchange_router_client/_core.py comes to
-- when the routes of src/main.py raise.
use exchange_router_service.Prelude.{
  ℕ, zero, suc, ◌+◌, ◌≤◌, ◌<◌, max, ◌≡◌, refl, ◌∙◌, ap, sym, ◌⊎◌, inl, inr, String, Bool, true,
  false, Option, none, some, List, [], ◌∷◌, if◌then◌else◌, nat_eq, arith,
}
use exchange_router_service.Prelude.Int.{ℤ, pos, negsuc, ltb_ℤ}
use exchange_router_service.Floats.{Floats}
use exchange_router_service.Errors.{
  Error, upstream_unavailable, value_error, validation_error, not_implemented, http_status_error,
  transport_error, http_exception, attribute_error, other,
}
use exchange_router_service.Router.Status.{header, respond}
use exchange_router_service.Client.Errors.{
  ClientError, router_error, bad_request, not_found, upstream_unavailable_error, not_supported,
  error_for_status, is_retried,
}
use exchange_router_service.Client.Requests.{Reply, status_error, failed, sleep_for, request}
use exchange_router_service.Client.Retries.{
  is_transient, outcome_of, retry_after_of, waits_before, request_lem,
}

-- the routes raise an `HTTPException` with 404 or 400 only
abbrev pub IsRaised : Error → Type 0
IsRaised (http_exception status) = (status ≡ 404) ⊎ (status ≡ 400)
IsRaised e = Unit

abbrev read_as : {A : Type 0} → (ℤ → A) → Option ℤ → Option A
read_as f none = none
read_as f (some t) = some (f t)

-- It is not the request that is at fault: an exchange fails, or the service does.
abbrev pub is_failure : Error → Bool
is_failure value_error = false
is_failure not_implemented = false
is_failure (http_exception status) = false
is_failure e = true

abbrev at_least_one : ℤ → ℤ
at_least_one (pos n) = pos (max n 1)
at_least_one (negsuc n) = pos 1

raised_to_one : (t : ℤ) → (if ltb_ℤ t (pos 1) then pos 1 else t) ≡ at_least_one t
raised_to_one (pos n) = ground arith
raised_to_one (negsuc n) = ground arith

module _ {Body : Type 0} (F : Floats) (detail : String) where
  open F use {Float, of_int}

  -- the response to an exception, as the client reads it
  abbrev reply_to : Error → Reply Body Float
  reply_to e = status_error (respond e).status detail (read_as of_int (respond e).retry_after)

module _ (F : Floats) (detail : String) where
  open F use {Float, of_int}

  -- the client's exception for one of the service
  abbrev pub client_error : Error → ClientError Float
  client_error (upstream_unavailable none) = upstream_unavailable_error detail (some 503) none
  client_error (upstream_unavailable (some t)) =
      upstream_unavailable_error detail (some 503) (some (of_int (at_least_one t)))
  client_error value_error = bad_request detail (some 400)
  client_error validation_error = router_error detail (some 502)
  client_error not_implemented = not_supported detail (some 501)
  client_error (http_exception status) =
      if nat_eq status 404 then not_found detail (some 404) else bad_request detail (some 400)
  client_error e = router_error detail (some 500)

module _ (F : Floats) (uniform : ℕ → F.Float) where
  open F use {Float, add, mul, of_int, lt}

  -- the wait after the n-th failure: the time that the service names, a minute at the most; otherwise
  -- `n` seconds and a part of a second
  abbrev wait_after : ℕ → Error → Float
  wait_after n (upstream_unavailable (some t)) =
      if lt (of_int (pos 60)) (of_int (at_least_one t))
      then of_int (pos 60)
      else of_int (at_least_one t)
  wait_after n e = add (mul (of_int (pos 1)) (of_int (pos n))) (uniform n)

  abbrev pub waits_after : (ℕ → Error) → ℕ → ℕ → List Float
  waits_after raised n zero = []
  waits_after raised n (suc k) = wait_after (n + 1) (raised n) ∷ waits_after raised (n + 1) k

module _ (Body : Type 0) (F : Floats) (uniform : ℕ → F.Float) (detail : String) where
  open F use {Float, of_int, lt}

  -- the response as one that carries a body would be
  abbrev reply : Error → Reply Body Float
  reply = reply_to F detail

  outcome_of-reply_to :
      (e : Error) → IsRaised e → outcome_of (reply e) ≡ failed (client_error F detail e)
  unfolding respond error_for_status header
  outcome_of-reply_to (upstream_unavailable none) h = refl
  outcome_of-reply_to (upstream_unavailable (some t)) h =
      ap (λ u. failed (upstream_unavailable_error detail (some 503) (some (of_int u))))
        (raised_to_one t)
  outcome_of-reply_to value_error h = refl
  outcome_of-reply_to validation_error h = refl
  outcome_of-reply_to not_implemented h = refl
  outcome_of-reply_to http_status_error h = refl
  outcome_of-reply_to transport_error h = refl
  outcome_of-reply_to (http_exception status) (inl e) = rw e refl
  outcome_of-reply_to (http_exception status) (inr e) = rw e refl
  outcome_of-reply_to attribute_error h = refl
  outcome_of-reply_to other h = refl

  is_transient-reply_to : (e : Error) → IsRaised e → is_transient (reply e) ≡ is_failure e
  unfolding respond is_retried
  is_transient-reply_to (upstream_unavailable t) h = refl
  is_transient-reply_to value_error h = refl
  is_transient-reply_to validation_error h = refl
  is_transient-reply_to not_implemented h = refl
  is_transient-reply_to http_status_error h = refl
  is_transient-reply_to transport_error h = refl
  is_transient-reply_to (http_exception status) (inl e) = rw e refl
  is_transient-reply_to (http_exception status) (inr e) = rw e refl
  is_transient-reply_to attribute_error h = refl
  is_transient-reply_to other h = refl

  sleep_for-reply_to :
      (n : ℕ) (e : Error)
      → sleep_for F uniform n (retry_after_of (reply e)) ≡ wait_after F uniform n e
  unfolding respond sleep_for header
  sleep_for-reply_to n (upstream_unavailable none) = refl
  sleep_for-reply_to n (upstream_unavailable (some t)) =
      ap (λ u. if lt (of_int (pos 60)) (of_int u) then of_int (pos 60) else of_int u)
        (raised_to_one t)
  sleep_for-reply_to n value_error = refl
  sleep_for-reply_to n validation_error = refl
  sleep_for-reply_to n not_implemented = refl
  sleep_for-reply_to n http_status_error = refl
  sleep_for-reply_to n transport_error = refl
  sleep_for-reply_to n (http_exception status) = refl
  sleep_for-reply_to n attribute_error = refl
  sleep_for-reply_to n other = refl

module _ (Body : Type 0) (F : Floats) (uniform : ℕ → F.Float) (detail : ℕ → String)
    (raised : ℕ → Error) (max_retries : ℕ) where
  -- the response to the i-th attempt
  abbrev pub reply_at : ℕ → Reply Body F.Float
  reply_at i = reply_to F (detail i) (raised i)

  waits_before-reply_to :
      (n k : ℕ) → waits_before F uniform reply_at max_retries n k ≡ waits_after F uniform raised n k
  waits_before-reply_to n zero = refl
  waits_before-reply_to n (suc k) =
      rw
        (
          sleep_for-reply_to Body F uniform (detail n) (n + 1) (raised n),
          waits_before-reply_to (n + 1) k,
        )
        refl

  -- Let the service raise `raised i`, with the text `detail i`, at the client's i-th attempt, an
  -- `HTTPException` with 404 or 400 only. Then the client's request comes to the client's exception
  -- for what was raised last, with its text: a `BadRequest` for a `ValueError` or an unsupported
  -- market, a `NotFound` for an unknown exchange and a `NotSupported` for a missing method, at the
  -- first such answer; otherwise, after `max_retries` further attempts, an `UpstreamUnavailable` for
  -- that of the service, with a wait of at least a second where the service named one, or else a
  -- `RouterError`. After each failed attempt but the last it waits as long as the service said, a
  -- minute at the most, or else a second for each failure so far and a part of a second.
  pub request-reply_to :
      ((i : ℕ) → IsRaised (raised i))
      → (k : ℕ) × (k ≤ max_retries)
        × (request F uniform reply_at max_retries
            ≡ some
                (failed (client_error F (detail k) (raised k)), waits_after F uniform raised 0 k))
        × ((i : ℕ) → i < k → is_failure (raised i) ≡ true)
        × ((is_failure (raised k) ≡ false) ⊎ (k ≡ max_retries))
  request-reply_to known =
      let (k, within, ran, before, last) = request_lem F uniform reply_at max_retries in
      (
        k,
        within,
        rw
            (
              outcome_of-reply_to Body F uniform (detail k) (raised k) (known k),
              waits_before-reply_to 0 k,
            )
            at ran,
        λ i l.
            sym (is_transient-reply_to Body F uniform (detail i) (raised i) (known i)) ∙ before i l,
        elim last [
          | inl final ↦
              inl
                (sym (is_transient-reply_to Body F uniform (detail k) (raised k) (known k)) ∙ final)
          | inr e ↦ inr e
        ],
      )
