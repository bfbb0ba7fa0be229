-- ===== src/Kraken/Attempts.antt =====
-- How the attempts of `_make_request` (src/exchanges/kraken/adapter.py) end.
use exchange_router_service.Prelude.{
  ℕ, zero, suc, ◌+◌, ◌≤◌, ◌<◌, ◌≡◌, refl, Bool, Option, none, some, [], inl, inr, ◌⊎◌, arith, ◌∙◌,
  ap, length,
}
use exchange_router_service.Errors.{upstream_unavailable, Result, ok, raise}
use exchange_router_service.Router.Status.{respond}
use exchange_router_service.Kraken.Requests.{
  Content, not_json, rate_limited, spot_error, futures_error, payload, Reply, response, broken,
  Verdict, again, settled, read, verdict, attempts, make_request, budget,
}

module _ {A : Type 0} where
  Transient : Reply A → Type 0
  Transient r = (b : Option (Option ℕ × Bool)) × (verdict r ≡ again b)

  Verdict-cases :
      (v : Verdict A)
      → ((b : Option (Option ℕ × Bool)) × (v ≡ again b)) ⊎ ((r : Result A) × (v ≡ settled r))
  Verdict-cases (again b) = inl (b, refl)
  Verdict-cases (settled r) = inr (r, refl)

  -- how a run of attempts comes out
  Ends : (ℕ → Reply A) → ℕ → ℕ → Type 0
  Ends answer left attempt =
      ((k : ℕ) × (r : Result A) × (k < left)
        × ((i : ℕ) → i < k → Transient (answer (attempt + i)))
        × (verdict (answer (attempt + k)) ≡ settled r)
        × ((attempts answer left attempt).0 ≡ r)
        × (length (attempts answer left attempt).1 ≤ k))
      ⊎ (((i : ℕ) → i < left → Transient (answer (attempt + i)))
          × ((attempts answer left attempt).0 ≡ raise (upstream_unavailable none))
          × (length (attempts answer left attempt).1 ≤ left))

  attempts-settled :
      (answer : ℕ → Reply A) (left attempt : ℕ) (r : Result A)
      → verdict (answer attempt) ≡ settled r
      → attempts answer (suc left) attempt ≡ (r, [])
  unfolding attempts
  attempts-settled answer left attempt r e = rw (e, attempts)

  attempts-again :
      (answer : ℕ → Reply A) (left attempt : ℕ) (b : Option (Option ℕ × Bool))
      → verdict (answer attempt) ≡ again b
      → ((attempts answer (suc left) attempt).0 ≡ (attempts answer left (attempt + 1)).0)
        × (length (attempts answer (suc left) attempt).1
            ≤ length (attempts answer left (attempt + 1)).1 + 1)
  unfolding attempts
  attempts-again answer left attempt none e = rw (e, attempts) (refl, omega arith)
  attempts-again answer left attempt (some (until, strong)) e = rw (e, attempts) (refl, omega arith)

  from_next :
      (answer : ℕ → Reply A) (left attempt : ℕ)
      → Transient (answer attempt)
      → ((i : ℕ) → i < left → Transient (answer (attempt + 1 + i)))
      → (i : ℕ) → i < suc left
      → Transient (answer (attempt + i))
  unfolding Transient
  from_next answer left attempt first rest zero l =
      let e : attempt + 0 ≡ attempt = omega arith in rw e first
  from_next answer left attempt first rest (suc i) l =
      let e : attempt + 1 + i ≡ attempt + suc i = omega arith in rw (← e) (rest i (omega arith))

  go_again :
      (answer : ℕ → Reply A) (left attempt : ℕ) (b : Option (Option ℕ × Bool))
      → verdict (answer attempt) ≡ again b
      → Ends answer left (attempt + 1)
      → Ends answer (suc left) attempt
  unfolding Ends Transient
  go_again answer left attempt b e (inl (k, r, within, before, last, out, count)) =
      let (same, more) = attempts-again answer left attempt b e in
      let shift : attempt + 1 + k ≡ attempt + suc k = omega arith in
      inl (
        suc k,
        r,
        omega arith,
        from_next answer k attempt (b, e) before,
        rw (← shift) last,
        same ∙ out,
        omega (arith, more, count),
      )
  go_again answer left attempt b e (inr (all, out, count)) =
      let (same, more) = attempts-again answer left attempt b e in
      inr (from_next answer left attempt (b, e) all, same ∙ out, omega (arith, more, count))

  attempts_lem : (answer : ℕ → Reply A) (left attempt : ℕ) → Ends answer left attempt
  unfolding Ends attempts
  attempts_lem answer zero attempt = inr (λ i l. absurd (omega arith), refl, omega arith)
  attempts_lem answer (suc left) attempt = elim (Verdict-cases (verdict (answer attempt))) [
    | inl (b, e) ↦ go_again answer left attempt b e (attempts_lem answer left (attempt + 1))
    | inr (r, e) ↦
        let start : attempt + 0 ≡ attempt = omega arith in
        let done = attempts-settled answer left attempt r e in
        inl (
          0,
          r,
          omega arith,
          λ i l. absurd (omega arith),
          rw start e,
          ap (λ p. p.0) done,
          rw done (omega arith),
        )
  ]

  from_start :
      (answer : ℕ → Reply A) (is_spot : Bool)
      → Ends answer (budget is_spot) 0
      → ((k : ℕ) × (r : Result A) × (k < budget is_spot)
          × ((i : ℕ) → i < k → (b : Option (Option ℕ × Bool)) × (verdict (answer i) ≡ again b))
          × (verdict (answer k) ≡ settled r)
          × ((make_request answer is_spot).0 ≡ r)
          × (length (make_request answer is_spot).1 ≤ k))
        ⊎ (((i : ℕ)
              → i < budget is_spot
              → (b : Option (Option ℕ × Bool)) × (verdict (answer i) ≡ again b))
            × ((make_request answer is_spot).0 ≡ raise (upstream_unavailable none))
            × (length (make_request answer is_spot).1 ≤ budget is_spot))
  unfolding make_request Ends Transient
  from_start answer is_spot (inl (k, r, within, before, last, out, count)) =
      let plain_index : (i : ℕ) → 0 + i ≡ i = λ i. omega arith in
      inl (
        k,
        r,
        within,
        λ i l. rw (plain_index i) at (before i l),
        rw (plain_index k) at last,
        out,
        count,
      )
  from_start answer is_spot (inr (all, out, count)) =
      let plain_index : (i : ℕ) → 0 + i ≡ i = λ i. omega arith in
      inr (λ i l. rw (plain_index i) at (all i l), out, count)

  -- `_make_request` gives what the first reply that needs no further attempt says, if one of the
  -- eight (for the spot API) or five comes; otherwise it raises `UpstreamUnavailableError`. It sets
  -- at most one backoff for each failed attempt.
  pub make_request_lem :
      (answer : ℕ → Reply A) (is_spot : Bool)
      → ((k : ℕ) × (r : Result A) × (k < budget is_spot)
          × ((i : ℕ) → i < k → (b : Option (Option ℕ × Bool)) × (verdict (answer i) ≡ again b))
          × (verdict (answer k) ≡ settled r)
          × ((make_request answer is_spot).0 ≡ r)
          × (length (make_request answer is_spot).1 ≤ k))
        ⊎ (((i : ℕ)
              → i < budget is_spot
              → (b : Option (Option ℕ × Bool)) × (verdict (answer i) ≡ again b))
            × ((make_request answer is_spot).0 ≡ raise (upstream_unavailable none))
            × (length (make_request answer is_spot).1 ≤ budget is_spot))
  make_request_lem answer is_spot =
      from_start answer is_spot (attempts_lem answer (budget is_spot) 0)

  -- the statuses that the service answers a result with, where it is an error
  abbrev Answered : Result A → Type 0
  Answered (ok a) = Unit
  Answered (raise e) = ((respond e).status ≡ 400) ⊎ ((respond e).status ≡ 503)

  read-Answered : (c : Content A) (r : Result A) → read c ≡ settled r → Answered r
  unfolding read respond
  read-Answered not_json r h = cc
  read-Answered (rate_limited until) r h = cc
  read-Answered spot_error r h = ground arith
  read-Answered futures_error r h = ground arith
  read-Answered (payload a) r h = ground arith

  verdict-Answered : (reply : Reply A) (r : Result A) → verdict reply ≡ settled r → Answered r
  unfolding verdict respond
  verdict-Answered broken r h = cc
  verdict-Answered (response status until content) r h = ground (arith, read-Answered content r)

  attempts-Answered :
      (answer : ℕ → Reply A) (left attempt : ℕ) → Answered (attempts answer left attempt).0
  unfolding attempts respond
  attempts-Answered answer zero attempt = inr refl
  attempts-Answered answer (suc left) attempt = elim (Verdict-cases (verdict (answer attempt))) [
    | inl (b, e) ↦
        rw ((attempts-again answer left attempt b e).0)
          (attempts-Answered answer left (attempt + 1))
    | inr (r, e) ↦
        rw (attempts-settled answer left attempt r e) (verdict-Answered (answer attempt) r e)
  ]

  -- A failed request is answered with 400 or with 503, never with an internal error.
  make_request-Answered :
      (answer : ℕ → Reply A) (is_spot : Bool) → Answered (make_request answer is_spot).0
  unfolding make_request
  make_request-Answered answer is_spot = attempts-Answered answer (budget is_spot) 0
