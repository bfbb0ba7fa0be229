-- ===== src/Bybit/Bans.antt =====
-- How a request to Bybit ends (`_make_request` of src/exchanges/bybit/adapter.py), and what a ban does
-- to those that follow.
use exchange_router_service.Prelude.{
  sym, subst, ◌⊎◌, inl, inr, Option, lt→ltb, ap, ◌∙◌, ◌/◌, length, ℕ, suc, ◌+◌, ◌-◌, ◌≤◌, ◌<◌, max,
  ◌≡◌, ◌≢◌, refl, Bool, true, false, none, some, [], ◌&&◌, not, leb, nat_eq, nat_eq_iff, ◌∷◌, ltb,
  arith,
}
use exchange_router_service.Prelude.Int.{ℤ, pos}
use exchange_router_service.Errors.{Error, Result, ok, upstream_unavailable, raise, raise_not_ok}
use exchange_router_service.Upstream.{
  again, settled, of_status, Round, Run, rounds, remaining, paused, departure,
}
use exchange_router_service.Upstream.Ends.{IsEnded, rounds-IsEnded, react-settled, react-refused}
use exchange_router_service.Bybit.{
  Body, Reset, Reply, response, bad_value, broken, not_json, malformed, code, read, verdict, pause,
  pause_status, make_request, unread,
}

remaining-some : (now t : ℕ) → now < t → remaining now t ≡ some (pos ((t - now) / 1000))
unfolding remaining
remaining-some now t h = rw (lt→ltb _ _ h) refl

module _ {A : Type 0} where
  pause_grows : (retries now until : ℕ) (reply : Reply A) → until ≤ pause retries now reply until
  unfolding pause pause_status
  pause_grows retries now until bad_value = ground arith
  pause_grows retries now until broken = ground arith
  pause_grows retries now until (response status limit reset body) = ground arith

  -- a response with a status of success that is not 200: `raise_for_status` does not raise
  abbrev pub is_other_success : Reply A → Bool
  is_other_success bad_value = false
  is_other_success broken = false
  is_other_success (response status limit reset body) =
      leb 200 status && ltb status 300 && not (nat_eq status 200)

  -- a body never makes the loop go round again uncounted
  read_counted : (body : Body A) → read body ≢ again false
  unfolding read
  read_counted not_json h = cc
  read_counted malformed h = cc
  read_counted (code n has_message none) h = ground arith
  read_counted (code n has_message (some a)) h = ground arith

  -- every other reply settles the request or takes one of its retries
  verdict_counted : (reply : Reply A) → is_other_success reply ≡ false → verdict reply ≢ again false
  unfolding verdict of_status
  verdict_counted bad_value usual h = cc
  verdict_counted broken usual h = cc
  verdict_counted (response status limit reset body) usual h =
      ground (arith, read_counted body, nat_eq_iff status 200)

  -- the reply is a 200 whose body has the return code 0 and the result
  abbrev pub Carries : Reply A → A → Type 0
  Carries bad_value a = true ≡ false
  Carries broken a = true ≡ false
  Carries (response status limit reset body) a =
      (status ≡ 200) × ((has_message : Bool) × (body ≡ code 0 has_message (some a)))

  read-ok :
      (body : Body A) (a : A)
      → read body ≡ settled (ok a)
      → (has_message : Bool) × (body ≡ code 0 has_message (some a))
  unfolding read
  read-ok not_json a h = cc
  read-ok malformed a h = cc
  read-ok (code n has_message none) a h = ground arith
  read-ok (code n has_message (some b)) a h = (has_message, ground (arith, nat_eq_iff n 0))

  verdict-ok : (reply : Reply A) (a : A) → verdict reply ≡ settled (ok a) → Carries reply a
  unfolding verdict of_status
  verdict-ok bad_value a h = cc
  verdict-ok broken a h = cc
  verdict-ok (response status limit reset body) a h =
      (ground (arith, nat_eq_iff status 200), read-ok body a (ground arith))

  -- Where no reply is a success other than 200, a request to Bybit comes to a result or to an
  -- exception, after three calls of the upstream at the most. Either it raises, or it returns the
  -- result that one of the first three replies carries, a 200 with the return code 0.
  pub bybit_request-IsEnded :
      (round : ℕ → Round (Reply A)) (until : ℕ)
      → ((n : ℕ) → is_other_success (round n).reply ≡ false)
      → IsEnded 30_000 verdict pause round 0 3 until (make_request round until)
        × (((err : Error) × ((make_request round until).result ≡ some (raise err)))
            ⊎ ((a : A) × (k : ℕ) × ((make_request round until).result ≡ some (ok a))
                × (k < 3)
                × Carries (round k).reply a))
  unfolding make_request
  bybit_request-IsEnded round until usual =
      let run =
        rounds-IsEnded 30_000 verdict pause round pause_grows
          (λ n. verdict_counted (round n).reply (usual n)) 3 0 until in
      (run, ends run.result run.returned run.known)
    where
      ends :
          (r : Result A) {o : Option (Result A)}
          → o ≡ some r
          → ((k : ℕ) × (k < 3) × (verdict (round (0 + k)).reply ≡ settled r))
            ⊎ ((t : Option ℤ) × (r ≡ raise (upstream_unavailable t)))
          → ((err : Error) × (o ≡ some (raise err)))
            ⊎ ((a : A) × (k : ℕ) × (o ≡ some (ok a)) × (k < 3) × Carries (round k).reply a)
      ends (raise err) e known = inl (err, e)
      ends (ok a) e (inl (k, below, v)) =
          let same : 0 + k ≡ k = omega arith in
          inr (
            a,
            k,
            e,
            below,
            verdict-ok (round k).reply a
                (subst (λ (m : ℕ). verdict (round m).reply ≡ settled (ok a)) same v),
          )
      ends (ok a) e (inr (t, v)) = absurd (raise_not_ok (sym v))

  pause_banned :
      (retries now until : ℕ) (left : ℕ) (reset : Reset) (body : Body A)
      → unread (some left) reset ≡ false
      → now + 600_000 ≤ pause retries now (response 403 (some left) reset body) until
  unfolding pause pause_status
  pause_banned retries now until left reset body h = ground arith

  verdict_banned :
      (left : ℕ) (reset : Reset) (body : Body A)
      → unread (some left) reset ≡ false
      → verdict (response 403 (some left) reset body)
        ≡ settled (raise (upstream_unavailable (some (pos 600))))
  unfolding verdict
  verdict_banned left reset body h = rw h refl

  -- the rest of a call from round `n` on
  abbrev pub rest_of : (ℕ → Round (Reply A)) → ℕ → ℕ → ℕ → ℕ → Run A
  rest_of round fuel n retries until = rounds 30_000 verdict pause round fuel n retries until

  banned_until :
      (round : ℕ → Round (Reply A)) (fuel n retries until left : ℕ) (reset : Reset) (body : Body A)
      → unread (some left) reset ≡ false
      → (round n).reply ≡ response 403 (some left) reset body
      → ltb ((round n).start + 30_000) (max until (round n).before) ≡ false
      → (rest_of round (suc fuel) n (suc retries) until ≡ record {
        result = some (raise (upstream_unavailable (some (pos 600))));
        until = paused 30_000 verdict pause round n (suc retries) until;
        sent = (max until (round n).before, departure 30_000 verdict pause round n until) ∷ [];
      })
        × ((round n).arrived + 600_000 ≤ paused 30_000 verdict pause round n (suc retries) until)
  banned_until round fuel n retries until left reset body h e short = (
    react-settled 30_000 verdict pause round fuel n retries until _ short
        (ap verdict e ∙ verdict_banned left reset body h),
    rw e (
        pause_banned (suc retries) (round n).arrived
          (max (max until (round n).before) (round n).meanwhile) left reset body h),
  )

  -- A call that is answered with a 403, in any of its rounds, raises `UpstreamUnavailableError` with a
  -- retry after ten minutes, and asks no more. From then on, whatever other calls do to the backoff
  -- in between (they can only raise it), a call that starts more than 30 seconds before the ten
  -- minutes are over asks nothing: it raises `UpstreamUnavailableError` with the seconds that are
  -- left of the backoff. The headers of the 403 must be readable.
  pub ban_lem :
      (round : ℕ → Round (Reply A)) (fuel n retries until left : ℕ) (reset : Reset) (body : Body A)
      → unread (some left) reset ≡ false
      → (round n).reply ≡ response 403 (some left) reset body
      → ltb ((round n).start + 30_000) (max until (round n).before) ≡ false
      → (next : ℕ → Round (Reply A)) (until' : ℕ)
      → (rest_of round (suc fuel) n (suc retries) until).until ≤ until'
      → (next 0).start + 30_000 < (round n).arrived + 600_000
      → ((rest_of round (suc fuel) n (suc retries) until).result
          ≡ some (raise (upstream_unavailable (some (pos 600)))))
        × (length (rest_of round (suc fuel) n (suc retries) until).sent ≡ 1)
        × ((make_request next until').result
            ≡ some (
                raise (
                  upstream_unavailable
                    (some (pos ((max until' (next 0).before - (next 0).start) / 1000))))))
        × ((make_request next until').sent ≡ [])
  unfolding make_request
  ban_lem round fuel n retries until left reset body h e short next until' kept soon =
      let (ran, long) = banned_until round fuel n retries until left reset body h e short in
      let over : (next 0).start + 30_000 < max until' (next 0).before =
        omega (arith, ap (λ (r : Run A). r.until) ran, long, kept) in
      let refusal = react-refused 30_000 verdict pause next 3 0 2 until' (lt→ltb _ _ over) in
      (
        ap (λ (r : Run A). r.result) ran,
        ap (λ (r : Run A). length r.sent) ran,
        ap (λ (r : Run A). r.result) refusal
            ∙ ap (λ t. some (raise (upstream_unavailable t)))
                (remaining-some (next 0).start (max until' (next 0).before) (omega (arith, over))),
        ap (λ (r : Run A). r.sent) refusal,
      )
