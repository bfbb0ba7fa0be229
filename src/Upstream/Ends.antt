-- ===== src/Upstream/Ends.antt =====
-- How the request loops of the adapters end.
use exchange_router_service.Prelude.{
  sym, subst, ℕ, zero, suc, ◌+◌, ◌-◌, ◌≤◌, ◌<◌, max, ◌≡◌, ◌≢◌, refl, ap, true, false, Option, some,
  [], ◌∷◌, length, All, ◌⊎◌, inl, inr, Bool-cases, ltb, arith,
}
use exchange_router_service.Prelude.Int.{ℤ}
use exchange_router_service.Errors.{Result, raise, upstream_unavailable}
use exchange_router_service.Upstream.{
  Verdict, settled, again, Round, Run, with_sent, seen, departure, paused, rounds, remaining,
}

module _ {A : Type 0} where
  Verdict-cases :
      (v : Verdict A) → ((r : Result A) × (v ≡ settled r)) ⊎ ((v ≡ again true) ⊎ (v ≡ again false))
  Verdict-cases (settled r) = inl (r, refl)
  Verdict-cases (again true) = inr (inl refl)
  Verdict-cases (again false) = inr (inr refl)

-- `polite` says of a request that it did not go before the backoff that its call had seen.
abbrev pub Polite : ℕ × ℕ → Type 0
Polite request = request.0 ≤ request.1

module _ {A Reply : Type 0} (longest : ℕ) (verdict : Reply → Verdict A)
    (pause : ℕ → ℕ → Reply → ℕ → ℕ) (round : ℕ → Round Reply) where
  -- How a call ends that starts at round `n`, with `retries` left and a backoff until `until`: with
  -- the result of its last reply or with `UpstreamUnavailableError`; after no more requests than
  -- retries, none of them within the backoff that was seen; and no backoff is shortened.
  pub record IsEnded (n retries until : ℕ) (run : Run A) : Type 0 where
    pub result : Result A
    pub returned : run.result ≡ some result
    pub known :
        ((k : ℕ) × (k < retries) × (verdict (round (n + k)).reply ≡ settled result))
        ⊎ ((t : Option ℤ) × (result ≡ raise (upstream_unavailable t)))
    pub few : length run.sent ≤ retries
    pub polite : All Polite run.sent
    pub kept : until ≤ run.until

  pub react-settled :
      (fuel n retries until : ℕ) (r : Result A)
      → ltb ((round n).start + longest) (seen longest verdict pause round n until) ≡ false
      → verdict (round n).reply ≡ settled r
      → rounds longest verdict pause round (suc fuel) n (suc retries) until ≡ record {
        result = some r;
        until = paused longest verdict pause round n (suc retries) until;
        sent =
            (
              seen longest verdict pause round n until,
              departure longest verdict pause round n until,
            )
            ∷ [];
      }
  unfolding rounds
  react-settled fuel n retries until r short e = rw (short, e) refl

  react-again :
      (fuel n retries until : ℕ)
      → ltb ((round n).start + longest) (seen longest verdict pause round n until) ≡ false
      → verdict (round n).reply ≡ again true
      → rounds longest verdict pause round (suc fuel) n (suc retries) until
        ≡ with_sent
            (
              seen longest verdict pause round n until,
              departure longest verdict pause round n until,
            )
            (rounds longest verdict pause round fuel
              (n + 1)
              retries
              (paused longest verdict pause round n (suc retries) until))
  unfolding rounds
  react-again fuel n retries until short e =
      let left : suc retries - 1 ≡ retries = omega arith in
      rw (short, e)
        (ap
          (λ (m : ℕ).
            with_sent
              (
                seen longest verdict pause round n until,
                departure longest verdict pause round n until,
              )
              (rounds longest verdict pause round fuel (n + 1) m
                (paused longest verdict pause round n (suc retries) until)))
          left)

  pub react-refused :
      (fuel n retries until : ℕ)
      → ltb ((round n).start + longest) (seen longest verdict pause round n until) ≡ true
      → rounds longest verdict pause round (suc fuel) n (suc retries) until ≡ record {
        result = some (
            raise (
              upstream_unavailable
                (remaining (round n).start (seen longest verdict pause round n until))));
        until = seen longest verdict pause round n until;
        sent = [];
      }
  unfolding rounds
  react-refused fuel n retries until long = rw long refl

  module _
      (pause_grows : (retries now until : ℕ) (reply : Reply)
        → until ≤ pause retries now reply until)
      (counted : (n : ℕ) → verdict (round n).reply ≢ again false) where
    no_retries : (n until : ℕ) → IsEnded n 0 until (rounds longest verdict pause round 1 n 0 until)
    unfolding rounds
    no_retries n until = record {
      result = raise (
          upstream_unavailable
            (remaining (round n).start (seen longest verdict pause round n until)));
      returned = refl;
      known = inr (_, refl);
      few = omega arith;
      polite = tt;
      kept = omega arith;
    }

    departure-Polite :
        (n until : ℕ)
        → seen longest verdict pause round n until ≤ departure longest verdict pause round n until
    departure-Polite n until = ground arith

    paused_grows :
        (n retries until : ℕ) → until ≤ paused longest verdict pause round n retries until
    paused_grows n retries until = omega (
      arith,
      pause_grows retries (round n).arrived
          (max (seen longest verdict pause round n until) (round n).meanwhile) (round n).reply,
    )

    later_known :
        (n retries : ℕ) (r : Result A)
        → ((k : ℕ) × (k < retries) × (verdict (round (n + 1 + k)).reply ≡ settled r))
          ⊎ ((t : Option ℤ) × (r ≡ raise (upstream_unavailable t)))
        → ((k : ℕ) × (k < suc retries) × (verdict (round (n + k)).reply ≡ settled r))
          ⊎ ((t : Option ℤ) × (r ≡ raise (upstream_unavailable t)))
    later_known n retries r (inl (k, below, e)) =
        let same : n + 1 + k ≡ n + (k + 1) = omega arith in
        inl (k + 1, omega arith, subst (λ (m : ℕ). verdict (round m).reply ≡ settled r) same e)
    later_known n retries r (inr unavailable) = inr unavailable

    -- Where no reply is a success other than 200, and a reply shortens no backoff, a call ends after
    -- as many rounds as it has retries, and one more.
    pub rounds-IsEnded :
        (retries n until : ℕ)
        → IsEnded n retries until (rounds longest verdict pause round (suc retries) n retries until)
    rounds-IsEnded zero n until = no_retries n until
    rounds-IsEnded (suc retries) n until =
        elim (Bool-cases
          (ltb ((round n).start + longest) (seen longest verdict pause round n until))) [
            | inl long ↦
                let t = remaining (round n).start (seen longest verdict pause round n until) in
                subst (IsEnded n (suc retries) until)
                  (sym (react-refused (suc retries) n retries until long))
                  (record {
                    result = raise (upstream_unavailable t);
                    returned = refl;
                    known = inr (t, refl);
                    few = omega arith;
                    polite = tt;
                    kept = omega arith;
                  })
            | inr short ↦ elim (Verdict-cases (verdict (round n).reply)) [
              | inl (r, e) ↦
                  let here : n ≡ n + 0 = omega arith in
                  subst (IsEnded n (suc retries) until)
                    (sym (react-settled (suc retries) n retries until r short e))
                    (record {
                      result = r;
                      returned = refl;
                      known = inl (
                        0,
                        omega arith,
                        subst (λ (m : ℕ). verdict (round m).reply ≡ settled r) here e,
                      );
                      few = omega arith;
                      polite = (departure-Polite n until, tt);
                      kept = paused_grows n (suc retries) until;
                    })
              | inr (inl e) ↦
                  let ih =
                    rounds-IsEnded retries (n + 1)
                      (paused longest verdict pause round n (suc retries) until) in
                  subst (IsEnded n (suc retries) until)
                    (sym (react-again (suc retries) n retries until short e))
                    (record {
                      result = ih.result;
                      returned = ih.returned;
                      known = later_known n retries ih.result ih.known;
                      few = omega (arith, ih.few);
                      polite = (departure-Polite n until, ih.polite);
                      kept = omega (arith, ih.kept, paused_grows n (suc retries) until);
                    })
              | inr (inr e) ↦ absurd (counted n e)
            ]
          ]
