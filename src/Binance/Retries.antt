-- ===== src/Binance/Retries.antt =====
-- How the loop of `_make_request` (src/exchanges/binance/adapter.py) ends.
use exchange_router_service.Prelude.{
  ℕ, zero, suc, ◌+◌, ◌≡◌, ◌≢◌, refl, ◌∙◌, String, true, false, none, some, ◌⊎◌, inl, inr,
}
use exchange_router_service.Errors.{Result}
use exchange_router_service.Upstream.{Verdict, settled, again}
use exchange_router_service.Binance.{Backoffs, Reply, verdict, pauses, continue, rounds}

module _ {A : Type 0} (host : String) (reply : ℕ → Reply A) (clock : ℕ → ℕ) where
  Verdict-cases :
      (v : Verdict A) → ((r : Result A) × (v ≡ settled r)) ⊎ ((v ≡ again true) ⊎ (v ≡ again false))
  Verdict-cases (settled r) = inl (r, refl)
  Verdict-cases (again true) = inr (inl refl)
  Verdict-cases (again false) = inr (inr refl)

  round :
      (fuel n retries : ℕ) (b : Backoffs) (v : Verdict A)
      → verdict (reply n) ≡ v
      → rounds host reply clock (suc fuel) n (suc retries) b
        ≡ continue host reply clock
            (λ left b'. rounds host reply clock fuel (n + 1) left b')
            (suc retries)
            v
            (pauses host (clock n) (reply n) b)
  unfolding rounds
  round fuel n retries b v e = rw (e, rounds)

  rounds_end :
      (retries n : ℕ) (b : Backoffs)
      → ((m : ℕ) → verdict (reply m) ≢ again false)
      → (r : Result A) × (b' : Backoffs) × (rounds host reply clock (suc retries) n retries b
          ≡ some (r, b'))
  unfolding rounds
  rounds_end zero n b counted = (_, b, refl)
  rounds_end (suc retries) n b counted = elim (Verdict-cases (verdict (reply n))) [
    | inl (r, e) ↦
        (r, pauses host (clock n) (reply n) b, round (suc retries) n retries b (settled r) e)
    | inr (inl e) ↦
        let (r, b', ran) = rounds_end retries (n + 1) (pauses host (clock n) (reply n) b) counted in
        (r, b', round (suc retries) n retries b (again true) e ∙ ran)
    | inr (inr e) ↦ absurd (counted n e)
  ]

  -- Where no reply is a success other than 200, `_make_request` comes to a result or an exception
  -- after three requests at the most.
  requests_end :
      (b : Backoffs)
      → ((n : ℕ) → verdict (reply n) ≢ again false)
      → (r : Result A) × (b' : Backoffs) × (rounds host reply clock 4 0 3 b ≡ some (r, b'))
  requests_end b counted = rounds_end 3 0 b counted

  uncounted :
      (fuel n retries : ℕ) (b : Backoffs)
      → ((m : ℕ) → verdict (reply m) ≡ again false)
      → rounds host reply clock fuel n (suc retries) b ≡ none
  unfolding rounds
  uncounted zero n retries b odd = refl
  uncounted (suc fuel) n retries b odd =
      round fuel n retries b (again false) (odd n)
      ∙ uncounted fuel (n + 1) retries (pauses host (clock n) (reply n) b) odd

  -- A host that answers each request with a success other than 200 is asked again and again: no
  -- number of rounds is enough, since such an answer does not count as a failed attempt.
  pub uncounted_success :
      (b : Backoffs)
      → ((n : ℕ) → verdict (reply n) ≡ again false)
      → (fuel : ℕ) → rounds host reply clock fuel 0 3 b ≡ none
  uncounted_success b odd fuel = uncounted fuel 0 2 b odd
