-- ===== src/Okx/Candles/Shape.antt =====
-- What `get_candles` of src/exchanges/okx/adapter.py returns, on each of its ways.
use exchange_router_service.Prelude.{
  ℕ, ◌-◌, ◌≤◌, ◌<◌, min, ◌≡◌, refl, ap, ◌∙◌, sym, subst, false, String, Option, none, some, List,
  [], ◌∷◌, ◌++◌, length, last_n, length-last_n, leb, Bool-cases, inl, inr, arith,
}
use exchange_router_service.Prelude.Int.{ℤ, pos, ◌-ℤ◌}
use exchange_router_service.Prelude.Sort.{sort_by, Sorted, sort_by-Sorted, Sorted-drop}
use exchange_router_service.Errors.{
  Result, ok, raise, map_result, ◌>>=◌, Result-cases, ok-injective, raise_not_ok,
}
use exchange_router_service.Adapter.Pagination.{paginate_backwards}
use exchange_router_service.Adapter.Pagination.Window.{paginate_shape}
use exchange_router_service.Okx.Candles.{
  combined, get_candles, with_history, fetch_recent, fetch_history, per_req, per_page, is_short,
  or_given,
}
use exchange_router_service.Okx.Candles.Joined.{Combined, combined-Combined}

module _ {A : Type 0} (timestamp : A → ℤ) (dump : A → String)
    (recent : Option ℤ → ℕ → Result (List A)) (history : ℕ → Option ℤ → ℕ → Result (List A))
    (start_time : Option ℤ) (limit : ℕ) where
  -- the pages before the first of the recent candles
  abbrev pub older : A → ℕ → Option ℤ → ℕ → Result (List A)
  older c n end_ts l =
      fetch_history timestamp dump recent history start_time limit n
        (or_given end_ts (some (timestamp c -ℤ pos 1))) l

  -- How candles come out: ordered, and within the limit.
  abbrev pub IsShaped : List A → Type 0
  IsShaped out = Sorted timestamp out × (length out ≤ limit)

  abbrev ShapedBy : Result (List A) → Type 0
  ShapedBy (ok out) = IsShaped out
  ShapedBy (raise e) = Unit

  bind-ShapedBy :
      (r : Result (List A)) (f : List A → Result (List A))
      → ((batch : List A) → r ≡ ok batch → ShapedBy (f batch))
      → ShapedBy (r >>= f)
  bind-ShapedBy (ok batch) f h = h batch refl
  bind-ShapedBy (raise e) f h = tt

  last_n-IsShaped : (xs : List A) → Sorted timestamp xs → IsShaped (last_n limit xs)
  last_n-IsShaped xs h =
      (Sorted-drop timestamp (length xs - limit) xs h, omega (arith, length-last_n limit xs))

  fetched-Sorted :
      (r : Result (List A)) (batch : List A)
      → map_result (sort_by timestamp) r ≡ ok batch
      → Sorted timestamp batch
  fetched-Sorted (ok rows) batch h =
      subst (Sorted timestamp) (ok-injective h) (sort_by-Sorted timestamp rows)
  fetched-Sorted (raise e) batch h = absurd (raise_not_ok h)

  paginated-ShapedBy :
      (fetch : ℕ → Option ℤ → ℕ → Result (List A))
      → ShapedBy (paginate_backwards timestamp dump fetch limit per_page)
  paginated-ShapedBy fetch =
      elim (Result-cases (paginate_backwards timestamp dump fetch limit per_page)) [
        | inl (out, e) ↦
            let (sorted, few, _) = paginate_shape timestamp dump fetch limit per_page e in
            subst ShapedBy (sym e) (sorted, few)
        | inr (err, e) ↦ subst ShapedBy (sym e) tt
      ]

  with_history-ShapedBy :
      (batch : List A)
      → Sorted timestamp batch
      → ShapedBy (with_history timestamp dump recent history start_time limit batch)
  unfolding with_history
  with_history-ShapedBy [] h =
      paginated-ShapedBy (fetch_history timestamp dump recent history start_time limit)
  with_history-ShapedBy (c ∷ cs) h = elim (Bool-cases (leb limit (length (c ∷ cs)))) [
    | inl enough ↦ rw enough (last_n-IsShaped (c ∷ cs) h)
    | inr fewer ↦ rw fewer (
        bind-ShapedBy
          (paginate_backwards timestamp dump (older c) (limit - length (c ∷ cs)) per_page) _
          (λ hs e. let v = combined-Combined timestamp limit hs (c ∷ cs) in (v.ordered, v.few)))
  ]

  get_candles-ShapedBy : ShapedBy (get_candles timestamp dump recent history start_time limit)
  unfolding get_candles
  get_candles-ShapedBy = elim (Bool-cases (is_short start_time limit)) [
    | inl short ↦ rw short (
        bind-ShapedBy (fetch_recent timestamp dump recent history start_time limit none limit) _
          (λ batch e. last_n-IsShaped batch (fetched-Sorted _ batch e)))
    | inr long ↦ rw long (
        bind-ShapedBy
          (fetch_recent timestamp dump recent history start_time limit none (min limit per_req)) _
          (λ batch e. with_history-ShapedBy batch (fetched-Sorted _ batch e)))
  ]

  -- Whichever way `get_candles` of OKX takes, the candles that it returns are in the order of time, and
  -- no more than the limit.
  pub okx_candles_shape :
      {out : List A}
      → get_candles timestamp dump recent history start_time limit ≡ ok out
      → Sorted timestamp out × (length out ≤ limit)
  okx_candles_shape h = subst ShapedBy h get_candles-ShapedBy

  with_history_long :
      (c : A) (cs : List A)
      → leb limit (length (c ∷ cs)) ≡ false
      → with_history timestamp dump recent history start_time limit (c ∷ cs) ≡ (
          paginate_backwards timestamp dump (older c) (limit - length (c ∷ cs)) per_page >>= λ hs.
          ok (combined timestamp limit hs (c ∷ cs)))
  unfolding with_history
  with_history_long c cs fewer = rw fewer refl

  get_candles_long :
      (c : A) (cs : List A)
      → is_short start_time limit ≡ false
      → fetch_recent timestamp dump recent history start_time limit none (min limit per_req)
        ≡ ok (c ∷ cs)
      → leb limit (length (c ∷ cs)) ≡ false
      → get_candles timestamp dump recent history start_time limit ≡ (
          paginate_backwards timestamp dump (older c) (limit - length (c ∷ cs)) per_page >>= λ hs.
          ok (combined timestamp limit hs (c ∷ cs)))
  unfolding get_candles
  get_candles_long c cs long e fewer = rw long (
      ap (λ r. r >>= with_history timestamp dump recent history start_time limit) e
      ∙ with_history_long c cs fewer)

  -- Where one request is not enough for `get_candles` of OKX, and the recent candles are some, but fewer
  -- than the limit, it asks for the pages before the first of them. The candles that it returns come
  -- from both: in the order of time, no more than the limit, no two of a time, each the last of its time,
  -- which is the recent one where there is one; and each time of a candle is there, unless the limit is
  -- reached with later ones.
  pub okx_candles_joined :
      (c : A) (cs : List A) {out : List A}
      → is_short start_time limit ≡ false
      → fetch_recent timestamp dump recent history start_time limit none (min limit per_req)
        ≡ ok (c ∷ cs)
      → length (c ∷ cs) < limit
      → get_candles timestamp dump recent history start_time limit ≡ ok out
      → (hs : List A) × (paginate_backwards timestamp dump
            (older c)
            (limit - length (c ∷ cs))
            per_page
          ≡ ok hs)
        × Combined timestamp limit (hs ++ c ∷ cs) out
  okx_candles_joined c cs {out} long e fewer h =
      let run = sym (get_candles_long c cs long e (ground arith)) ∙ h in
      elim (Result-cases
        (paginate_backwards timestamp dump (older c) (limit - length (c ∷ cs)) per_page)) [
          | inl (hs, got) ↦
              let same =
                subst (λ r. (r >>= λ hs'. ok (combined timestamp limit hs' (c ∷ cs))) ≡ ok out) got
                  run in
              (
                hs,
                got,
                subst (Combined timestamp limit (hs ++ c ∷ cs)) (ok-injective same)
                    (combined-Combined timestamp limit hs (c ∷ cs)),
              )
          | inr (err, lost) ↦ absurd (
              raise_not_ok (
                subst (λ r. (r >>= λ hs'. ok (combined timestamp limit hs' (c ∷ cs))) ≡ ok out) lost
                  run))
        ]
