-- ===== src/Okx/Candles/Joined.antt =====
-- What `get_candles` of src/exchanges/okx/adapter.py returns.
use exchange_router_service.Prelude.{
  ℕ, ◌+◌, ◌-◌, ◌≤◌, ◌≡◌, refl, ap, ◌∙◌, sym, ◌⊎◌, true, not, ◌&&◌, Option, none, some, List, [],
  ◌∷◌, ◌++◌, length, length-last_n, is_some, if◌then◌else◌, All, All-drop, All-map, Bool-cases, inl,
  inr, arith,
}
use exchange_router_service.Prelude.Int.{ℤ, ◌<ℤ◌, eqb_ℤ, eqb_ℤ_iff, int_has_eq}
use exchange_router_service.Prelude.Dict.{Dict, get, put, values, get-put}
use exchange_router_service.Prelude.Sort.{sort_by, Sorted, sort_by-Sorted, Sorted-drop, All-sort_by}
use exchange_router_service.Prelude.Newest.{
  count_at, count_at-sort_by, count_at-last_n, newest_complete,
}
use exchange_router_service.Okx.Candles.{by_time, combined}

module _ {A : Type 0} (timestamp : A → ℤ) where
  or_last : Option A → Option A → Option A
  or_last none o = o
  or_last (some c) o = some c

  -- the last candle of a time
  abbrev pub last_of : ℤ → List A → Option A
  unfolding or_last
  last_of t [] = none
  last_of t (c ∷ cs) = or_last (last_of t cs) (if eqb_ℤ (timestamp c) t then some c else none)

  -- Each entry is under its time.
  Under : Dict ℤ A → Type 0
  Under d = All (λ (entry : ℤ × A). timestamp entry.1 ≡ entry.0) d

  put-Under : (c : A) (d : Dict ℤ A) → Under d → Under (put (timestamp c) c d)
  unfolding Under put
  put-Under c [] h = (refl, tt)
  put-Under c ((t, b) ∷ d) h = elim (Bool-cases (eqb_ℤ t (timestamp c))) [
    | inl same ↦ rw same (ground (arith, eqb_ℤ_iff t (timestamp c)), h.1)
    | inr other ↦ rw other (h.0, put-Under c d h.1)
  ]

  by_time-Under : (cs : List A) (d : Dict ℤ A) → Under d → Under (by_time timestamp cs d)
  unfolding by_time
  by_time-Under [] d h = h
  by_time-Under (c ∷ cs) d h = by_time-Under cs (put (timestamp c) c d) (put-Under c d h)

  count_at-put :
      (t : ℤ) (c : A) (d : Dict ℤ A)
      → Under d
      → count_at timestamp t (values (put (timestamp c) c d))
        ≡ (if eqb_ℤ (timestamp c) t && not (is_some (get t d)) then 1 else 0)
          + count_at timestamp t (values d)
  unfolding Under put get
  count_at-put t c [] h = ground arith
  count_at-put t c ((s, b) ∷ d) h = ground (
    arith,
    count_at-put t c d h.1,
    h.0,
    eqb_ℤ_iff s (timestamp c),
    eqb_ℤ_iff s t,
    eqb_ℤ_iff (timestamp c) t,
    eqb_ℤ_iff (timestamp b) t,
  )

  count_at-by_time :
      (t : ℤ) (cs : List A) (d : Dict ℤ A)
      → Under d
      → count_at timestamp t (values d) ≡ (if is_some (get t d) then 1 else 0)
      → count_at timestamp t (values (by_time timestamp cs d))
        ≡ (if is_some (get t (by_time timestamp cs d)) then 1 else 0)
  unfolding by_time
  count_at-by_time t [] d u h = h
  count_at-by_time t (c ∷ cs) d u h =
      count_at-by_time t cs (put (timestamp c) c d) (put-Under c d u)
        (ground (arith, count_at-put t c d u, get-put (timestamp c) t c d, h))

  get-by_time :
      (t : ℤ) (cs : List A) (d : Dict ℤ A)
      → get t (by_time timestamp cs d) ≡ or_last (last_of t cs) (get t d)
  unfolding by_time or_last
  get-by_time t [] d = refl
  get-by_time t (c ∷ cs) d =
      ground (arith, get-by_time t cs (put (timestamp c) c d), get-put (timestamp c) t c d)

  own_behind :
      (t : ℤ) (b : A) (d : Dict ℤ A) (xs : List A)
      → count_at timestamp t xs ≡ 0
      → All (λ (c : A). get (timestamp c) d ≡ some c) xs
      → All (λ (c : A). get (timestamp c) ((t, b) ∷ d) ≡ some c) xs
  unfolding get
  own_behind t b d [] none_there h = tt
  own_behind t b d (x ∷ xs) none_there h = (
    ground (arith, h.0, eqb_ℤ_iff (timestamp x) t, eqb_ℤ_iff t (timestamp x)),
    own_behind t b d xs (ground arith) h.1,
  )

  -- A value of a dictionary with no two entries of a time is what its time gives.
  own_value :
      (d : Dict ℤ A)
      → Under d
      → ((t : ℤ) → count_at timestamp t (values d) ≤ 1)
      → All (λ (c : A). get (timestamp c) d ≡ some c) (values d)
  unfolding get Under
  own_value [] u single = tt
  own_value ((t, b) ∷ d) u single = (
    ground (arith, u.0, eqb_ℤ_iff t (timestamp b)),
    own_behind t b d (values d) (ground (arith, single t, u.0, eqb_ℤ_iff (timestamp b) t))
        (own_value d u.1 (λ s. omega (arith, single s))),
  )

  -- What is made of the recent candles and of older ones: candles in the order of time, no more than
  -- the limit, no two of a time, each the last of its time, which is the recent one where there is
  -- one; and each time of a candle is there, unless the limit is reached with later ones.
  pub record Combined (limit : ℕ) (cs : List A) (out : List A) : Type 0 where
    pub ordered : Sorted timestamp out
    pub few : length out ≤ limit
    pub once : (t : ℤ) → count_at timestamp t out ≤ 1
    pub lasts : All (λ (c : A). last_of (timestamp c) cs ≡ some c) out
    pub complete :
        (t : ℤ)
        → is_some (last_of t cs) ≡ true
        → (count_at timestamp t out ≡ 1)
          ⊎ ((length out ≡ limit) × All (λ (c : A). t <ℤ timestamp c) out)

  get-start : (t : ℤ) (cs : List A) → get t (by_time timestamp cs []) ≡ last_of t cs
  unfolding or_last get
  get-start t cs = ground (arith, get-by_time t cs [])

  value_count :
      (t : ℤ) (cs : List A)
      → count_at timestamp t (sort_by timestamp (values (by_time timestamp cs [])))
        ≡ (if is_some (last_of t cs) then 1 else 0)
  unfolding Under get
  value_count t cs =
      count_at-sort_by timestamp t (values (by_time timestamp cs []))
      ∙ count_at-by_time t cs [] tt refl
      ∙ ap (λ o. if is_some o then 1 else 0) (get-start t cs)

  pub combined-Combined :
      (limit : ℕ) (history_batch recent_batch : List A)
      → Combined limit
          (history_batch ++ recent_batch)
          (combined timestamp limit history_batch recent_batch)
  unfolding combined Under get
  combined-Combined limit history_batch recent_batch =
      let cs = history_batch ++ recent_batch in
      let d = by_time timestamp cs [] in
      let all = sort_by timestamp (values d) in
      let sorted = sort_by-Sorted timestamp (values d) in
      record {
        ordered = Sorted-drop timestamp (length all - limit) all sorted;
        few = omega (arith, length-last_n limit all);
        once = λ t. ground (arith, count_at-last_n timestamp t limit all, value_count t cs);
        lasts = All-drop _ (length all - limit) all (
            All-sort_by timestamp (λ (c : A). last_of (timestamp c) cs ≡ some c) (values d)
              (All-map _ _ (λ c h. sym (get-start (timestamp c) cs) ∙ h) (values d)
                (own_value d (by_time-Under cs [] tt)
                  (λ t. ground (arith, count_at-by_time t cs [] tt refl)))));
        complete = λ t there.
            newest_complete timestamp t limit all sorted (ground (arith, value_count t cs));
      }
