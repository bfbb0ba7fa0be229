-- ===== src/Adapter/InfoCache/Refresh.antt =====
-- When `_ensure_info_cache` of src/exchanges/base.py asks the exchange, and what it serves.
use exchange_router_service.Prelude.{
  ◌≡◌, ◌↔◌, refl, String, true, false, none, some, List, string_has_eq, arith, inl, inr, Bool-cases,
}
use exchange_router_service.Prelude.Int.{ℤ, ◌+ℤ◌, ◌-ℤ◌, ◌<ℤ◌, int_laws}
use exchange_router_service.Prelude.Dict.{Dict, get, put, get-put_self}
use exchange_router_service.Errors.{Error, Result, ok, raise}
use exchange_router_service.Models.{MarketType, market_has_eq}
use exchange_router_service.Adapter.InfoCache.{
  Cache, info_refresh, info_retry, or_zero, is_fresh, by_symbol, refresh_failed, refresh,
  ensure_info_cache,
}

module _ {Info : Type 0} (symbol : Info → String) (mt : MarketType) where
  is_fresh_iff :
      (now : ℤ) (c : Cache Info) (d : Dict String Info)
      → get mt c.info_cache ≡ some d
      → (is_fresh mt now c ≡ true) ↔ ((now -ℤ or_zero (get mt c.info_cache_at)) <ℤ info_refresh)
  unfolding is_fresh
  is_fresh_iff now c d e = (λ h. ground arith, λ h. ground arith)

  ensure_stale :
      (now : ℤ) (answer : Result (List Info)) (c : Cache Info)
      → is_fresh mt now c ≡ false
      → ensure_info_cache symbol mt now answer c ≡ refresh symbol mt now answer c
  unfolding ensure_info_cache
  ensure_stale now answer c stale = rw (stale, ensure_info_cache)

  -- A cache that is younger than a day is served as it is, and not changed, whatever the exchange
  -- would answer.
  pub ensure_fresh :
      (now : ℤ) (answer : Result (List Info)) (c : Cache Info) (d : Dict String Info)
      → get mt c.info_cache ≡ some d
      → (now -ℤ or_zero (get mt c.info_cache_at)) <ℤ info_refresh
      → ensure_info_cache symbol mt now answer c ≡ (ok d, c)
  unfolding ensure_info_cache
  ensure_fresh now answer c d e young =
      rw ((is_fresh_iff now c d e).1 young, ensure_info_cache) (rw e)

  -- After a refresh at `now` the cache counts as fresh exactly until a day later.
  pub fresh_after_refresh :
      (now later : ℤ) (infos : List Info) (c : Cache Info)
      → is_fresh mt now c ≡ false
      → (is_fresh mt later (ensure_info_cache symbol mt now (ok infos) c).1 ≡ true)
        ↔ (later <ℤ now +ℤ info_refresh)
  unfolding refresh
  fresh_after_refresh now later infos c stale = rw (ensure_stale now (ok infos) c stale) (
      let c' = (refresh symbol mt now (ok infos) c).1 in
      let at : get mt c'.info_cache_at ≡ some now = get-put_self mt now c.info_cache_at in
      let iff = is_fresh_iff later c' (by_symbol symbol infos) (get-put_self mt _ c.info_cache) in
      (λ h. let old = rw at at (iff.0 h) in omega int_laws, λ h. iff.1 (rw at (omega int_laws))))

  -- A refresh that fails while something is cached serves that, keeps it, and lets the next
  -- request wait exactly an hour.
  retry_after_failure :
      (now later : ℤ) (e : Error) (c : Cache Info) (d : Dict String Info)
      → get mt c.info_cache ≡ some d
      → is_fresh mt now c ≡ false
      → ((ensure_info_cache symbol mt now (raise e) c).0 ≡ ok d)
        × ((ensure_info_cache symbol mt now (raise e) c).1.info_cache ≡ c.info_cache)
        × ((is_fresh mt later (ensure_info_cache symbol mt now (raise e) c).1 ≡ true)
            ↔ (later <ℤ now +ℤ info_retry))
  unfolding refresh refresh_failed
  retry_after_failure now later e c d cached stale = rw (ensure_stale now (raise e) c stale) (
      rw (cached, refresh_failed)
        (let c' : Cache Info = record c {
          info_cache_at = put mt (now -ℤ info_refresh +ℤ info_retry) c.info_cache_at;
        } in
          let at : get mt c'.info_cache_at ≡ some (now -ℤ info_refresh +ℤ info_retry) =
            get-put_self mt _ c.info_cache_at in
          let iff = is_fresh_iff later c' d cached in
          (
            refl,
            refl,
            (
              λ h. let old = rw at at (iff.0 h) in omega int_laws,
              λ h. iff.1 (rw at (omega int_laws)),
            ),
          )))

  -- Without a cache the error of the exchange is raised, and the state is as before.
  pub first_failure :
      (now : ℤ) (e : Error) (c : Cache Info)
      → get mt c.info_cache ≡ none
      → ensure_info_cache symbol mt now (raise e) c ≡ (raise e, c)
  unfolding refresh refresh_failed is_fresh
  first_failure now e c empty =
      rw (ensure_stale now (raise e) c (rw empty)) (rw (empty, refresh_failed))

  cached_stays :
      (now : ℤ) (answer : Result (List Info)) (c : Cache Info) (d : Dict String Info)
      → get mt c.info_cache ≡ some d
      → (d' : Dict String Info) × ((refresh symbol mt now answer c).0 ≡ ok d')
        × (get mt (refresh symbol mt now answer c).1.info_cache ≡ some d')
  unfolding refresh refresh_failed
  cached_stays now (ok infos) c d cached =
      (by_symbol symbol infos, refl, get-put_self mt (by_symbol symbol infos) c.info_cache)
  cached_stays now (raise e) c d cached = rw (cached, refresh_failed) (d, refl, cached)

  -- Once a market is cached no call raises, whatever the exchange answers and at what time, and
  -- what the call returns is what is cached after it.
  pub ensure_never_raises :
      (now : ℤ) (answer : Result (List Info)) (c : Cache Info) (d : Dict String Info)
      → get mt c.info_cache ≡ some d
      → (d' : Dict String Info) × ((ensure_info_cache symbol mt now answer c).0 ≡ ok d')
        × (get mt (ensure_info_cache symbol mt now answer c).1.info_cache ≡ some d')
  unfolding ensure_info_cache
  ensure_never_raises now answer c d cached = elim (Bool-cases (is_fresh mt now c)) [
    | inl young ↦ rw (young, ensure_info_cache) (rw cached (d, refl, refl))
    | inr stale ↦ rw (ensure_stale now answer c stale) (cached_stays now answer c d cached)
  ]
