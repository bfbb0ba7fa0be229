-- ===== src/Adapter/InfoCache.antt =====
-- src/exchanges/base.py: `_ensure_info_cache` and `_info_for`. The lock is held across the request,
-- so a call is one transition. `time.monotonic()` is an integer number of nanoseconds.
pub mod Refresh
use exchange_router_service.Prelude.{
  ℕ, ◌*◌, String, Bool, true, false, ◌&&◌, not, Option, none, some, List, [], ◌∷◌, is_some,
  if◌then◌else◌, string_has_eq,
}
use exchange_router_service.Prelude.Int.{ℤ, pos, ◌+ℤ◌, ◌-ℤ◌, ltb_ℤ}
use exchange_router_service.Prelude.Dict.{Dict, get, put}
use exchange_router_service.Errors.{Error, Result, ok, raise, map_result}
use exchange_router_service.Models.{MarketType, market_has_eq}

abbrev pub second : ℕ
second = 1_000_000_000

-- `INFO_REFRESH_S` and `INFO_RETRY_S`
abbrev pub info_refresh : ℤ
info_refresh = pos (24 * 60 * 60 * second)

abbrev pub info_retry : ℤ
info_retry = pos (60 * 60 * second)

pub record Cache (Info : Type 0) : Type 0 where
  pub info_cache : Dict MarketType (Dict String Info)
  pub info_cache_at : Dict MarketType ℤ

abbrev pub or_zero : Option ℤ → ℤ
or_zero none = pos 0
or_zero (some t) = t

-- the cache of a market that has one
abbrev cached_or_nil {ℓ} : {A : Type ℓ} → Option (List A) → List A
cached_or_nil none = []
cached_or_nil (some d) = d

module _ {Info : Type 0} where
  -- `cached is not None and elapsed < INFO_REFRESH_S`: the call returns without a request
  unfoldable pub is_fresh : MarketType → ℤ → Cache Info → Bool
  is_fresh mt now c =
      is_some (get mt c.info_cache) && ltb_ℤ (now -ℤ or_zero (get mt c.info_cache_at)) info_refresh

  -- `{info.symbol: info for info in infos}`
  unfoldable pub by_symbol_from : (Info → String) → Dict String Info → List Info → Dict String Info
  by_symbol_from symbol d [] = d
  by_symbol_from symbol d (info ∷ infos) = by_symbol_from symbol (put (symbol info) info d) infos

  abbrev pub by_symbol : (Info → String) → List Info → Dict String Info
  by_symbol symbol = by_symbol_from symbol []

  -- the `except` clause: what the cache holds is served for another while, if it holds something
  unfoldable pub refresh_failed :
      MarketType
      → ℤ
      → Error
      → Option (Dict String Info)
      → Cache Info
      → Result (Dict String Info) × Cache Info
  refresh_failed mt now e none c = (raise e, c)
  refresh_failed mt now e (some cached) c = (
    ok cached,
    record c { info_cache_at = put mt (now -ℤ info_refresh +ℤ info_retry) c.info_cache_at },
  )

  unfoldable pub refresh :
      (Info → String)
      → MarketType
      → ℤ
      → Result (List Info)
      → Cache Info
      → Result (Dict String Info) × Cache Info
  unfolding refresh_failed by_symbol_from
  refresh symbol mt now (raise e) c = refresh_failed mt now e (get mt c.info_cache) c
  refresh symbol mt now (ok infos) c =
      let fetched = by_symbol symbol infos in
      (
        ok fetched,
        record c {
          info_cache = put mt fetched c.info_cache;
          info_cache_at = put mt now c.info_cache_at;
        },
      )

  -- `_ensure_info_cache`; `answer` is what `_fetch_exchange_info` gives, if it is called
  unfoldable pub ensure_info_cache :
      (Info → String)
      → MarketType
      → ℤ
      → Result (List Info)
      → Cache Info
      → Result (Dict String Info) × Cache Info
  unfolding is_fresh refresh
  ensure_info_cache symbol mt now answer c = elim (is_fresh mt now c) [
    | true ↦ (ok (cached_or_nil (get mt c.info_cache)), c)
    | false ↦ refresh symbol mt now answer c
  ]

  -- `_info_for`
  unfoldable pub info_for :
      (Info → String)
      → MarketType
      → ℤ
      → Result (List Info)
      → String
      → Cache Info
      → Result (Option Info) × Cache Info
  info_for symbol mt now answer model_symbol c =
      let (r, c') = ensure_info_cache symbol mt now answer c in
      (map_result (get model_symbol) r, c')
