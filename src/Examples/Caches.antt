-- ===== src/Examples/Caches.antt =====
-- Runs of `_ensure_info_cache` (src/exchanges/base.py): a cache of one market, a day and an hour old.
use exchange_router_service.Prelude.{◌*◌, String, ◌≡◌, refl, some, [], ◌∷◌}
use exchange_router_service.Prelude.Int.{ℤ, pos}
use exchange_router_service.Prelude.Dict.{Dict, get}
use exchange_router_service.Errors.{ok, raise, transport_error}
use exchange_router_service.Models.{linear, market_eq, market_has_eq}
use exchange_router_service.Adapter.InfoCache.{Cache, second, ensure_info_cache}
use exchange_router_service.Adapter.InfoCache.Refresh.{ensure_never_raises}

abbrev listed : Dict String String
listed = ("BTC", "BTC") ∷ []

abbrev cache : Cache String
cache = record { info_cache = (linear, listed) ∷ []; info_cache_at = (linear, pos 0) ∷ [] }

abbrev symbol : String → String
symbol s = s

-- 25 hours after the start
abbrev now : ℤ
now = pos (25 * 60 * 60 * second)

ensure_never_raises_example :
    (d' : Dict String String) × ((ensure_info_cache symbol linear now
        (raise transport_error)
        cache).0
      ≡ ok d')
    × (get linear (ensure_info_cache symbol linear now (raise transport_error) cache).1.info_cache
        ≡ some d')
unfolding get market_eq
ensure_never_raises_example =
    ensure_never_raises symbol linear now (raise transport_error) cache listed refl
