-- ===== src/Examples/Bans.antt =====
-- Runs of `_make_request` of src/exchanges/bybit/adapter.py.
use exchange_router_service.Prelude.{
  ℕ, ◌+◌, ◌-◌, ◌/◌, ◌≡◌, ◌<◌, ◌⊎◌, max, refl, none, some, [], ◌∷◌, length, nat_eq, if◌then◌else◌,
  arith, true, false,
}
use exchange_router_service.Prelude.Int.{pos}
use exchange_router_service.Errors.{Error, upstream_unavailable, ok, raise}
use exchange_router_service.Upstream.{Round, rounds}
use exchange_router_service.Upstream.Ends.{IsEnded}
use exchange_router_service.Bybit.{
  Reply, response, absent, malformed, code, verdict, pause, make_request, read, pause_status,
}
use exchange_router_service.Bybit.Bans.{
  is_other_success, Carries, bybit_request-IsEnded, ban_lem, rest_of,
}

abbrev reply_at : ℕ → Reply ℕ
reply_at n =
    if nat_eq n 0
    then response 200 (some 50) absent (code 10006 true none)
    else response 200 (some 50) absent (code 0 true (some 7))

-- a soft limit of two seconds, and then the result
abbrev limited : ℕ → Round (Reply ℕ)
limited n = record {
  start = 10_000 + n;
  before = 0;
  jitter = 50;
  meanwhile = 0;
  reply = reply_at n;
  arrived = 10_001 + n;
}

usual : (n : ℕ) → is_other_success (limited n).reply ≡ false
usual n = ground arith

bybit_request-IsEnded_example :
    IsEnded 30_000 verdict pause limited 0 3 0 (make_request limited 0)
    × (((err : Error) × ((make_request limited 0).result ≡ some (raise err)))
        ⊎ ((a : ℕ) × (k : ℕ) × ((make_request limited 0).result ≡ some (ok a))
            × (k < 3)
            × Carries (limited k).reply a))
bybit_request-IsEnded_example = bybit_request-IsEnded limited 0 usual

limited_test :
    make_request limited 0
    ≡ record { result = some (ok 7); until = 12_001; sent = (0, 10_000) ∷ (12_001, 12_051) ∷ [] }
unfolding make_request rounds verdict read pause pause_status
limited_test = refl

-- a ban
abbrev banned : ℕ → Round (Reply ℕ)
banned n = record {
  start = 10_000;
  before = 0;
  jitter = 50;
  meanwhile = 0;
  reply = response 403 (some 50) absent malformed;
  arrived = 10_100;
}

ban_lem_example :
    ((rest_of banned 4 0 3 0).result ≡ some (raise (upstream_unavailable (some (pos 600)))))
    × (length (rest_of banned 4 0 3 0).sent ≡ 1)
    × ((make_request limited 610_100).result
        ≡ some (raise (upstream_unavailable (some (pos ((max 610_100 0 - 10_000) / 1000))))))
    × ((make_request limited 610_100).sent ≡ [])
unfolding rounds verdict read pause pause_status
ban_lem_example =
    ban_lem banned 3 0 2 0 50 absent malformed refl refl refl limited 610_100 (omega arith)
      (omega arith)
