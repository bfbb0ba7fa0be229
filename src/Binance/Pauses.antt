-- ===== src/Binance/Pauses.antt =====
-- What a reply does to the pauses of the hosts in src/exchanges/binance/adapter.py.
use exchange_router_service.Prelude.{
  ℕ, ◌+◌, ◌*◌, ◌≤◌, max, ◌≡◌, String, ◌&&◌, ltb, str_eq, str_eq_iff, if◌then◌else◌, string_has_eq,
  arith,
}
use exchange_router_service.Prelude.Dict.{get, get-put}
use exchange_router_service.Binance.{
  Backoffs, until, Reply, response, bad_value, broken, is_heavy, pause_heavy, pause_limited,
  is_limit, pauses,
}

-- the end of the pause of the host that replied, from the end before
abbrev pub pause_end : {A : Type 0} → String → ℕ → Reply A → ℕ → ℕ
pause_end host now bad_value end = end
pause_end host now broken end = end
pause_end host now (response status used retry_after body) end =
    let heavy = if is_heavy host used && ltb end now then now + 2000 else end in
    if is_limit status then max heavy (now + retry_after * 1000) else heavy

until-pause_heavy :
    (host h : String) (used now : ℕ) (b : Backoffs)
    → until (get h (pause_heavy host used now b)) ≡ (
        if str_eq host h && (is_heavy host used && ltb (until (get host b)) now)
        then now + 2000
        else until (get h b))
unfolding pause_heavy
until-pause_heavy host h used now b = ground (arith, get-put host h (now + 2000) b)

until-pause_limited :
    (host h : String) (retry_after now : ℕ) (b : Backoffs)
    → until (get h (pause_limited host retry_after now b)) ≡ (
        if str_eq host h
        then max (until (get host b)) (now + retry_after * 1000)
        else until (get h b))
unfolding pause_limited
until-pause_limited host h retry_after now b =
    ground (arith, get-put host h (max (until (get host b)) (now + retry_after * 1000)) b)

-- A reply moves the end of the pause of its own host: two seconds from now if its weight is above
-- 95 percent of the limit and the host does not pause, and at least as long as `Retry-After` says
-- after a 429 or 418. No pause ever becomes shorter, and the other hosts keep theirs.
until-pauses :
    {A : Type 0} (host h : String) (now : ℕ) (reply : Reply A) (b : Backoffs)
    → (until (get h (pauses host now reply b)) ≡ (
        if str_eq host h then pause_end host now reply (until (get host b)) else until (get h b)))
      × (until (get h b) ≤ until (get h (pauses host now reply b)))
unfolding pauses
until-pauses host h now bad_value b = ground (arith, str_eq_iff host h)
until-pauses host h now broken b = ground (arith, str_eq_iff host h)
until-pauses host h now (response status used retry_after body) b = ground (
  arith,
  until-pause_heavy host h used now b,
  until-pause_heavy host host used now b,
  until-pause_limited host h retry_after now (pause_heavy host used now b),
  str_eq_iff host h,
  str_eq_iff host host,
)
