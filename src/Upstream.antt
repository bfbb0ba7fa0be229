-- ===== src/Upstream.antt =====
-- The request loops of the adapters that keep one backoff for all their requests: `_make_request` of
-- src/exchanges/bybit, okx, kucoin and hyperliquid. Times are whole milliseconds.
pub mod Ends
use exchange_router_service.Prelude.{
  ℕ, zero, suc, ◌+◌, ◌-◌, ◌/◌, max, Bool, true, false, ◌&&◌, ◌||◌, Option, none, some, List, [],
  ◌∷◌, nat_eq, ltb, leb, if◌then◌else◌,
}
use exchange_router_service.Prelude.Int.{ℤ, pos}
use exchange_router_service.Errors.{
  Error, upstream_unavailable, value_error, http_status_error, Result, ok, raise,
}

-- what a round leads to: a result, or another round, which counts as a failed one or does not
pub data Verdict (A : Type 0) : Type 0 where
  settled : Result A → Verdict A
  again : Bool → Verdict A

abbrev pub json_or : {A : Type 0} → Option A → Result A
json_or none = raise value_error
json_or (some a) = ok a

abbrev pub is_gateway : ℕ → Bool
is_gateway status = nat_eq status 502 || nat_eq status 503 || nat_eq status 504 || nat_eq status 520

-- `raise_for_status` and the handler of its exception; a success other than 200 goes round again
-- without being counted
unfoldable pub of_status : {A : Type 0} → ℕ → Verdict A
of_status status =
    if leb 200 status && ltb status 300
    then again false
    else if is_gateway status
    then again true
    else if leb 500 status
    then settled (raise (upstream_unavailable none))
    else settled (raise http_status_error)

-- `retry_after=remaining if remaining > 0 else None`; the error of Errors.antt holds whole seconds,
-- as the handler of main.py reads them
unfoldable pub remaining : ℕ → ℕ → Option ℤ
remaining now t = if ltb now t then some (pos ((t - now) / 1000)) else none

-- What a round of the loop meets: the time at its top, the jitter of its sleep, the reply, and the
-- time when that is there. Other requests of the adapter may raise the backoff before the round looks
-- at it, and before the reply is there.
pub record Round (Reply : Type 0) : Type 0 where
  pub start : ℕ
  pub before : ℕ
  pub jitter : ℕ
  pub meanwhile : ℕ
  pub reply : Reply
  pub arrived : ℕ

-- How a call of `_make_request` comes out: its result (`none` is that the fuel ran out), the backoff,
-- and for each request that went the backoff that was seen and the time when it went.
pub record Run (A : Type 0) : Type 0 where
  pub result : Option (Result A)
  pub until : ℕ
  pub sent : List (ℕ × ℕ)

abbrev pub with_sent : {A : Type 0} → ℕ × ℕ → Run A → Run A
with_sent request run = record run { sent = request ∷ run.sent }

-- `longest` is the longest wait that a call sits out; `pause retries now reply until` is what a reply
-- makes of the backoff.
module _ {A Reply : Type 0} (longest : ℕ) (verdict : Reply → Verdict A)
    (pause : ℕ → ℕ → Reply → ℕ → ℕ) (round : ℕ → Round Reply) where
  abbrev pub seen : ℕ → ℕ → ℕ
  seen n until = max until (round n).before

  -- the time when the request goes, after the sleep
  abbrev pub departure : ℕ → ℕ → ℕ
  departure n until =
      if ltb (round n).start (seen n until)
      then seen n until + (round n).jitter
      else (round n).start

  abbrev pub paused : ℕ → ℕ → ℕ → ℕ
  paused n retries until =
      pause retries (round n).arrived (round n).reply (max (seen n until) (round n).meanwhile)

  abbrev pub react : (ℕ → Run A) → ℕ → ℕ → Verdict A → Run A
  react again_with retries until (settled r) = record { result = some r; until = until; sent = [] }
  react again_with retries until (again true) = again_with (retries - 1)
  react again_with retries until (again false) = again_with retries

  -- The `while` loop, on fuel.
  unfoldable pub rounds : ℕ → ℕ → ℕ → ℕ → Run A
  unfolding remaining
  rounds zero n retries until = record { result = none; until = until; sent = [] }
  rounds (suc fuel) n zero until = record {
    result = some (raise (upstream_unavailable (remaining (round n).start (seen n until))));
    until = seen n until;
    sent = [];
  }
  rounds (suc fuel) n (suc retries) until =
      let next =
        with_sent (seen n until, departure n until)
          (react (λ left. rounds fuel (n + 1) left (paused n (suc retries) until)) (suc retries)
            (paused n (suc retries) until) (verdict (round n).reply)) in
      if ltb ((round n).start + longest) (seen n until)
      then record {
        result = some (raise (upstream_unavailable (remaining (round n).start (seen n until))));
        until = seen n until;
        sent = [];
      }
      else next
