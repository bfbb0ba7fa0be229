-- ===== src/Examples/Clients.antt =====
-- Runs of the Python client (client/exchange_router_client).
use exchange_router_service.Prelude.{
  ◌++◌, ℕ, zero, suc, ◌≤◌, ◌<◌, ◌⊎◌, inr, String, ◌≡◌, refl, true, false, none, some, List, [], ◌∷◌,
  nat_eq, if◌then◌else◌, string_has_eq,
}
use exchange_router_service.Prelude.Int.{ℤ, pos}
use exchange_router_service.Prelude.Dict.{get}
use exchange_router_service.Errors.{Error, ok, value_error, upstream_unavailable, other}
use exchange_router_service.Models.{linear, market_value}
use exchange_router_service.Router.{route_block, mem_text, validate_interval}
use exchange_router_service.Client.Service.{
  IsRaised, is_failure, client_error, reply_at, waits_after, request-reply_to,
}
use exchange_router_service.Client.Requests.{Reply, body, transport_error, failed, request}
use exchange_router_service.Client.Preflight.{preflight, preflight_sends}
use exchange_router_service.Client.Batch.{Fetched, frame, error, fetch_many, batch_data}
use exchange_router_service.Client.Streams.{Ending, closed, stream, messages_of, stream_lem}
use exchange_router_service.Examples.{integers, sample}
use exchange_router_service.Client.Retries.{outcome_of, is_transient, waits_before, request_lem}
use exchange_router_service.Client.Gathered.{fine, warned, failure, fetched, size, fetch_many_lem}

-- two failed connections and then a body
abbrev answer : ℕ → Reply String ℤ
answer n = if nat_eq n 2 then body "done" else transport_error "refused"

abbrev uniform : ℕ → ℤ
uniform n = pos 0

request_lem_example :
    (k : ℕ) × (k ≤ 3)
    × (request integers uniform answer 3
        ≡ some (outcome_of (answer k), waits_before integers uniform answer 3 0 k))
    × ((i : ℕ) → i < k → is_transient (answer i) ≡ true)
    × ((is_transient (answer k) ≡ false) ⊎ (k ≡ 3))
request_lem_example = request_lem integers uniform answer 3

-- the service fails twice, and then refuses the interval
abbrev raised : ℕ → Error
raised zero = upstream_unavailable (some (pos 0))
raised (suc zero) = other
raised (suc (suc n)) = value_error

raised-IsRaised : (n : ℕ) → IsRaised (raised n)
raised-IsRaised zero = tt
raised-IsRaised (suc zero) = tt
raised-IsRaised (suc (suc n)) = tt

abbrev refusals : ℕ → String
refusals n = "no"

request-reply_to_example :
    (k : ℕ) × (k ≤ 3)
    × (request integers uniform (reply_at String integers uniform refusals raised 3) 3
        ≡ some (
          failed (client_error integers (refusals k) (raised k)),
          waits_after integers uniform raised 0 k,
        ))
    × ((i : ℕ) → i < k → is_failure (raised i) ≡ true)
    × ((is_failure (raised k) ≡ false) ⊎ (k ≡ 3))
request-reply_to_example =
    request-reply_to String integers uniform refusals raised 3 raised-IsRaised

preflight_sends_example : validate_interval sample linear "candles" "1h" ≡ ok tt
unfolding preflight route_block market_value mem_text get
preflight_sends_example = preflight_sends sample linear "candles" "1h" none refl

abbrev gathered : List (String × Fetched ℕ String)
gathered = ("BTC", frame 1 []) ∷ ("ETH", frame 2 ("gap" ∷ [])) ∷ ("XRP", error "timeout") ∷ []

fetch_many_lem_example :
    ((s : String)
      → (get s (fetch_many gathered).ok ≡ fine (get s gathered))
        × (get s (fetch_many gathered).degraded ≡ warned (get s gathered))
        × (get s (fetch_many gathered).failed ≡ failure (get s gathered))
        × (get s (batch_data (fetch_many gathered)) ≡ fetched (get s gathered)))
    × (size (fetch_many gathered) ≡ (fetch_many gathered).requested)
unfolding get
fetch_many_lem_example = fetch_many_lem gathered (refl, (refl, (refl, tt)))

-- a dropped connection, then one that the service closes for good
abbrev dropped : List (List ℕ × Ending)
dropped = (1 ∷ 2 ∷ [], closed none) ∷ []

stream_lem_example :
    stream true (dropped ++ (3 ∷ [], closed (some 1008)) ∷ [])
    ≡ (messages_of (dropped ++ (3 ∷ [], closed (some 1008)) ∷ []), some (closed (some 1008)))
stream_lem_example =
    stream_lem true dropped (3 ∷ []) (closed (some 1008)) [] ((refl, tt), tt) (inr (inr refl))
