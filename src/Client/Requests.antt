-- ===== src/Client/Requests.antt =====
-- client/exchange_router_client/_core.py: `AsyncCore._request`, the waits between its attempts, and
-- the close codes that end a stream for good.
use exchange_router_service.Prelude.{
  ℕ, zero, suc, ◌+◌, String, Bool, true, false, ◌||◌, Option, none, some, List, [], ◌∷◌, ◌++◌,
  if◌then◌else◌, nat_eq, ltb,
}
use exchange_router_service.Prelude.Int.{pos}
use exchange_router_service.Floats.{Floats}
use exchange_router_service.Client.Errors.{
  ClientError, router_unreachable, error_for_status, is_retried,
}

-- What one `request` comes to: a body, a success whose body is not JSON, a response with an error status (its detail, and the number
-- in its `Retry-After`), a transport error, or another `httpx.HTTPError`, with their texts.
pub data Reply (Body Seconds : Type 0) : Type 0 where
  body : Body → Reply Body Seconds
  not_json : Reply Body Seconds
  status_error : ℕ → String → Option Seconds → Reply Body Seconds
  transport_error : String → Reply Body Seconds
  http_error : String → Reply Body Seconds

pub data Outcome (Body Seconds : Type 0) : Type 0 where
  got : Body → Outcome Body Seconds
  -- the `JSONDecodeError` of `response.json()`, which no clause catches
  undecoded : Outcome Body Seconds
  failed : ClientError Seconds → Outcome Body Seconds

-- `_is_fatal_close`, on the code of the close frame
unfoldable pub is_fatal_close : Option ℕ → Bool
is_fatal_close none = false
is_fatal_close (some code) = nat_eq code 1003 || nat_eq code 1008

module _ (F : Floats) (uniform : ℕ → F.Float) where
  open F use {Float, add, mul, of_int, lt}

  -- `_sleep_for`; `uniform n` is what `random.uniform(0, 1.0)` gives before the n-th attempt
  unfoldable pub sleep_for : ℕ → Option Float → Float
  sleep_for attempt (some retry_after) =
      if lt (of_int (pos 60)) retry_after then of_int (pos 60) else retry_after
  sleep_for attempt none = add (mul (of_int (pos 1)) (of_int (pos attempt))) (uniform attempt)

  module _ {Body : Type 0} (answer : ℕ → Reply Body Float) (max_retries : ℕ) where
    -- `attempt += 1` and what follows it: the error once the attempts are used up, otherwise the
    -- next round; `sleeps` are the waits so far
    abbrev pub retry :
        (ℕ → List Float → Option (Outcome Body Float × List Float))
        → ℕ
        → List Float
        → ClientError Float
        → Option Float
        → Option (Outcome Body Float × List Float)
    retry again attempt sleeps error retry_after = elim (ltb max_retries (attempt + 1)) [
      | true ↦ some (failed error, sleeps)
      | false ↦ again (attempt + 1) (sleeps ++ sleep_for (attempt + 1) retry_after ∷ [])
    ]

    abbrev pub react :
        (ℕ → List Float → Option (Outcome Body Float × List Float))
        → ℕ
        → List Float
        → Reply Body Float
        → Option (Outcome Body Float × List Float)
    react again attempt sleeps (body b) = some (got b, sleeps)
    react again attempt sleeps not_json = some (undecoded, sleeps)
    react again attempt sleeps (status_error status detail retry_after) = elim (is_retried status) [
      | true ↦ retry again attempt sleeps (error_for_status status detail retry_after) retry_after
      | false ↦ some (failed (error_for_status status detail retry_after), sleeps)
    ]
    react again attempt sleeps (transport_error text) =
        retry again attempt sleeps (router_unreachable text) none
    react again attempt sleeps (http_error text) = some (failed (router_unreachable text), sleeps)

    -- the `while` loop, on fuel; `none` is that it ran out. The request of a round with `attempt`
    -- failures behind it is the one that `answer attempt` answers.
    unfoldable pub rounds : ℕ → ℕ → List Float → Option (Outcome Body Float × List Float)
    rounds zero attempt sleeps = none
    rounds (suc fuel) attempt sleeps = react (rounds fuel) attempt sleeps (answer attempt)

    -- `_request`
    unfoldable pub request : Option (Outcome Body Float × List Float)
    unfolding rounds
    request = rounds (max_retries + 1) 0 []
