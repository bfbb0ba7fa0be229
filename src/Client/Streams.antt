-- ===== src/Client/Streams.antt =====
-- client/exchange_router_client/_core.py: `stream`, which connects again when a connection ends.
use exchange_router_service.Prelude.{
  ℕ, ◌≡◌, ◌≢◌, ◌⊎◌, refl, nat_eq_iff, arith, ap, sym, Bool, true, false, ◌||◌, not, Option, none,
  some, List, [], ◌∷◌, ◌++◌, All, inl, inr, string_has_eq,
}
use mathlib.Core.List.{append-nil}
use exchange_router_service.Prelude.Dict.{Dict}
use exchange_router_service.Router.WebSocket.{Effect, accept, close, subscribe, unsubscribe}
use exchange_router_service.Client.Requests.{is_fatal_close}

-- How a connection ends: with a `ConnectionClosed`, with its code where a close frame came, with
-- another exception of websockets or the system, or with any other exception.
pub data Ending : Type 0 where
  closed : Option ℕ → Ending
  connection_error : Ending
  unexpected : Ending

-- `not reconnect or _is_fatal_close(error)`, and what the clause does not catch
unfoldable pub is_final : Bool → Ending → Bool
unfolding is_fatal_close
is_final reconnect (closed code) = not reconnect || is_fatal_close code
is_final reconnect connection_error = not reconnect
is_final reconnect unexpected = true

-- The endings that a stream that connects again outlives, and those that it does not: the close
-- codes of a refused subscription, and what is no failure of the connection.
abbrev Transient : Ending → Type 0
Transient (closed none) = Unit
Transient (closed (some code)) = (code ≢ 1003) × (code ≢ 1008)
Transient connection_error = Unit
Transient unexpected = true ≡ false

abbrev Fatal : Ending → Type 0
Fatal (closed none) = true ≡ false
Fatal (closed (some code)) = (code ≡ 1003) ⊎ (code ≡ 1008)
Fatal connection_error = true ≡ false
Fatal unexpected = Unit

transient_lem :
    (reconnect : Bool) (e : Ending) → reconnect ≡ true → Transient e → is_final reconnect e ≡ false
unfolding is_final is_fatal_close
transient_lem reconnect (closed none) on h = rw on refl
transient_lem reconnect (closed (some code)) on (h, h') =
    ground (arith, nat_eq_iff code 1003, nat_eq_iff code 1008)
transient_lem reconnect connection_error on h = rw on refl
transient_lem reconnect unexpected on h = cc

fatal_lem :
    (reconnect : Bool) (e : Ending) → (reconnect ≡ false) ⊎ Fatal e → is_final reconnect e ≡ true
unfolding is_final is_fatal_close
fatal_lem reconnect (closed code) (inl off) = rw off refl
fatal_lem reconnect connection_error (inl off) = rw off refl
fatal_lem reconnect unexpected (inl off) = refl
fatal_lem reconnect (closed none) (inr h) = cc
fatal_lem reconnect (closed (some code)) (inr (inl e)) = rw e (ground arith)
fatal_lem reconnect (closed (some code)) (inr (inr e)) = rw e (ground arith)
fatal_lem reconnect connection_error (inr h) = cc
fatal_lem reconnect unexpected (inr h) = refl

module _ {Msg : Type 0} where
  -- `stream` over the connections that come about: the messages that it yields, and the exception
  -- that ends it; `none` is that it goes on
  unfoldable pub stream : Bool → List (List Msg × Ending) → List Msg × Option Ending
  unfolding is_final
  stream reconnect [] = ([], none)
  stream reconnect ((messages, ending) ∷ sessions) =
      let (later, last) = stream reconnect sessions in
      elim (is_final reconnect ending) [
        | true ↦ (messages, some ending)
        | false ↦ (messages ++ later, last)
      ]

  -- the messages of some connections, in order
  abbrev pub messages_of : List (List Msg × Ending) → List Msg
  messages_of [] = []
  messages_of ((messages, ending) ∷ sessions) = messages ++ messages_of sessions

  -- Where the stream connects again, connections that end with a connection error, without a close
  -- frame, or with a close code other than 1003 and 1008 pass all their messages on, in order. The
  -- first one that is closed with 1003 or 1008 or ends with an unexpected exception is the last one to
  -- be heard, and its exception ends the stream. Where it does not connect again, the first
  -- connection is the last one to be heard, however it ends.
  pub stream_lem :
      (reconnect : Bool) (survived : List (List Msg × Ending)) (messages : List Msg)
      (ending : Ending) (sessions : List (List Msg × Ending))
      → All (λ s. (reconnect ≡ true) × Transient s.1) survived
      → (reconnect ≡ false) ⊎ Fatal ending
      → stream reconnect (survived ++ (messages, ending) ∷ sessions)
        ≡ (messages_of (survived ++ (messages, ending) ∷ []), some ending)
  unfolding stream
  stream_lem reconnect [] messages ending sessions h final =
      rw (fatal_lem reconnect ending final, stream)
        (ap (λ ms. (ms, some ending)) (sym (append-nil messages)))
  stream_lem reconnect ((ms, e) ∷ survived) messages ending sessions h final =
      rw (transient_lem reconnect e h.0.0 h.0.1, stream)
        (rw (stream_lem reconnect survived messages ending sessions h.1 final))

-- The codes of the close frames that a connection gets: a close before the connection is accepted
-- sends none.
abbrev codes_sent : List Effect → List ℕ
codes_sent [] = []
codes_sent (close code ∷ es) = code ∷ codes_sent es
codes_sent (accept ∷ es) = codes_sent es
codes_sent (subscribe key channel ∷ es) = codes_sent es
codes_sent (unsubscribe key ∷ es) = codes_sent es

abbrev pub close_frames : List Effect → List ℕ
close_frames (accept ∷ es) = codes_sent es
close_frames _ = []
