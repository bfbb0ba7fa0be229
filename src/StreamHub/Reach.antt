-- ===== src/StreamHub/Reach.antt =====
-- The interleavings of `StreamHub` (src/exchanges/base.py): callers subscribe, read and leave, the upstream
-- connection comes, goes and brings messages, in any order.
use exchange_router_service.Prelude.{
  ℕ, ◌<◌, ◌≡◌, ◌≢◌, refl, String, true, false, Option, none, some, List, [], ◌∷◌, ◌++◌, arith,
  last_n, is_some, string_has_eq, inl, inr, Bool-cases, nat_eq,
}
use exchange_router_service.Prelude.Dict.{get}
use exchange_router_service.StreamHub.{
  Hub, register, announce, unsubscribe, connect, set_connected, disconnect, close, dispatch,
  take_message, mem_topic, resubscribe, send_payloads,
}
use exchange_router_service.StreamHub.Broadcast.{times, dispatch_all, routed, window-dispatch_all}
use exchange_router_service.StreamHub.Topics.{members, IsValid, mem_topic-keys}
use exchange_router_service.StreamHub.Steps.{
  register-IsValid, announce-IsValid, unsubscribe-IsValid, connect-IsValid, set_connected-IsValid,
  disconnect-IsValid, close-IsValid, dispatch-IsValid, take_message-IsValid,
}

-- `StreamHub(queue_size=...)`
abbrev pub new_hub : {Msg : Type 0} → ℕ → Hub Msg
new_hub size = record {
  queue_size = size;
  queues = [];
  subscribed_topics = [];
  has_ws = false;
  connected = false;
  closed = false;
  has_task = false;
  next_queue = 0;
  content = λ _. [];
  sent = [];
}

-- A caller of `subscribe` is in its second section while its queue is in its topic: it alone knows
-- the queue, and has not been given it yet.
pub data Step {Msg : Type 0} (h : Hub Msg) : Hub Msg → Type 0 where
  registers : (topic : String) → Step h (register topic h)
  announces : (topic : String) (q : ℕ) → times q (members topic h) ≡ 1 → Step h (announce topic h)
  unsubscribes : (topic : String) (q : ℕ) → Step h (unsubscribe topic q h)
  connects : Step h (connect h)
  is_connected : h.has_ws ≡ true → Step h (set_connected h)
  disconnects : Step h (disconnect h)
  closes : Step h (close h)
  reads : (q : ℕ) → h.content q ≢ [] → Step h (take_message q h)
  receives : (topic : Option String) (msg : Msg) → Step h (dispatch topic msg h)

pub data Reach {Msg : Type 0} (size : ℕ) : Hub Msg → Type 0 where
  here : Reach size (new_hub size)
  next : {g h : Hub Msg} → Reach size g → Step g h → Reach size h

module _ {Msg : Type 0} where
  new_hub-IsValid : (size : ℕ) → IsValid (new_hub {Msg = Msg} size)
  unfolding get mem_topic
  new_hub-IsValid size = record {
    filled = λ t e. cc;
    known = λ t p l. refl;
    once = λ t p. omega arith;
    apart = λ t u p a b. absurd (omega arith);
    backed = λ t l. cc;
    has_connection = λ l. cc;
    bounded = λ p pos. omega arith;
  }

  has_topic :
      (topic : String) (q : ℕ) (h : Hub Msg)
      → times q (members topic h) ≡ 1
      → is_some (get topic h.queues) ≡ true
  has_topic topic q h one = ground arith

  Step-IsValid : {g h : Hub Msg} → Step g h → IsValid g → IsValid h
  Step-IsValid (registers topic) v = register-IsValid v topic
  Step-IsValid {g} (announces topic q one) v = announce-IsValid v topic (has_topic topic q g one)
  Step-IsValid (unsubscribes topic q) v = unsubscribe-IsValid v topic q
  Step-IsValid connects v = connect-IsValid v
  Step-IsValid (is_connected e) v = set_connected-IsValid v e
  Step-IsValid disconnects v = disconnect-IsValid v
  Step-IsValid closes v = close-IsValid v
  Step-IsValid (reads q there) v = take_message-IsValid v q
  Step-IsValid (receives topic msg) v = dispatch-IsValid v topic msg

  pub Reach-IsValid : {size : ℕ} {h : Hub Msg} → Reach size h → IsValid h
  Reach-IsValid {size} here = new_hub-IsValid size
  Reach-IsValid (next r st) = Step-IsValid st (Reach-IsValid r)

  none_of_other :
      {h : Hub Msg} (topic : String) (p : ℕ)
      → IsValid h
      → times p (members topic h) ≡ 1
      → (t : String) → t ≢ topic
      → times p (members t h) ≡ 0
  none_of_other {h} topic p v one t other = elim (Bool-cases (nat_eq (times p (members t h)) 1)) [
    | inl also ↦ absurd (other (v.apart t topic p (ground arith) one))
    | inr less ↦ ground (arith, v.once t p)
  ]

  -- In every reachable state of a hub with a positive queue size, a queue that was handed to a
  -- subscriber of `topic` holds, after any further messages, the newest `queue_size` of what it
  -- held and the messages of its topic, in their order: a slow reader loses the oldest and nothing
  -- else, and no message of another topic is in its queue.
  pub window_of_reachable :
      {size : ℕ} {h : Hub Msg} (topic : String) (p : ℕ) (evs : List (Option String × Msg))
      → Reach size h
      → 0 < h.queue_size
      → times p (members topic h) ≡ 1
      → (dispatch_all evs h).content p ≡ last_n h.queue_size (h.content p ++ routed topic evs)
  window_of_reachable {h = h} topic p evs r pos one =
      let v = Reach-IsValid r in
      window-dispatch_all topic p evs h pos (v.bounded p pos) one (none_of_other topic p v one)

  -- In every reachable state a topic that is subscribed upstream has a queue to fill.
  pub no_orphan_topic :
      {size : ℕ} {h : Hub Msg} (topic : String)
      → Reach size h
      → mem_topic topic h.subscribed_topics ≡ true
      → (q : ℕ) × (qs : List ℕ) × (get topic h.queues ≡ some (q ∷ qs))
  no_orphan_topic {h = h} topic r told =
      let v = Reach-IsValid r in
      some_queue (get topic h.queues) (v.backed topic told) (v.filled topic)
    where
      some_queue :
          (o : Option (List ℕ))
          → is_some o ≡ true
          → o ≢ some []
          → (q : ℕ) × (qs : List ℕ) × (o ≡ some (q ∷ qs))
      some_queue none h n = cc
      some_queue (some []) h n = absurd (n refl)
      some_queue (some (q ∷ qs)) h n = (q, qs, refl)

  resubscribed-resubscribe :
      (topics : List String) (h : Hub Msg)
      → (resubscribe topics h).subscribed_topics ≡ h.subscribed_topics
  unfolding resubscribe send_payloads
  resubscribed-resubscribe [] h = refl
  resubscribed-resubscribe (x ∷ xs) h = ground arith

  -- A new connection is told exactly the topics that have a queue, whatever was subscribed before.
  pub subscribed-connect :
      (topic : String) (h : Hub Msg)
      → mem_topic topic (connect h).subscribed_topics ≡ is_some (get topic h.queues)
  unfolding connect
  subscribed-connect topic h = rw resubscribed-resubscribe (mem_topic-keys topic h.queues)
