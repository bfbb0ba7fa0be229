-- ===== src/StreamHub/Steps.antt =====
-- Each transition of `StreamHub` (src/exchanges/base.py) keeps the invariant.
use exchange_router_service.Prelude.{
  length, ℕ, ◌+◌, ◌≤◌, ◌≡◌, ◌≢◌, refl, ◌∙◌, sym, String, true, Option, none, some, List, [], ◌∷◌,
  ◌++◌, arith, nat_eq, str_eq, str_eq_iff, if◌then◌else◌, is_some, string_has_eq, ◌⊎◌, inl, inr,
}
use exchange_router_service.Prelude.Dict.{get, put, pop, keys, get-put, get-pop}
use exchange_router_service.StreamHub.{
  Hub, subscribe_payload, mem_topic, discard, without, or_nil, register, announce, unsubscribe,
  resubscribe, connect, set_connected, disconnect, close, dispatch, take_message, get_nowait,
  or_else,
}
use exchange_router_service.StreamHub.Broadcast.{times, length-offer_all}
use exchange_router_service.StreamHub.Topics.{
  members, IsValid, append-ne-nil, times-append, times-without, mem_topic-discard, mem_topic-keys,
  mem_topic-cons, nil-or-cons, IsValid-if, send_payloads-IsValid,
}

resubscribe-IsValid :
    {Msg : Type 0} {h : Hub Msg} (topics : List String) → IsValid h → IsValid (resubscribe topics h)
unfolding resubscribe
resubscribe-IsValid [] v = v
resubscribe-IsValid (x ∷ xs) v = send_payloads-IsValid (subscribe_payload (x ∷ xs)) v

module _ {Msg : Type 0} {h : Hub Msg} (v : IsValid h) where
  times-register :
      (topic t : String) (p : ℕ)
      → times p (members t (register topic h))
        ≡ (if str_eq topic t then (if nat_eq h.next_queue p then 1 else 0) else 0)
          + times p (members t h)
  unfolding register
  times-register topic t p = ground (
    arith,
    get-put topic t (or_nil (get topic h.queues) ++ h.next_queue ∷ []) h.queues,
    times-append p (or_nil (get topic h.queues)) (h.next_queue ∷ []),
    str_eq_iff topic t,
  )

  pub register-IsValid : (topic : String) → IsValid (register topic h)
  unfolding register
  register-IsValid topic =
      let joined = or_nil (get topic h.queues) ++ h.next_queue ∷ [] in
      record {
        filled = λ t. ground (
          arith,
          get-put topic t joined h.queues,
          append-ne-nil (or_nil (get topic h.queues)) h.next_queue,
          v.filled t,
        );
        known = λ t p l. ground (arith, times-register topic t p, v.known t p);
        once = λ t p. ground (arith, times-register topic t p, v.known t p, v.once t p);
        apart = λ t u p a b. ground (
          arith,
          times-register topic t p,
          times-register topic u p,
          v.known t p,
          v.known u p,
          str_eq_iff topic t,
          str_eq_iff topic u,
          v.apart t u p,
        );
        backed = λ t l. ground (arith, get-put topic t joined h.queues, v.backed t l);
        has_connection = v.has_connection;
        bounded = λ p pos. ground (arith, v.bounded p pos);
      }

  pub announce-IsValid :
      (topic : String) → is_some (get topic h.queues) ≡ true → IsValid (announce topic h)
  unfolding announce
  announce-IsValid topic here =
      let told : IsValid (record h { subscribed_topics = topic ∷ h.subscribed_topics }) = record {
        filled = v.filled;
        known = v.known;
        once = v.once;
        apart = v.apart;
        backed = λ t l. told_backed t (mem_topic-cons t topic h.subscribed_topics l);
        has_connection = v.has_connection;
        bounded = v.bounded;
      } in
      IsValid-if (mem_topic topic h.subscribed_topics) v (send_payloads-IsValid _ told)
    where
      told_backed :
          (t : String)
          → (topic ≡ t) ⊎ (mem_topic t h.subscribed_topics ≡ true)
          → is_some (get t h.queues) ≡ true
      told_backed t (inl e) = rw (← e) here
      told_backed t (inr old) = v.backed t old

  -- What `unsubscribe` leaves of the topic where its last queue goes, and where others stay.
  pub gone-IsValid :
      (topic : String)
      → IsValid (record h {
        queues = pop topic h.queues;
        subscribed_topics = discard topic h.subscribed_topics;
      })
  gone-IsValid topic = record {
    filled = λ t. ground (arith, get-pop topic t h.queues, v.filled t);
    known = λ t p l. ground (arith, get-pop topic t h.queues, v.known t p l);
    once = λ t p. ground (arith, get-pop topic t h.queues, v.once t p);
    apart = λ t u p a b.
        ground (arith, get-pop topic t h.queues, get-pop topic u h.queues, v.apart t u p);
    backed = λ t l. ground (
      arith,
      get-pop topic t h.queues,
      mem_topic-discard t topic h.subscribed_topics,
      v.backed t,
    );
    has_connection = v.has_connection;
    bounded = v.bounded;
  }

  pub left-IsValid :
      (topic : String) (q : ℕ) (left : List ℕ)
      → left ≢ []
      → without q (members topic h) ≡ left
      → IsValid (record h { queues = put topic left h.queues })
  left-IsValid topic q left some_left e =
      let fewer : (p : ℕ) → times p left ≤ times p (members topic h) =
        λ p. rw (← e) (ground (arith, times-without p q (members topic h))) in
      record {
        filled = λ t. ground (arith, get-put topic t left h.queues, v.filled t);
        known = λ t p l.
            ground
              (arith, get-put topic t left h.queues, v.known t p l, v.known topic p l, fewer p);
        once = λ t p.
            ground (arith, get-put topic t left h.queues, v.once t p, v.once topic p, fewer p);
        apart = λ t u p a b. ground (
          arith,
          get-put topic t left h.queues,
          get-put topic u left h.queues,
          str_eq_iff topic t,
          str_eq_iff topic u,
          fewer p,
          v.once topic p,
          v.apart t u p,
          v.apart topic u p,
          v.apart t topic p,
        );
        backed = λ t l. ground (arith, get-put topic t left h.queues, v.backed t l);
        has_connection = v.has_connection;
        bounded = v.bounded;
      }

  pub unsubscribe-IsValid : (topic : String) (q : ℕ) → IsValid (unsubscribe topic q h)
  unfolding unsubscribe
  unsubscribe-IsValid topic q = elim (nil-or-cons (without q (members topic h))) [
    | inl none_left ↦
        rw (none_left, unsubscribe)
          (IsValid-if h.connected (send_payloads-IsValid _ (gone-IsValid topic))
            (gone-IsValid topic))
    | inr (x, qs, e) ↦ rw (e, unsubscribe) (left-IsValid topic q (x ∷ qs) (λ r. cc) e)
  ]

  pub connect-IsValid : IsValid (connect h)
  unfolding connect
  connect-IsValid =
      let anew : IsValid (record h { has_ws = true; subscribed_topics = keys h.queues }) = record {
        filled = v.filled;
        known = v.known;
        once = v.once;
        apart = v.apart;
        backed = λ t l. sym (mem_topic-keys t h.queues) ∙ l;
        has_connection = λ l. refl;
        bounded = v.bounded;
      } in
      resubscribe-IsValid (keys h.queues) anew

  pub close-IsValid : IsValid (close h)
  unfolding close
  close-IsValid = record {
    filled = v.filled;
    known = v.known;
    once = v.once;
    apart = v.apart;
    backed = v.backed;
    has_connection = v.has_connection;
    bounded = v.bounded;
  }

  pub set_connected-IsValid : h.has_ws ≡ true → IsValid (set_connected h)
  unfolding set_connected
  set_connected-IsValid e = record {
    filled = v.filled;
    known = v.known;
    once = v.once;
    apart = v.apart;
    backed = v.backed;
    has_connection = λ _. e;
    bounded = v.bounded;
  }

  pub disconnect-IsValid : IsValid (disconnect h)
  unfolding disconnect
  disconnect-IsValid = record {
    filled = v.filled;
    known = v.known;
    once = v.once;
    apart = v.apart;
    backed = v.backed;
    has_connection = λ l. cc;
    bounded = v.bounded;
  }

  length-get_nowait : (q : List Msg) → length (or_else (get_nowait q) q) ≤ length q
  unfolding get_nowait
  length-get_nowait [] = omega arith
  length-get_nowait (x ∷ q) = omega arith

  pub take_message-IsValid : (q : ℕ) → IsValid (take_message q h)
  unfolding take_message
  take_message-IsValid q = record {
    filled = v.filled;
    known = v.known;
    once = v.once;
    apart = v.apart;
    backed = v.backed;
    has_connection = v.has_connection;
    bounded = λ p pos. ground (arith, v.bounded p pos, length-get_nowait (h.content p));
  }

  pub dispatch-IsValid : (topic : Option String) (msg : Msg) → IsValid (dispatch topic msg h)
  unfolding dispatch
  dispatch-IsValid none msg = v
  dispatch-IsValid (some topic) msg = record {
    filled = v.filled;
    known = v.known;
    once = v.once;
    apart = v.apart;
    backed = v.backed;
    has_connection = v.has_connection;
    bounded = λ p pos.
        length-offer_all h.queue_size msg (members topic h) h.content pos (λ r. v.bounded r pos) p;
  }
