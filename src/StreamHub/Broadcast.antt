-- ===== src/StreamHub/Broadcast.antt =====
-- The bounded queues of `StreamHub` (src/exchanges/base.py) hold the newest messages of their topic.
use exchange_router_service.Prelude.{
  ℕ, ◌+◌, ◌-◌, ◌≤◌, ◌<◌, ◌≡◌, ◌≢◌, refl, ◌∙◌, ap, sym, String, false, Option, none, some, List, [],
  ◌∷◌, ◌++◌, arith, length, drop, last_n, length-append, last_n_of_le, last_n-append_last_n,
  length-last_n, ltb→lt, ltb, nat_eq, str_eq, str_eq_iff, if◌then◌else◌, string_has_eq, inl, inr,
  Bool-cases,
}
use exchange_router_service.Prelude.Dict.{get}
use exchange_router_service.StreamHub.{Hub, offer, offer_all, or_nil, dispatch}
use mathlib.Core.List.{append_assoc, append-nil}

module _ {Msg : Type 0} where
  offer_room :
      (size : ℕ) (msg : Msg) (q : List Msg) → length q < size → offer size msg q ≡ q ++ msg ∷ []
  unfolding offer
  offer_room size msg q room = ground arith

  offer_full :
      (size : ℕ) (msg x : Msg) (q : List Msg)
      → length (x ∷ q) ≡ size
      → offer size msg (x ∷ q) ≡ q ++ msg ∷ []
  unfolding offer
  offer_full size msg x q full = ground arith

  -- One message on a queue within its bound: the newest `size` messages stay, in their order.
  pub offer-eq-last_n :
      (size : ℕ) (msg : Msg) (q : List Msg)
      → 0 < size
      → length q ≤ size
      → offer size msg q ≡ last_n size (q ++ msg ∷ [])
  offer-eq-last_n size msg [] pos room =
      offer_room size msg [] pos ∙ sym (last_n_of_le size (msg ∷ []) (omega arith))
  offer-eq-last_n size msg (x ∷ q) pos room = elim (Bool-cases (ltb (length (x ∷ q)) size)) [
    | inl short ↦
        offer_room size msg (x ∷ q) (ltb→lt _ _ short)
        ∙ sym (
            last_n_of_le size (x ∷ q ++ msg ∷ [])
              (omega (arith, ltb→lt _ _ short, length-append q (msg ∷ []))))
    | inr full ↦
        let e : length (x ∷ q) ≡ size = ground arith in
        let one : 1 ≡ length (x ∷ q ++ msg ∷ []) - size =
          omega (arith, length-append q (msg ∷ [])) in
        offer_full size msg x q e ∙ ap (λ k. drop k (x ∷ q ++ msg ∷ [])) one
  ]

  -- A run of messages for one queue.
  abbrev pub offers : ℕ → List Msg → List Msg → List Msg
  offers size [] q = q
  offers size (msg ∷ msgs) q = offers size msgs (offer size msg q)

  length-offer :
      (size : ℕ) (msg : Msg) (q : List Msg)
      → 0 < size
      → length q ≤ size
      → length (offer size msg q) ≤ size
  length-offer size msg q pos room =
      rw (offer-eq-last_n size msg q pos room) (omega (arith, length-last_n size (q ++ msg ∷ [])))

  -- From a queue within its bound, after any messages the queue holds the newest `size` of the
  -- messages before and the new ones, in their order.
  pub offers-eq-last_n :
      (size : ℕ) (msgs q : List Msg)
      → 0 < size
      → length q ≤ size
      → offers size msgs q ≡ last_n size (q ++ msgs)
  offers-eq-last_n size [] q pos room = rw append-nil (sym (last_n_of_le size q room))
  offers-eq-last_n size (msg ∷ msgs) q pos room =
      offers-eq-last_n size msgs (offer size msg q) pos (length-offer size msg q pos room)
      ∙ rw (offer-eq-last_n size msg q pos room) (last_n-append_last_n size (q ++ msg ∷ []) msgs)
      ∙ ap (last_n size) (append_assoc q (msg ∷ []) msgs)

-- how often a queue stands in a list of queues
abbrev pub times : ℕ → List ℕ → ℕ
times p [] = 0
times p (q ∷ qs) = (if nat_eq q p then 1 else 0) + times p qs

module _ {Msg : Type 0} where
  offer_all_absent :
      (size : ℕ) (msg : Msg) (qs : List ℕ) (content : ℕ → List Msg) (p : ℕ)
      → times p qs ≡ 0
      → offer_all size msg qs content p ≡ content p
  unfolding offer_all
  offer_all_absent size msg [] content p h = refl
  offer_all_absent size msg (q ∷ qs) content p h =
      let other : nat_eq q p ≡ false = ground arith in
      let rest : times p qs ≡ 0 = ground arith in offer_all_absent size msg qs _ p rest ∙ rw other

  offer_all_once :
      (size : ℕ) (msg : Msg) (qs : List ℕ) (content : ℕ → List Msg) (p : ℕ)
      → times p qs ≡ 1
      → offer_all size msg qs content p ≡ offer size msg (content p)
  unfolding offer_all
  offer_all_once size msg [] content p h = absurd (omega arith)
  offer_all_once size msg (q ∷ qs) content p h = elim (Bool-cases (nat_eq q p)) [
    | inl mine ↦
        let rest : times p qs ≡ 0 = ground arith in offer_all_absent size msg qs _ p rest ∙ rw mine
    | inr other ↦
        let rest : times p qs ≡ 1 = ground arith in offer_all_once size msg qs _ p rest ∙ rw other
  ]

  pub length-offer_all :
      (size : ℕ) (msg : Msg) (qs : List ℕ) (content : ℕ → List Msg)
      → 0 < size
      → ((p : ℕ) → length (content p) ≤ size)
      → (p : ℕ) → length (offer_all size msg qs content p) ≤ size
  unfolding offer_all
  length-offer_all size msg [] content pos room p = room p
  length-offer_all size msg (q ∷ qs) content pos room p =
      length-offer_all size msg qs _ pos
        (λ r. ground (arith, length-offer size msg (content r) pos (room r), room r)) p

  -- The messages of the upstream connection, each with the topic that `_route` gave it.
  abbrev pub dispatch_all : List (Option String × Msg) → Hub Msg → Hub Msg
  dispatch_all [] h = h
  dispatch_all ((topic, msg) ∷ evs) h = dispatch_all evs (dispatch topic msg h)

  -- those that were routed to one topic
  abbrev pub routed : String → List (Option String × Msg) → List Msg
  routed topic [] = []
  routed topic ((none, msg) ∷ evs) = routed topic evs
  routed topic ((some t, msg) ∷ evs) =
      let rest = routed topic evs in if str_eq t topic then msg ∷ rest else rest

  module _ (topic : String) (p : ℕ) where
    content-dispatch_all :
        (evs : List (Option String × Msg)) (h : Hub Msg)
        → times p (or_nil (get topic h.queues)) ≡ 1
        → ((t : String) → t ≢ topic → times p (or_nil (get t h.queues)) ≡ 0)
        → (dispatch_all evs h).content p ≡ offers h.queue_size (routed topic evs) (h.content p)
    unfolding dispatch
    content-dispatch_all [] h one none_else = refl
    content-dispatch_all ((none, msg) ∷ evs) h one none_else =
        content-dispatch_all evs h one none_else
    content-dispatch_all ((some t, msg) ∷ evs) h one none_else =
        elim (Bool-cases (str_eq t topic)) [
          | inl mine ↦
              let e : t ≡ topic = (str_eq_iff t topic).0 mine in
              let once : times p (or_nil (get t h.queues)) ≡ 1 = rw e one in
              content-dispatch_all evs (dispatch (some t) msg h) one none_else
              ∙ rw mine (
                  ap (offers h.queue_size (routed topic evs))
                    (offer_all_once h.queue_size msg (or_nil (get t h.queues)) h.content p once))
          | inr other ↦
              let absent : times p (or_nil (get t h.queues)) ≡ 0 =
                none_else t (λ e. ground (arith, str_eq_iff t topic)) in
              content-dispatch_all evs (dispatch (some t) msg h) one none_else
              ∙ rw other (
                  ap (offers h.queue_size (routed topic evs)) (
                    offer_all_absent h.queue_size msg (or_nil (get t h.queues)) h.content p absent))
        ]

    -- A queue that is subscribed to one topic, and within its bound, holds after any messages the
    -- newest `queue_size` of what it held and the messages of its topic, in their order. Messages
    -- of other topics, and those that no topic was found for, do not show in it.
    pub window-dispatch_all :
        (evs : List (Option String × Msg)) (h : Hub Msg)
        → 0 < h.queue_size
        → length (h.content p) ≤ h.queue_size
        → times p (or_nil (get topic h.queues)) ≡ 1
        → ((t : String) → t ≢ topic → times p (or_nil (get t h.queues)) ≡ 0)
        → (dispatch_all evs h).content p ≡ last_n h.queue_size (h.content p ++ routed topic evs)
    window-dispatch_all evs h pos room one none_else =
        content-dispatch_all evs h one none_else
        ∙ offers-eq-last_n h.queue_size (routed topic evs) (h.content p) pos room
