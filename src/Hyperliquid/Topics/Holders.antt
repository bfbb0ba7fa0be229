-- ===== src/Hyperliquid/Topics/Holders.antt =====
-- Who holds the topics of Hyperliquid (`_acquire_topic`, `_release_topic` of
-- src/exchanges/hyperliquid/adapter.py): streams take and give back topics in any order.
use exchange_router_service.Prelude.{
  ℕ, ◌-◌, ◌<◌, ◌≡◌, refl, String, nat_eq, str_eq_iff, string_has_eq, arith, Bool-cases, inl, inr,
  sym, subst,
}
use exchange_router_service.Prelude.Dict.{get, put, get-put, get-pop}
use exchange_router_service.Errors.{Error, ok, raise}
use exchange_router_service.Hyperliquid.Topics.{
  Shares, no_shares, or_else, acquire_topic, release_topic,
}
use exchange_router_service.Hyperliquid.Topics.Slots.{
  discard_at-Agrees, discard_at-Numbered, discard_at-Few, length-discard_at,
}
use exchange_router_service.Hyperliquid.Topics.Sharing.{
  Held, one_more, one_less, counted_pos, IsValid,
}
use exchange_router_service.Hyperliquid.Topics.Acquire.{Acquired, acquire_topic-Acquired}

module _ {Arg : Type 0} where
  release_topic-IsValid :
      (topic : String) (held : Held) (s : Shares Arg)
      → 0 < held topic
      → IsValid held s
      → IsValid (one_less topic held) (release_topic topic s)
  unfolding release_topic
  release_topic-IsValid topic held s some_held v =
      let left = or_else 1 (get topic s.topic_refs) - 1 in
      let count : left ≡ held topic - 1 = ground (arith, v.refs topic) in
      elim (Bool-cases (nat_eq left 0)) [
        | inl last ↦ rw last (record {
          refs = λ t. ground (
            arith,
            get-pop topic t (put topic left s.topic_refs),
            get-put topic t left s.topic_refs,
            v.refs t,
            count,
            str_eq_iff topic t,
          );
          placed = λ t.
              ground (arith, get-pop topic t s.topic_hub, v.placed t, count, str_eq_iff topic t);
          argued = λ t.
              ground (arith, get-pop topic t s.topic_args, v.argued t, count, str_eq_iff topic t);
          numbered = discard_at-Numbered 0 (get topic s.topic_hub) topic s.hubs v.numbered;
          agrees = discard_at-Agrees 0 topic s.topic_hub s.hubs v.numbered v.agrees;
          few = discard_at-Few (get topic s.topic_hub) topic s.hubs v.few;
          hubs = omega (arith, v.hubs, length-discard_at (get topic s.topic_hub) topic s.hubs);
          known = λ t k e. ground (
            arith,
            get-pop topic t s.topic_hub,
            v.known t k,
            length-discard_at (get topic s.topic_hub) topic s.hubs,
          );
        })
        | inr more ↦ rw more (record {
          refs = λ t. ground (
            arith,
            get-put topic t left s.topic_refs,
            v.refs t,
            count,
            str_eq_iff topic t,
            counted_pos (held t - 1),
          );
          placed = λ t. ground (arith, v.placed t, count, str_eq_iff topic t);
          argued = λ t. ground (arith, v.argued t, count, str_eq_iff topic t);
          numbered = v.numbered;
          agrees = v.agrees;
          few = v.few;
          hubs = v.hubs;
          known = v.known;
        })
      ]

  -- The histories of the streams: the topics that each holds, and the state.
  pub data Reach : Held → Shares Arg → Type 0 where
    begin : Reach (λ t. 0) no_shares
    acquires :
        {held : Held} {s s' : Shares Arg} (topic : String) (arg : Arg) (hub : ℕ)
        → Reach held s
        → acquire_topic topic arg s ≡ (ok hub, s')
        → Reach (one_more topic held) s'
    refused :
        {held : Held} {s s' : Shares Arg} (topic : String) (arg : Arg) (err : Error)
        → Reach held s
        → acquire_topic topic arg s ≡ (raise err, s')
        → Reach held s'
    releases :
        {held : Held} {s : Shares Arg} (topic : String)
        → Reach held s
        → 0 < held topic
        → Reach (one_less topic held) (release_topic topic s)

  -- Whatever streams take and give back topics, and in which order: a topic has a reference count
  -- exactly while some stream holds it, and that is the number of the streams; just as long it has a
  -- hub and its subscription argument. A slot holds the topics that are given to its hub, and no
  -- others. No slot has more than 900 topics, there are no more than 10 slots, numbered in their
  -- order, and every topic is given to one of them.
  pub shares-IsValid : {held : Held} {s : Shares Arg} → Reach held s → IsValid held s
  unfolding get
  shares-IsValid begin = record {
    refs = λ t. refl;
    placed = λ t. refl;
    argued = λ t. refl;
    numbered = tt;
    agrees = tt;
    few = tt;
    hubs = omega arith;
    known = λ t k e. absurd (ground arith);
  }
  shares-IsValid (acquires {held} {s} {s'} topic arg hub r e) =
      (subst (Acquired topic held s) e
        (acquire_topic-Acquired topic arg held s (shares-IsValid r))).0
  shares-IsValid (refused {held} {s} {s'} topic arg err r e) =
      let (_, same, _, _, _) =
        subst (Acquired topic held s) e
          (acquire_topic-Acquired topic arg held s (shares-IsValid r)) in
      subst (IsValid held) (sym same) (shares-IsValid r)
  shares-IsValid (releases {held} {s} topic r h) =
      release_topic-IsValid topic held s h (shares-IsValid r)

  -- In every state that the streams reach, a call of `_acquire_topic` gives the hub that the topic
  -- has from then on, which is the hub that it had where some stream holds it. It raises
  -- `UpstreamUnavailableError` only where no stream holds the topic and there are 10 slots, each with
  -- 900 topics or more, and then it changes nothing.
  pub acquire_topic_of_reachable :
      (topic : String) (arg : Arg) {held : Held} {s : Shares Arg}
      → Reach held s
      → Acquired topic held s (acquire_topic topic arg s)
  acquire_topic_of_reachable topic arg r = acquire_topic-Acquired topic arg _ _ (shares-IsValid r)
