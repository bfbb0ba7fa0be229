-- ===== src/Hyperliquid/Topics/Acquire.antt =====
-- What `_acquire_topic` of src/exchanges/hyperliquid/adapter.py does.
use exchange_router_service.Prelude.{
  length-map, length-append, ℕ, ◌≤◌, ◌<◌, ◌≡◌, refl, String, Option, none, some, [], ◌∷◌, ◌++◌,
  length, leb, str_eq_iff, All, All-append, string_has_eq, arith, Bool-cases, Option-cases, inl,
  inr,
}
use exchange_router_service.Prelude.Dict.{get, put, get-put}
use exchange_router_service.Errors.{Result, ok, raise, upstream_unavailable}
use exchange_router_service.Hyperliquid.Topics.Growth.{snoc_Numbered, old_Agrees, new_Agrees}
use exchange_router_service.Hyperliquid.Topics.{
  Shares, max_subs_per_hub, max_hubs, free_hub, add_at, place, acquire_topic,
}
use exchange_router_service.Hyperliquid.Topics.Slots.{
  Agrees, Few, add_at-Agrees, add_at-Numbered, add_at-Few, free_hub_bound, full_slots,
}
use exchange_router_service.Hyperliquid.Topics.Sharing.{
  Held, one_more, IsValid, assign-IsValid, again-IsValid,
}

module _ {Arg : Type 0} where
  -- What a call of `acquire_topic` does: it gives the hub that the topic has from then on, the one
  -- that it had where somebody holds it; or it raises and changes nothing, where nobody holds the
  -- topic and every hub has its most.
  abbrev pub Acquired : String → Held → Shares Arg → Result ℕ × Shares Arg → Type 0
  Acquired topic held s (ok hub, s') =
      IsValid (one_more topic held) s'
      × (get topic s'.topic_hub ≡ some hub)
      × (0 < held topic → get topic s.topic_hub ≡ some hub)
  Acquired topic held s (raise err, s') =
      (err ≡ upstream_unavailable none)
      × (s' ≡ s)
      × (held topic ≡ 0)
      × (length s.hubs ≡ max_hubs)
      × All (λ slot. max_subs_per_hub ≤ length slot.topics) s.hubs

  place-Acquired :
      (topic : String) (arg : Arg) (held : Held) (s : Shares Arg) (o : Option ℕ)
      → get topic s.topic_hub ≡ none
      → free_hub s.hubs ≡ o
      → IsValid held s
      → Acquired topic held s (place topic arg o s)
  place-Acquired topic arg held s (some hub) new e v =
      let (low, high) = free_hub_bound 0 hub s.hubs v.numbered e in
      let same : length (add_at hub topic s.hubs) ≡ length s.hubs = length-map _ s.hubs in
      (
        assign-IsValid topic arg hub (add_at hub topic s.hubs) held s v
            (add_at-Numbered 0 hub topic s.hubs v.numbered)
            (add_at-Agrees hub topic s.topic_hub s.hubs new v.agrees)
            (add_at-Few 0 hub topic s.hubs v.numbered e v.few) (omega (arith, same, v.hubs))
            (omega (arith, same)) (omega (arith, same, high)),
        ground (arith, get-put topic topic hub s.topic_hub, str_eq_iff topic topic),
        λ h. ground (arith, v.placed topic),
      )
  place-Acquired topic arg held s none new e v = elim (Bool-cases (leb max_hubs (length s.hubs))) [
    | inl full ↦
        rw full
          (refl, refl, ground (arith, v.placed topic), ground (arith, v.hubs), full_slots s.hubs e)
    | inr room ↦ rw room (
      assign-IsValid topic arg (length s.hubs)
          (s.hubs ++ record { hub = length s.hubs; topics = topic ∷ [] } ∷ []) held s v
          (snoc_Numbered 0 (length s.hubs) s.hubs (topic ∷ []) (omega arith) v.numbered)
          (All-append (Agrees (put topic (length s.hubs) s.topic_hub)) s.hubs _
            (old_Agrees 0 (length s.hubs) topic s.topic_hub s.hubs new v.numbered (omega arith)
              v.agrees)
            (new_Agrees (length s.hubs) topic s.topic_hub v.known, tt))
          (All-append Few s.hubs _ v.few (omega arith, tt))
          (ground (
            arith,
            length-append s.hubs (record { hub = length s.hubs; topics = topic ∷ [] } ∷ []),
          ))
          (omega (
            arith,
            length-append s.hubs (record { hub = length s.hubs; topics = topic ∷ [] } ∷ []),
          ))
          (omega (
            arith,
            length-append s.hubs (record { hub = length s.hubs; topics = topic ∷ [] } ∷ []),
          )),
      ground (arith, get-put topic topic (length s.hubs) s.topic_hub, str_eq_iff topic topic),
      λ h. ground (arith, v.placed topic),
    )
  ]

  pub acquire_topic-Acquired :
      (topic : String) (arg : Arg) (held : Held) (s : Shares Arg)
      → IsValid held s
      → Acquired topic held s (acquire_topic topic arg s)
  unfolding acquire_topic
  acquire_topic-Acquired topic arg held s v = elim (Option-cases (get topic s.topic_hub)) [
    | inl new ↦ rw new (place-Acquired topic arg held s (free_hub s.hubs) new refl v)
    | inr (hub, e) ↦ rw e (again-IsValid topic arg hub held s e v, e, λ h. e)
  ]
