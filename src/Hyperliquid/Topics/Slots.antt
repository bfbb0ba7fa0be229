-- ===== src/Hyperliquid/Topics/Slots.antt =====
-- The slots of the websocket connections of Hyperliquid (src/exchanges/hyperliquid/adapter.py): which
-- topics a slot holds, and how many.
use exchange_router_service.Prelude.{
  Bool-cases, Option-cases, inl, inr, ℕ, suc, ◌+◌, ◌≤◌, ◌<◌, ◌≡◌, refl, String, Bool, true, false,
  Option, none, some, List, [], ◌∷◌, length, nat_eq, nat_eq_iff, ltb, str_eq, str_eq_iff,
  if◌then◌else◌, All, string_has_eq, arith,
}
use exchange_router_service.Prelude.Dict.{Dict, get, put, pop, get-put, get-pop}
use exchange_router_service.StreamHub.{mem_topic, discard}
use exchange_router_service.StreamHub.Topics.{mem_topic-discard}
use exchange_router_service.Hyperliquid.Topics.{
  Slot, max_subs_per_hub, add, free_hub, add_at, discard_at,
}

-- The hubs are numbered in the order of the slots.
abbrev pub Numbered : ℕ → List Slot → Type 0
Numbered i [] = Unit
Numbered i (slot ∷ slots) = (slot.hub ≡ i) × Numbered (suc i) slots

abbrev pub is_hub : ℕ → Option ℕ → Bool
is_hub hub none = false
is_hub hub (some k) = nat_eq k hub

-- A slot holds the topics that the dictionary gives to its hub.
abbrev pub Agrees : Dict String ℕ → Slot → Type 0
Agrees d slot = (t : String) → mem_topic t slot.topics ≡ is_hub slot.hub (get t d)

abbrev pub Few : Slot → Type 0
Few slot = length slot.topics ≤ max_subs_per_hub

mem_topic-add :
    (t topic : String) (topics : List String)
    → mem_topic t (add topic topics) ≡ (if str_eq topic t then true else mem_topic t topics)
unfolding add mem_topic
mem_topic-add t topic topics = ground (arith, str_eq_iff topic t)

length-add :
    (topic : String) (topics : List String) → length (add topic topics) ≤ suc (length topics)
unfolding add
length-add topic topics = ground arith

length-discard :
    (topic : String) (topics : List String) → length (discard topic topics) ≤ length topics
unfolding discard
length-discard topic [] = omega arith
length-discard topic (x ∷ xs) = ground (arith, length-discard topic xs)

add-Agrees :
    (hub : ℕ) (topic : String) (d : Dict String ℕ) (slot : Slot) (t : String)
    → get topic d ≡ none
    → mem_topic t slot.topics ≡ is_hub slot.hub (get t d)
    → let slot' =
        if nat_eq slot.hub hub then record slot { topics = add topic slot.topics } else slot in
      mem_topic t slot'.topics ≡ is_hub slot'.hub (get t (put topic hub d))
add-Agrees hub topic d slot t new h = ground (
  arith,
  get-put topic t hub d,
  mem_topic-add t topic slot.topics,
  str_eq_iff topic t,
  nat_eq_iff slot.hub hub,
)

pub add_at-Agrees :
    (hub : ℕ) (topic : String) (d : Dict String ℕ) (slots : List Slot)
    → get topic d ≡ none
    → All (Agrees d) slots
    → All (Agrees (put topic hub d)) (add_at hub topic slots)
add_at-Agrees hub topic d [] new h = tt
add_at-Agrees hub topic d (slot ∷ slots) new h =
    (λ t. add-Agrees hub topic d slot t new (h.0 t), add_at-Agrees hub topic d slots new h.1)

pub add_at-Numbered :
    (i hub : ℕ) (topic : String) (slots : List Slot)
    → Numbered i slots
    → Numbered i (add_at hub topic slots)
add_at-Numbered i hub topic [] n = tt
add_at-Numbered i hub topic (slot ∷ slots) n =
    (ground arith, add_at-Numbered (suc i) hub topic slots n.1)

pub free_hub_bound :
    (i h : ℕ) (slots : List Slot)
    → Numbered i slots
    → free_hub slots ≡ some h
    → (i ≤ h) × (h < i + length slots)
unfolding free_hub
free_hub_bound i h [] n e = cc
free_hub_bound i h (slot ∷ slots) n e = ground (arith, free_hub_bound (suc i) h slots n.1)

above-Few :
    (i h : ℕ) (topic : String) (slots : List Slot)
    → Numbered i slots
    → h < i
    → All Few slots
    → All Few (add_at h topic slots)
above-Few i h topic [] n below f = tt
above-Few i h topic (slot ∷ slots) n below f =
    (ground arith, above-Few (suc i) h topic slots n.1 (omega arith) f.1)

-- A topic is added where there is room, so no slot gets more than its most.
pub add_at-Few :
    (i h : ℕ) (topic : String) (slots : List Slot)
    → Numbered i slots
    → free_hub slots ≡ some h
    → All Few slots
    → All Few (add_at h topic slots)
unfolding free_hub
add_at-Few i h topic [] n e f = tt
add_at-Few i h topic (slot ∷ slots) n e f =
    elim (Bool-cases (ltb (length slot.topics) max_subs_per_hub)) [
      | inl room ↦
          let here : slot.hub ≡ h = ground arith in
          (
            ground (arith, length-add topic slot.topics),
            above-Few (suc i) h topic slots n.1 (omega (arith, here, n.0)) f.1,
          )
      | inr full ↦
          let there : free_hub slots ≡ some h = ground arith in
          let (low, high) = free_hub_bound (suc i) h slots n.1 there in
          (ground arith, add_at-Few (suc i) h topic slots n.1 there f.1)
    ]

pub full_slots :
    (slots : List Slot)
    → free_hub slots ≡ none
    → All (λ slot. max_subs_per_hub ≤ length slot.topics) slots
unfolding free_hub
full_slots [] e = tt
full_slots (slot ∷ slots) e = elim (Bool-cases (ltb (length slot.topics) max_subs_per_hub)) [
  | inl room ↦ absurd (ground arith)
  | inr full ↦
      let there : free_hub slots ≡ none = ground arith in (ground arith, full_slots slots there)
]

apart-Agrees :
    (topic : String) (d : Dict String ℕ) (slot : Slot)
    → is_hub slot.hub (get topic d) ≡ false
    → Agrees d slot
    → Agrees (pop topic d) slot
apart-Agrees topic d slot apart h t =
    ground (arith, get-pop topic t d, str_eq_iff topic t, h t, h topic)

gone-Agrees :
    (topic : String) (d : Dict String ℕ) (slot : Slot)
    → Agrees d slot
    → Agrees (pop topic d) (record slot { topics = discard topic slot.topics })
gone-Agrees topic d slot h t =
    ground (arith, get-pop topic t d, mem_topic-discard t topic slot.topics, h t)

above-Agrees :
    (i hub : ℕ) (topic : String) (d : Dict String ℕ) (slots : List Slot)
    → Numbered i slots
    → hub < i
    → get topic d ≡ some hub
    → All (Agrees d) slots
    → All (Agrees (pop topic d)) slots
above-Agrees i hub topic d [] n below e h = tt
above-Agrees i hub topic d (slot ∷ slots) n below e h =
    let apart : is_hub slot.hub (get topic d) ≡ false = ground arith in
    (
      apart-Agrees topic d slot apart h.0,
      above-Agrees (suc i) hub topic d slots n.1 (omega arith) e h.1,
    )

discard_some-Agrees :
    (i hub : ℕ) (topic : String) (d : Dict String ℕ) (slots : List Slot)
    → Numbered i slots
    → get topic d ≡ some hub
    → All (Agrees d) slots
    → All (Agrees (pop topic d)) (discard_at (some hub) topic slots)
unfolding discard_at
discard_some-Agrees i hub topic d [] n e h = tt
discard_some-Agrees i hub topic d (slot ∷ slots) n e h = elim (Bool-cases (nat_eq slot.hub hub)) [
  | inl here ↦
      let same : slot.hub ≡ hub = ground arith in
      rw here (
        gone-Agrees topic d slot h.0,
        above-Agrees (suc i) hub topic d slots n.1 (omega (arith, same, n.0)) e h.1,
      )
  | inr elsewhere ↦
      let apart : is_hub slot.hub (get topic d) ≡ false = ground arith in
      rw elsewhere (
        apart-Agrees topic d slot apart h.0,
        discard_some-Agrees (suc i) hub topic d slots n.1 e h.1,
      )
]

discard_none-Agrees :
    (topic : String) (d : Dict String ℕ) (slots : List Slot)
    → get topic d ≡ none
    → All (Agrees d) slots
    → All (Agrees (pop topic d)) slots
discard_none-Agrees topic d [] e h = tt
discard_none-Agrees topic d (slot ∷ slots) e h =
    let apart : is_hub slot.hub (get topic d) ≡ false = ground arith in
    (apart-Agrees topic d slot apart h.0, discard_none-Agrees topic d slots e h.1)

-- A topic that is taken back leaves the slot of its hub, and no other slot changes.
pub discard_at-Agrees :
    (i : ℕ) (topic : String) (d : Dict String ℕ) (slots : List Slot)
    → Numbered i slots
    → All (Agrees d) slots
    → All (Agrees (pop topic d)) (discard_at (get topic d) topic slots)
unfolding discard_at
discard_at-Agrees i topic d slots n h = elim (Option-cases (get topic d)) [
  | inl e ↦ rw e (discard_none-Agrees topic d slots e h)
  | inr (hub, e) ↦ rw e (discard_some-Agrees i hub topic d slots n e h)
]

pub discard_at-Numbered :
    (i : ℕ) (o : Option ℕ) (topic : String) (slots : List Slot)
    → Numbered i slots
    → Numbered i (discard_at o topic slots)
unfolding discard_at
discard_at-Numbered i none topic slots n = n
discard_at-Numbered i (some hub) topic [] n = n
discard_at-Numbered i (some hub) topic (slot ∷ slots) n =
    ground (arith, discard_at-Numbered (suc i) (some hub) topic slots n.1)

pub discard_at-Few :
    (o : Option ℕ) (topic : String) (slots : List Slot)
    → All Few slots
    → All Few (discard_at o topic slots)
unfolding discard_at
discard_at-Few none topic slots f = f
discard_at-Few (some hub) topic [] f = f
discard_at-Few (some hub) topic (slot ∷ slots) f =
    ground (arith, length-discard topic slot.topics, discard_at-Few (some hub) topic slots f.1)

pub length-discard_at :
    (o : Option ℕ) (topic : String) (slots : List Slot)
    → length (discard_at o topic slots) ≡ length slots
unfolding discard_at
length-discard_at none topic slots = refl
length-discard_at (some hub) topic [] = refl
length-discard_at (some hub) topic (slot ∷ slots) =
    ground (arith, length-discard_at (some hub) topic slots)
