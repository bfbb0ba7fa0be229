-- ===== src/Hyperliquid/Topics.antt =====
-- src/exchanges/hyperliquid/adapter.py: how topics are shared out among the websocket connections
-- (`_acquire_topic`, `_release_topic`). A hub is known by the number that `_make_hub` gives it.
pub mod Slots
pub mod Growth
pub mod Sharing
pub mod Acquire
pub mod Holders
use exchange_router_service.Prelude.{
  ℕ, zero, suc, ◌+◌, ◌-◌, String, Bool, true, Option, none, some, List, [], ◌∷◌, ◌++◌, map, length,
  nat_eq, ltb, leb, if◌then◌else◌, string_has_eq,
}
use exchange_router_service.Prelude.Dict.{Dict, get, put, pop}
use exchange_router_service.Errors.{upstream_unavailable, Result, ok, raise}
use exchange_router_service.StreamHub.{mem_topic, discard}

-- `_MAX_SUBS_PER_HUB` and `_MAX_HUBS`
abbrev pub max_subs_per_hub : ℕ
max_subs_per_hub = 900

abbrev pub max_hubs : ℕ
max_hubs = 10

-- an entry of `_hubs`; `topics` is a set
pub record Slot : Type 0 where
  pub hub : ℕ
  pub topics : List String

pub record Shares (Arg : Type 0) : Type 0 where
  pub hubs : List Slot
  pub topic_args : Dict String Arg
  pub topic_hub : Dict String ℕ
  pub topic_refs : Dict String ℕ

abbrev pub no_shares : {Arg : Type 0} → Shares Arg
no_shares = record { hubs = []; topic_args = []; topic_hub = []; topic_refs = [] }

-- `set.add`
unfoldable pub add : String → List String → List String
add topic topics = if mem_topic topic topics then topics else topic ∷ topics

-- the hub of the first slot with room
unfoldable pub free_hub : List Slot → Option ℕ
free_hub [] = none
free_hub (slot ∷ slots) =
    if ltb (length slot.topics) max_subs_per_hub then some slot.hub else free_hub slots

-- `slot["topics"].add(topic)` of the slot with that hub
abbrev pub add_at : ℕ → String → List Slot → List Slot
add_at hub topic =
    map
      (λ slot. if nat_eq slot.hub hub then record slot { topics = add topic slot.topics } else slot)

-- the loop of `_release_topic` over the slots, up to its `break`
unfoldable pub discard_at : Option ℕ → String → List Slot → List Slot
discard_at none topic slots = slots
discard_at (some hub) topic [] = []
discard_at (some hub) topic (slot ∷ slots) =
    if nat_eq slot.hub hub
    then record slot { topics = discard topic slot.topics } ∷ slots
    else slot ∷ discard_at (some hub) topic slots

abbrev pub or_else : ℕ → Option ℕ → ℕ
or_else n none = n
or_else n (some m) = m

module _ {Arg : Type 0} where
  -- the end of `_acquire_topic`
  abbrev pub count_up : String → Arg → Shares Arg → Shares Arg
  count_up topic arg s = record s {
    topic_args = put topic arg s.topic_args;
    topic_refs = put topic (or_else 0 (get topic s.topic_refs) + 1) s.topic_refs;
  }

  abbrev pub assign : String → Arg → ℕ → List Slot → Shares Arg → Result ℕ × Shares Arg
  assign topic arg hub hubs s =
      (ok hub, count_up topic arg (record s { hubs = hubs; topic_hub = put topic hub s.topic_hub }))

  abbrev pub place : String → Arg → Option ℕ → Shares Arg → Result ℕ × Shares Arg
  place topic arg (some hub) s = assign topic arg hub (add_at hub topic s.hubs) s
  place topic arg none s =
      if leb max_hubs (length s.hubs)
      then (raise (upstream_unavailable none), s)
      else assign topic arg (length s.hubs)
          (s.hubs ++ record { hub = length s.hubs; topics = topic ∷ [] } ∷ []) s

  abbrev pub acquire_from : String → Arg → Option ℕ → Shares Arg → Result ℕ × Shares Arg
  acquire_from topic arg (some hub) s = (ok hub, count_up topic arg s)
  acquire_from topic arg none s = place topic arg (free_hub s.hubs) s

  -- `_acquire_topic`
  unfoldable pub acquire_topic : String → Arg → Shares Arg → Result ℕ × Shares Arg
  unfolding free_hub add
  acquire_topic topic arg s = acquire_from topic arg (get topic s.topic_hub) s

  -- `_release_topic`, when `hub.unsubscribe` is done
  unfoldable pub release_topic : String → Shares Arg → Shares Arg
  unfolding discard_at
  release_topic topic s =
      let left = or_else 1 (get topic s.topic_refs) - 1 in
      if nat_eq left 0
      then record {
        hubs = discard_at (get topic s.topic_hub) topic s.hubs;
        topic_args = pop topic s.topic_args;
        topic_hub = pop topic s.topic_hub;
        topic_refs = pop topic (put topic left s.topic_refs);
      }
      else record s { topic_refs = put topic left s.topic_refs }
