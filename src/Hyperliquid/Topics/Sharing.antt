-- ===== src/Hyperliquid/Topics/Sharing.antt =====
-- What holds of the topics that are shared out among the connections to Hyperliquid
-- (src/exchanges/hyperliquid/adapter.py), for the numbers of streams that hold them.
use exchange_router_service.Prelude.{
  ℕ, zero, suc, ◌+◌, ◌-◌, ◌≤◌, ◌<◌, ◌≡◌, refl, String, Option, none, some, List, length, ltb,
  str_eq, str_eq_iff, if◌then◌else◌, All, is_some, string_has_eq, arith,
}
use exchange_router_service.Prelude.Dict.{get, put, get-put}
use exchange_router_service.Hyperliquid.Topics.{Slot, Shares, max_hubs, or_else, count_up, assign}
use exchange_router_service.Hyperliquid.Topics.Slots.{Numbered, Agrees, Few}

-- how many streams hold each topic, and that number after one more, or one less
abbrev pub Held : Type 0
Held = String → ℕ

abbrev pub one_more : String → Held → Held
one_more topic held t = if str_eq topic t then held t + 1 else held t

abbrev pub one_less : String → Held → Held
one_less topic held t = if str_eq topic t then held t - 1 else held t

abbrev pub counted : ℕ → Option ℕ
counted zero = none
counted (suc n) = some (suc n)

pub counted_pos : (n : ℕ) → 0 < n → counted n ≡ some n
counted_pos zero h = elim h [ ]
counted_pos (suc n) h = refl

module _ {Arg : Type 0} where
  pub record IsValid (held : Held) (s : Shares Arg) : Type 0 where
    pub refs : (t : String) → get t s.topic_refs ≡ counted (held t)
    pub placed : (t : String) → is_some (get t s.topic_hub) ≡ ltb 0 (held t)
    pub argued : (t : String) → is_some (get t s.topic_args) ≡ ltb 0 (held t)
    pub numbered : Numbered 0 s.hubs
    pub agrees : All (Agrees s.topic_hub) s.hubs
    pub few : All Few s.hubs
    pub hubs : length s.hubs ≤ max_hubs
    pub known : (t : String) (k : ℕ) → get t s.topic_hub ≡ some k → k < length s.hubs

  -- a topic that is given to a hub, in slots that agree with that
  pub assign-IsValid :
      (topic : String) (arg : Arg) (hub : ℕ) (slots : List Slot) (held : Held) (s : Shares Arg)
      → IsValid held s
      → Numbered 0 slots
      → All (Agrees (put topic hub s.topic_hub)) slots
      → All Few slots
      → length slots ≤ max_hubs
      → length s.hubs ≤ length slots
      → hub < length slots
      → IsValid (one_more topic held) (assign topic arg hub slots s).1
  assign-IsValid topic arg hub slots held s v numbered agrees few hubs more below = record {
    refs = λ t. ground (
      arith,
      get-put topic t (or_else 0 (get topic s.topic_refs) + 1) s.topic_refs,
      v.refs t,
      v.refs topic,
      str_eq_iff topic t,
    );
    placed = λ t. ground (arith, get-put topic t hub s.topic_hub, v.placed t);
    argued = λ t. ground (arith, get-put topic t arg s.topic_args, v.argued t);
    numbered = numbered;
    agrees = agrees;
    few = few;
    hubs = hubs;
    known = λ t k e. ground (arith, get-put topic t hub s.topic_hub, v.known t k);
  }

  pub again-IsValid :
      (topic : String) (arg : Arg) (hub : ℕ) (held : Held) (s : Shares Arg)
      → get topic s.topic_hub ≡ some hub
      → IsValid held s
      → IsValid (one_more topic held) (count_up topic arg s)
  again-IsValid topic arg hub held s e v = record {
    refs = λ t. ground (
      arith,
      get-put topic t (or_else 0 (get topic s.topic_refs) + 1) s.topic_refs,
      v.refs t,
      v.refs topic,
      str_eq_iff topic t,
    );
    placed = λ t. ground (arith, e, v.placed t, v.placed topic, str_eq_iff topic t);
    argued = λ t. ground (arith, get-put topic t arg s.topic_args, v.argued t);
    numbered = v.numbered;
    agrees = v.agrees;
    few = v.few;
    hubs = v.hubs;
    known = v.known;
  }
