-- ===== src/Hyperliquid/Topics/Growth.antt =====
-- A new slot behind those of the websocket connections of Hyperliquid
-- (src/exchanges/hyperliquid/adapter.py).
use exchange_router_service.Prelude.{
  ℕ, suc, ◌+◌, ◌≤◌, ◌<◌, ◌≡◌, String, none, some, List, [], ◌∷◌, ◌++◌, length, str_eq_iff, All,
  Option-cases, inl, inr, arith, string_has_eq,
}
use exchange_router_service.Prelude.Dict.{Dict, get, put, get-put}
use exchange_router_service.StreamHub.{mem_topic}
use exchange_router_service.Hyperliquid.Topics.{Slot}
use exchange_router_service.Hyperliquid.Topics.Slots.{Numbered, Agrees}

pub snoc_Numbered :
    (i n : ℕ) (slots : List Slot) (topics : List String)
    → n ≡ i + length slots
    → Numbered i slots
    → Numbered i (slots ++ record { hub = n; topics = topics } ∷ [])
snoc_Numbered i n [] topics e v = (omega (arith, e), tt)
snoc_Numbered i n (slot ∷ slots) topics e v =
    (v.0, snoc_Numbered (suc i) n slots topics (omega (arith, e)) v.1)

pub old_Agrees :
    (i n : ℕ) (topic : String) (d : Dict String ℕ) (slots : List Slot)
    → get topic d ≡ none
    → Numbered i slots
    → i + length slots ≤ n
    → All (Agrees d) slots
    → All (Agrees (put topic n d)) slots
old_Agrees i n topic d [] new v below h = tt
old_Agrees i n topic d (slot ∷ slots) new v below h = (
  λ t. ground (arith, get-put topic t n d, h.0 t, h.0 topic, str_eq_iff topic t),
  old_Agrees (suc i) n topic d slots new v.1 (omega arith) h.1,
)

pub new_Agrees :
    (n : ℕ) (topic : String) (d : Dict String ℕ)
    → ((t : String) (k : ℕ) → get t d ≡ some k → k < n)
    → Agrees (put topic n d) (record { hub = n; topics = topic ∷ [] })
unfolding mem_topic
new_Agrees n topic d known t = elim (Option-cases (get t d)) [
  | inl e ↦ ground (arith, get-put topic t n d)
  | inr (k, e) ↦ ground (arith, get-put topic t n d, known t k e)
]
