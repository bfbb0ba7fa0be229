-- ===== src/StreamHub/Topics.antt =====
-- The topics of `StreamHub` (src/exchanges/base.py): who is subscribed to what, and what the upstream
-- connection has been told.
use exchange_router_service.Prelude.{
  ℕ, ◌+◌, ◌≤◌, ◌<◌, ◌≡◌, ◌≢◌, refl, String, Bool, true, false, some, List, [], ◌∷◌, ◌++◌, arith,
  length, nat_eq, str_eq, str_eq_iff, if◌then◌else◌, is_some, string_has_eq, ◌⊎◌, inl, inr,
}
use exchange_router_service.Prelude.Dict.{Dict, get, keys}
use exchange_router_service.StreamHub.{
  Hub, Payload, mem_topic, discard, without, or_nil, send_payloads,
}
use exchange_router_service.StreamHub.Broadcast.{times}

pub append-ne-nil : (xs : List ℕ) (q : ℕ) → xs ++ q ∷ [] ≢ []
append-ne-nil [] q = λ h. cc
append-ne-nil (x ∷ xs) q = λ h. cc

-- the queues of a topic
abbrev pub members : {Msg : Type 0} → String → Hub Msg → List ℕ
members topic h = or_nil (get topic h.queues)

pub record IsValid {Msg : Type 0} (h : Hub Msg) : Type 0 where
  -- a topic in the dictionary has a queue
  pub filled : (t : String) → get t h.queues ≢ some []
  -- queues that are not made yet are nowhere
  pub known : (t : String) (p : ℕ) → h.next_queue ≤ p → times p (members t h) ≡ 0
  -- a queue stands in its topic once, and in one topic
  pub once : (t : String) (p : ℕ) → times p (members t h) ≤ 1
  pub apart : (t u : String) (p : ℕ) → times p (members t h) ≡ 1 → times p (members u h) ≡ 1 → t ≡ u
  -- a topic that is subscribed upstream has a queue to fill
  pub backed :
      (t : String) → mem_topic t h.subscribed_topics ≡ true → is_some (get t h.queues) ≡ true
  pub has_connection : h.connected ≡ true → h.has_ws ≡ true
  pub bounded : (p : ℕ) → 0 < h.queue_size → length (h.content p) ≤ h.queue_size

pub times-append : (p : ℕ) (xs ys : List ℕ) → times p (xs ++ ys) ≡ times p xs + times p ys
times-append p [] ys = omega arith
times-append p (x ∷ xs) ys = omega (arith, times-append p xs ys)

pub times-without :
    (p q : ℕ) (xs : List ℕ) → times p (without q xs) ≡ (if nat_eq q p then 0 else times p xs)
unfolding without
times-without p q [] = ground arith
times-without p q (x ∷ xs) = ground (arith, times-without p q xs)

pub mem_topic-discard :
    (t u : String) (xs : List String)
    → mem_topic t (discard u xs) ≡ (if str_eq u t then false else mem_topic t xs)
unfolding discard mem_topic
mem_topic-discard t u [] = ground arith
mem_topic-discard t u (x ∷ xs) =
    ground (arith, mem_topic-discard t u xs, str_eq_iff x u, str_eq_iff x t, str_eq_iff u t)

pub mem_topic-keys :
    {V : Type 0} (t : String) (d : Dict String V) → mem_topic t (keys d) ≡ is_some (get t d)
unfolding mem_topic get
mem_topic-keys t [] = refl
mem_topic-keys t ((k, v) ∷ d) = ground (arith, mem_topic-keys t d)

pub mem_topic-cons :
    (t x : String) (xs : List String)
    → mem_topic t (x ∷ xs) ≡ true
    → (x ≡ t) ⊎ (mem_topic t xs ≡ true)
unfolding mem_topic
mem_topic-cons t x xs h = ground (arith, str_eq_iff x t)

pub nil-or-cons {ℓ} :
    {A : Type ℓ} (l : List A) → (l ≡ []) ⊎ ((x : A) × (xs : List A) × (l ≡ x ∷ xs))
nil-or-cons [] = inl refl
nil-or-cons (x ∷ xs) = inr (x, xs, refl)

pub IsValid-if :
    {Msg : Type 0} (b : Bool) {x y : Hub Msg} → IsValid x → IsValid y → IsValid (if b then x else y)
IsValid-if true vx vy = vx
IsValid-if false vx vy = vy

pub send_payloads-IsValid :
    {Msg : Type 0} {h : Hub Msg} (p : Payload) → IsValid h → IsValid (send_payloads p h)
unfolding send_payloads
send_payloads-IsValid {h = h} p v =
    let sent : IsValid (record h { sent = h.sent ++ p ∷ [] }) = record {
      filled = v.filled;
      known = v.known;
      once = v.once;
      apart = v.apart;
      backed = v.backed;
      has_connection = v.has_connection;
      bounded = v.bounded;
    } in
    IsValid-if h.has_ws sent v
