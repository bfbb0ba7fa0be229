-- ===== src/StreamManager/Clients.antt =====
-- What a client of src/stream_manager.py can tell: which socket a client id has under a key.
use exchange_router_service.Prelude.{
  ℕ, String, ◌≡◌, refl, Bool, true, false, ◌&&◌, Option, none, some, List, [], ◌∷◌, arith, nat_eq,
  str_eq, nat_eq_iff, str_eq_iff, is_some, if◌then◌else◌, inl, inr, Bool-cases, Option-cases,
  string_has_eq, nat_has_eq, ◌∙◌,
}
use exchange_router_service.Prelude.Dict.{Dict, get, put, pop, get-put, get-pop}
use exchange_router_service.StreamManager.{
  Bucket, Manager, subscribe, unsubscribe, is_empty, dead_items, spawn_closes, pop_all, prune, sent,
}

-- the socket of a client in a bucket that may be missing
abbrev pub member : ℕ → Option Bucket → Option ℕ
member c none = none
member c (some bucket) = get c bucket

-- The abstract view: the socket that `client_id` has under `key`, if it is subscribed there.
abbrev pub client : Manager → String → ℕ → Option ℕ
client m key c = member c (get key m.active_streams)

-- A bucket that has become empty goes with its key; otherwise it is stored. Both read alike.
member-pop :
    (key k : String) (c : ℕ) (left : Bucket) (d : Dict String Bucket)
    → is_empty left ≡ true
    → member c (get k (pop key d)) ≡ (if str_eq key k then get c left else member c (get k d))
unfolding is_empty get
member-pop key k c left d e = ground (arith, get-pop key k d)

member-put :
    (key k : String) (c : ℕ) (left : Bucket) (d : Dict String Bucket)
    → member c (get k (put key left d)) ≡ (if str_eq key k then get c left else member c (get k d))
member-put key k c left d = ground (arith, get-put key k left d)

module _ (key : String) (client_id : ℕ) (m : Manager) (k : String) (c : ℕ) where
  -- `subscribe` adds the one client under the one key, and changes nothing else in the view.
  pub client-subscribe :
      (websocket : ℕ) (channel : String)
      → client (subscribe key client_id websocket channel m) k c
        ≡ (if str_eq key k && nat_eq client_id c then some websocket else client m k c)
  unfolding subscribe get
  client-subscribe websocket channel = elim (Option-cases (get key m.active_streams)) [
    | inl miss ↦
        rw (miss, subscribe)
          (ground (
            arith,
            get-put key k (put client_id websocket []) m.active_streams,
            get-put client_id c websocket [],
            str_eq_iff key k,
          ))
    | inr (bucket, found) ↦
        rw (found, subscribe)
          (ground (
            arith,
            get-put key k (put client_id websocket bucket) m.active_streams,
            get-put client_id c websocket bucket,
            str_eq_iff key k,
          ))
  ]

  -- `unsubscribe` removes the one client under the one key, and changes nothing else in the view.
  pub client-unsubscribe :
      client (unsubscribe key client_id m) k c
      ≡ (if str_eq key k && nat_eq client_id c then none else client m k c)
  unfolding unsubscribe get is_empty
  client-unsubscribe = elim (Option-cases (get key m.active_streams)) [
    | inl miss ↦ rw (miss, unsubscribe) (ground (arith, str_eq_iff key k))
    | inr (bucket, found) ↦ elim (Bool-cases (is_empty (pop client_id bucket))) [
      | inl last ↦
          rw (found, unsubscribe)
            (rw last (
              ground (
                arith,
                member-pop key k c (pop client_id bucket) m.active_streams,
                get-pop client_id c bucket,
                str_eq_iff key k,
              )))
      | inr more ↦
          rw (found, unsubscribe)
            (rw more (
              ground (
                arith,
                member-put key k c (pop client_id bucket) m.active_streams,
                get-pop client_id c bucket,
                str_eq_iff key k,
              )))
    ]
  ]

get-dead_items :
    (failed : ℕ → Bool) (items : List (ℕ × ℕ)) (c : ℕ)
    → is_some (get c (dead_items failed items)) ≡ (failed c && is_some (get c items))
unfolding get dead_items
get-dead_items failed [] c = ground arith
get-dead_items failed ((cid, client) ∷ items) c =
    ground (arith, get-dead_items failed items c, nat_eq_iff cid c)

no_dead : (l : List (ℕ × ℕ)) (c : ℕ) → is_empty l ≡ true → is_some (get c l) ≡ false
unfolding is_empty get
no_dead [] c h = refl
no_dead (x ∷ l) c h = cc

get-pop_all :
    (dead : List (ℕ × ℕ)) (bucket : Bucket) (c : ℕ)
    → get c (pop_all dead bucket) ≡ (if is_some (get c dead) then none else get c bucket)
unfolding get pop_all
get-pop_all [] bucket c = refl
get-pop_all ((cid, client) ∷ dead) bucket c =
    ground (arith, get-pop_all dead (pop cid bucket) c, get-pop cid c bucket)

active-spawn_closes :
    (dead : List (ℕ × ℕ)) (m : Manager) → (spawn_closes dead m).active_streams ≡ m.active_streams
unfolding spawn_closes
active-spawn_closes [] m = refl
active-spawn_closes ((cid, client) ∷ dead) m = active-spawn_closes dead _

client-prune :
    (t : ℕ) (key : String) (dead : List (ℕ × ℕ)) (m : Manager) (k : String) (c : ℕ)
    → client (prune t key dead m) k c
      ≡ (if str_eq key k && is_some (get c dead) then none else client m k c)
unfolding prune
client-prune t key dead m k c = elim (Option-cases (get key m.active_streams)) [
  | inl miss ↦ rw (miss, prune) (ground (arith, str_eq_iff key k))
  | inr (current, found) ↦ elim (Bool-cases (is_empty (pop_all dead current))) [
    | inl last ↦
        rw (found, prune)
          (rw last (
            ground (
              arith,
              member-pop key k c (pop_all dead current) m.active_streams,
              get-pop_all dead current c,
              str_eq_iff key k,
            )))
    | inr more ↦
        rw (found, prune)
          (rw more (
            ground (
              arith,
              member-put key k c (pop_all dead current) m.active_streams,
              get-pop_all dead current c,
              str_eq_iff key k,
            )))
  ]
]

-- When the sends of an item have come to their results, exactly the clients of the snapshot whose
-- send failed leave the key, also where others have joined or left since; every other client of
-- every key stays.
client-sent :
    (t : ℕ) (key : String) (items : List (ℕ × ℕ)) (failed : ℕ → Bool) (m : Manager) (k : String)
    (c : ℕ)
    → client (sent t key items failed m) k c
      ≡ (if str_eq key k && (failed c && is_some (get c items)) then none else client m k c)
unfolding sent
client-sent t key items failed m k c = elim (Bool-cases (is_empty (dead_items failed items))) [
  | inl fine ↦
      rw fine
        (ground (arith, get-dead_items failed items c, no_dead (dead_items failed items) c fine))
  | inr some_dead ↦
      let dead = dead_items failed items in
      rw some_dead (
        client-prune t key dead (spawn_closes dead m) k c
        ∙ rw (active-spawn_closes dead m, get-dead_items failed items c))
]

-- A client that subscribes under a new id and leaves again leaves the view as it was.
pub unsubscribe-subscribe :
    (key : String) (client_id websocket : ℕ) (channel : String) (m : Manager)
    → client m key client_id ≡ none
    → (k : String) (c : ℕ)
    → client (unsubscribe key client_id (subscribe key client_id websocket channel m)) k c
      ≡ client m k c
unsubscribe-subscribe key client_id websocket channel m new k c = ground (
  arith,
  client-unsubscribe key client_id (subscribe key client_id websocket channel m) k c,
  client-subscribe key client_id m k c websocket channel,
  str_eq_iff key k,
  nat_eq_iff client_id c,
)
