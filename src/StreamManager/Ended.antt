-- ===== src/StreamManager/Ended.antt =====
-- The end of an upstream stream of src/stream_manager.py: the last client leaves, the stream ends by
-- itself, or the service shuts down.
use exchange_router_service.Prelude.{
  if◌then◌else◌, str_eq, nat_eq, ℕ, String, ◌≡◌, ◌≢◌, refl, true, false, none, some, [], ◌∷◌, ◌++◌,
  map, ap, ◌∙◌, arith, nat_eq_iff, str_eq_iff, inl, inr, Option-cases, string_has_eq, nat_has_eq,
}
use exchange_router_service.Prelude.Dict.{get, pop, values, get-pop}
use exchange_router_service.StreamManager.{
  stream_end, looping, leaving, Bucket, ended, Manager, set_phase, cancelled, unsubscribe, shutdown,
  finish, owns, close_all, bucket_values,
}
use exchange_router_service.StreamManager.Invariant.{is_live, key_of, IsValid}
use exchange_router_service.StreamManager.Reach.{Reach, next, ends, finishes, Reach-IsValid}
use exchange_router_service.StreamManager.Steps.{registered, shutdown-live}
use exchange_router_service.StreamManager.Clients.{client}

-- the state that is left when the handler task `t` of `key` is cancelled with its last client
abbrev taken_down : String → ℕ → Manager → Manager
taken_down key t m = record m {
  active_streams = pop key m.active_streams;
  upstream_tasks = pop key m.upstream_tasks;
  phase = set_phase m.phase t (cancelled (m.phase t));
}

pop_only : (c w : ℕ) → pop c ((c, w) ∷ []) ≡ []
unfolding pop
pop_only c w = ground (arith, nat_eq_iff c c)

unsubscribe-eq-taken_down :
    (m : Manager) (key : String) (client_id websocket t : ℕ)
    → get key m.active_streams ≡ some ((client_id, websocket) ∷ [])
    → get key m.upstream_tasks ≡ some t
    → unsubscribe key client_id m ≡ taken_down key t m
unfolding unsubscribe
unsubscribe-eq-taken_down m key client_id websocket t found reg =
    rw (found, unsubscribe) (rw pop_only (rw reg))

-- In a reachable state, when the only client of a key leaves, the handler task of the key is
-- cancelled and is no longer in its loop, and the key is in neither dictionary; the other tasks, and
-- the entries of every other key, stay.
pub unsubscribe_last :
    {m : Manager} (key : String) (client_id websocket : ℕ)
    → Reach m
    → get key m.active_streams ≡ some ((client_id, websocket) ∷ [])
    → (t : ℕ) × (get key m.upstream_tasks ≡ some t)
      × (is_live ((unsubscribe key client_id m).phase t) ≡ false)
      × ((s : ℕ)
          → (unsubscribe key client_id m).phase s
            ≡ (if nat_eq t s then cancelled (m.phase t) else m.phase s))
      × ((k : String)
          → get k (unsubscribe key client_id m).upstream_tasks
            ≡ (if str_eq key k then none else get k m.upstream_tasks))
      × ((k : String)
          → get k (unsubscribe key client_id m).active_streams
            ≡ (if str_eq key k then none else get k m.active_streams))
unfolding cancelled is_live
unsubscribe_last {m} key client_id websocket r found =
    let (t, reg) = registered (Reach-IsValid r) key ((client_id, websocket) ∷ []) found in
    rw (unsubscribe-eq-taken_down m key client_id websocket t found reg) (
      t,
      reg,
      ground arith,
      λ s. refl,
      λ k. get-pop key k m.upstream_tasks,
      λ k. get-pop key k m.active_streams,
    )

-- the handler of a key with clients is registered, and takes the key down
finish_owner :
    (t : ℕ) (key : String) (bucket : Bucket) (m : Manager)
    → get key m.upstream_tasks ≡ some t
    → get key m.active_streams ≡ some bucket
    → ((finish t key m).closed
        ≡ m.closed ++ map (λ c. (c, "Upstream disconnected")) (values bucket))
      × ((k : String)
          → get k (finish t key m).upstream_tasks
            ≡ (if str_eq key k then none else get k m.upstream_tasks))
      × ((k : String) (c : ℕ)
          → client (finish t key m) k c ≡ (if str_eq key k then none else client m k c))
unfolding finish owns close_all bucket_values
finish_owner t key bucket m reg found =
    rw (reg, finish)
      (rw ((nat_eq_iff t t).1 refl) (
        rw found,
        λ k. get-pop key k m.upstream_tasks,
        λ k c. ground (arith, get-pop key k m.active_streams, str_eq_iff key k),
      ))

clients_of :
    {m : Manager} (key : String) (t : ℕ)
    → IsValid m
    → get key m.upstream_tasks ≡ some t
    → (bucket : Bucket) × (get key m.active_streams ≡ some bucket) × (bucket ≢ [])
clients_of {m} key t h reg = elim (Option-cases (get key m.active_streams)) [
  | inl miss ↦ absurd (ground (arith, h.agree key))
  | inr (bucket, found) ↦ (bucket, found, λ e. h.filled key (found ∙ ap some e))
]

-- what `finish` finds when a stream has just ended
abbrev pub after_stream : ℕ → String → Manager → Manager
after_stream t key m = finish t key (stream_end t key m)

-- When, in a reachable state, the stream of a handler in its loop ends by itself and the `finally`
-- block runs, the key has clients, one or more. Each of them is closed, once for each entry and in
-- their order, and nobody else; then the key has no client and no handler task, neither a registered
-- one nor one in its loop, while the clients and the registered tasks of the other keys are as before.
pub finish-stream_end :
    {m : Manager} (t : ℕ) (key : String)
    → Reach m
    → m.phase t ≡ looping key
    → (bucket : Bucket) × (get key m.active_streams ≡ some bucket)
      × (bucket ≢ [])
      × ((after_stream t key m).closed
          ≡ m.closed ++ map (λ c. (c, "Upstream disconnected")) (values bucket))
      × ((k : String)
          → get k (after_stream t key m).upstream_tasks
            ≡ (if str_eq key k then none else get k m.upstream_tasks))
      × ((k : String) (c : ℕ)
          → client (after_stream t key m) k c ≡ (if str_eq key k then none else client m k c))
      × ((s : ℕ)
          → is_live ((after_stream t key m).phase s) ≡ true
          → key_of ((after_stream t key m).phase s) ≢ some key)
unfolding stream_end is_live key_of
finish-stream_end {m} t key r looped =
    let valid = Reach-IsValid r in
    let reg = valid.live key t (rw looped) (rw looped) in
    let (bucket, found, some_client) = clients_of key t valid reg in
    let (shut, tasks, seen) = finish_owner t key bucket (stream_end t key m) reg found in
    let ended_valid = Reach-IsValid (next (next r (ends t key looped)) (finishes t key leaves)) in
    (
      bucket,
      found,
      some_client,
      shut,
      tasks,
      seen,
      λ s l k. ground (arith, ended_valid.live key s l k, tasks key, str_eq_iff key key),
    )
  where
    leaves : (stream_end t key m).phase t ≡ leaving key
    leaves = ground (arith, nat_eq_iff t t)

-- A handler that is no longer registered under its key (it was cancelled, or its last client was
-- dead) closes nobody and touches neither dictionary, also where a new handler has the key by now.
finish_stranger :
    (t : ℕ) (key : String) (m : Manager)
    → get key m.upstream_tasks ≢ some t
    → finish t key m ≡ record m { phase = set_phase m.phase t ended }
unfolding finish owns
finish_stranger t key m other = elim (Option-cases (get key m.upstream_tasks)) [
  | inl miss ↦ rw (miss, finish)
  | inr (s, reg) ↦ rw (reg, finish) (ground (arith, nat_eq_iff s t))
]

-- After `shutdown` of a reachable state nothing is registered, and no handler task is in its loop.
pub shutdown_quiet :
    {m : Manager} (t : ℕ)
    → Reach m
    → (is_live ((shutdown m).phase t) ≡ false)
      × ((shutdown m).upstream_tasks ≡ [])
      × ((shutdown m).active_streams ≡ [])
unfolding shutdown
shutdown_quiet t r = (shutdown-live (Reach-IsValid r) t, refl, refl)
