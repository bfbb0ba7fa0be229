-- ===== src/StreamManager/Reach.antt =====
-- The interleavings of src/stream_manager.py: any client and any handler task may take the next
-- transition, and `shutdown` may come at any moment.
use exchange_router_service.Prelude.{
  ℕ, String, ◌≡◌, ◌≢◌, Bool, true, some, List, [], inl, inr, arith, Option-cases, string_has_eq,
  nat_has_eq, ◌∙◌, some, ap,
}
use exchange_router_service.Prelude.Dict.{get}
use exchange_router_service.StreamManager.{
  Bucket, created, looping, sending, leaving, Manager, empty, subscribe, unsubscribe, shutdown,
  start, deliver, sent, stream_end, finish, close_client,
}
use exchange_router_service.StreamManager.Invariant.{
  key_of, is_live, IsValid, empty-IsValid, subscribe-IsValid,
}
use exchange_router_service.StreamManager.Steps.{
  unsubscribe-IsValid, start-IsValid, stream_end-IsValid, deliver-IsValid, finish-IsValid,
  close_client-IsValid, sent-IsValid, shutdown-IsValid,
}

pub data Step (m : Manager) : Manager → Type 0 where
  subscribes :
      (key : String) (client_id websocket : ℕ) (channel : String)
      → Step m (subscribe key client_id websocket channel m)
  unsubscribes : (key : String) (client_id : ℕ) → Step m (unsubscribe key client_id m)
  starts :
      (t : ℕ) (key channel : String)
      → m.phase t ≡ created key channel
      → Step m (start t key channel m)
  delivers : (t : ℕ) (key : String) → m.phase t ≡ looping key → Step m (deliver t key m)
  sends :
      (t : ℕ) (key : String) (items : List (ℕ × ℕ)) (failed : ℕ → Bool)
      → m.phase t ≡ sending key items
      → Step m (sent t key items failed m)
  ends : (t : ℕ) (key : String) → m.phase t ≡ looping key → Step m (stream_end t key m)
  finishes : (t : ℕ) (key : String) → m.phase t ≡ leaving key → Step m (finish t key m)
  closes :
      (t client : ℕ) (reason : String)
      → get t m.closing ≡ some (client, reason)
      → Step m (close_client t client reason m)
  shuts_down : Step m (shutdown m)

pub data Reach : Manager → Type 0 where
  here : Reach empty
  next : {m n : Manager} → Reach m → Step m n → Reach n

Step-IsValid : {m n : Manager} → Step m n → IsValid m → IsValid n
Step-IsValid (subscribes key client_id websocket channel) h =
    subscribe-IsValid key client_id websocket channel h
Step-IsValid (unsubscribes key client_id) h = unsubscribe-IsValid h key client_id
Step-IsValid (starts t key channel e) h = start-IsValid h t key channel e
Step-IsValid (delivers t key e) h = deliver-IsValid h t key e
Step-IsValid (sends t key items failed e) h = sent-IsValid h t key items failed e
Step-IsValid (ends t key e) h = stream_end-IsValid h t key e
Step-IsValid (finishes t key e) h = finish-IsValid h t key e
Step-IsValid (closes t client reason e) h = close_client-IsValid h t client reason
Step-IsValid shuts_down h = shutdown-IsValid h

-- Whatever the order of subscriptions, departures, failed sends, ended streams and shutdowns, the
-- keys of the two dictionaries agree, each key in them has a client, and the tasks registered are
-- those of their keys.
pub Reach-IsValid : {m : Manager} → Reach m → IsValid m
Reach-IsValid here = empty-IsValid
Reach-IsValid (next r st) = Step-IsValid st (Reach-IsValid r)

-- In every reachable state two handler tasks that are in the loop of one key are one task.
pub one_handler_per_key :
    {m : Manager} (key : String) (s t : ℕ)
    → Reach m
    → is_live (m.phase s) ≡ true
    → key_of (m.phase s) ≡ some key
    → is_live (m.phase t) ≡ true
    → key_of (m.phase t) ≡ some key
    → s ≡ t
one_handler_per_key key s t r ls ks lt kt =
    let h = Reach-IsValid r in cc (h.live key s ls ks, h.live key t lt kt)

-- In every reachable state a handler task that is in its loop has a client to serve: its key has a
-- bucket, and the bucket is not empty.
no_idle_handler :
    {m : Manager} (key : String) (t : ℕ)
    → Reach m
    → is_live (m.phase t) ≡ true
    → key_of (m.phase t) ≡ some key
    → (bucket : Bucket) × (get key m.active_streams ≡ some bucket) × (bucket ≢ [])
no_idle_handler {m} key t r l k = elim (Option-cases (get key m.active_streams)) [
  | inl miss ↦
      absurd (ground (arith, (Reach-IsValid r).live key t l k, (Reach-IsValid r).agree key))
  | inr (bucket, found) ↦ (bucket, found, λ e. (Reach-IsValid r).filled key (found ∙ ap some e))
]
