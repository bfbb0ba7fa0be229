-- ===== src/Examples/Managers.antt =====
-- Runs of src/stream_manager.py: one client, or two, of one key.
use exchange_router_service.Prelude.{
  ℕ, String, ◌≡◌, ◌≢◌, refl, Bool, true, false, none, some, [], ◌∷◌, ◌++◌, map, nat_eq, str_eq,
  if◌then◌else◌, string_has_eq, nat_has_eq,
}
use exchange_router_service.Prelude.Dict.{get, put, values}
use exchange_router_service.StreamManager.{
  cancelled, Bucket, Manager, empty, subscribe, unsubscribe, start,
}
use exchange_router_service.StreamManager.Invariant.{IsValid, is_live, key_of}
use exchange_router_service.StreamManager.Clients.{client}
use exchange_router_service.StreamManager.Reach.{
  Reach, here, next, subscribes, starts, Reach-IsValid, one_handler_per_key,
}
use exchange_router_service.StreamManager.Ended.{unsubscribe_last, after_stream, finish-stream_end}

abbrev key : String
key = "sample:linear:trades:BTC"

-- client 7 with socket 70
abbrev items : Bucket
items = (7, 70) ∷ []

abbrev alone : Manager
alone = subscribe key 7 70 "trades" empty

abbrev running : Manager
running = start 0 key "trades" alone

abbrev alone-Reach : Reach alone
alone-Reach = next here (subscribes key 7 70 "trades")

running-Reach : Reach running
unfolding subscribe get
running-Reach = next alone-Reach (starts 0 key "trades" refl)

Reach-IsValid_example : IsValid running
Reach-IsValid_example = Reach-IsValid running-Reach

one_handler_per_key_example : ◌≡◌ {A = ℕ} 0 0
unfolding start subscribe get is_live key_of
one_handler_per_key_example = one_handler_per_key key 0 0 running-Reach refl refl refl refl

-- the send to client 7 fails
abbrev fails : ℕ → Bool
fails c = nat_eq c 7

unsubscribe_last_example :
    (t : ℕ) × (get key running.upstream_tasks ≡ some t)
    × (is_live ((unsubscribe key 7 running).phase t) ≡ false)
    × ((s : ℕ)
        → (unsubscribe key 7 running).phase s
          ≡ (if nat_eq t s then cancelled (running.phase t) else running.phase s))
    × ((k : String)
        → get k (unsubscribe key 7 running).upstream_tasks
          ≡ (if str_eq key k then none else get k running.upstream_tasks))
    × ((k : String)
        → get k (unsubscribe key 7 running).active_streams
          ≡ (if str_eq key k then none else get k running.active_streams))
unfolding start subscribe get put
unsubscribe_last_example = unsubscribe_last key 7 70 running-Reach refl

finish-stream_end_example :
    (bucket : Bucket) × (get key running.active_streams ≡ some bucket)
    × (bucket ≢ [])
    × ((after_stream 0 key running).closed
        ≡ running.closed ++ map (λ c. (c, "Upstream disconnected")) (values bucket))
    × ((k : String)
        → get k (after_stream 0 key running).upstream_tasks
          ≡ (if str_eq key k then none else get k running.upstream_tasks))
    × ((k : String) (c : ℕ)
        → client (after_stream 0 key running) k c
          ≡ (if str_eq key k then none else client running k c))
    × ((s : ℕ)
        → is_live ((after_stream 0 key running).phase s) ≡ true
        → key_of ((after_stream 0 key running).phase s) ≢ some key)
unfolding start subscribe get put
finish-stream_end_example = finish-stream_end 0 key running-Reach refl
