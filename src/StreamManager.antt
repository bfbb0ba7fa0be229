-- ===== src/StreamManager.antt =====
-- src/stream_manager.py: `StreamManager`, which fans one upstream stream per key out to its clients.
-- Every section under `_lock` runs without an `await`, so each is one transition here, and what
-- happens between two awaits of the upstream handler is a phase of its task. `asyncio.Task` objects
-- and sockets are numbers; `create_task` hands out `next_task`, and the client id is the caller's
-- fresh `uuid4()`.
pub mod Clients
pub mod Invariant
pub mod Steps
pub mod Reach
pub mod Ended
use exchange_router_service.Prelude.{
  ℕ, suc, ◌+◌, String, Bool, true, false, Option, none, some, List, [], ◌∷◌, ◌++◌, map, nat_eq,
  str_eq, if◌then◌else◌, ◌||◌, nat_has_eq, string_has_eq,
}
use exchange_router_service.Prelude.Dict.{Dict, get, put, pop, values}

-- client id → websocket
abbrev pub Bucket : Type 0
Bucket = Dict ℕ ℕ

-- Where a task of `_upstream_handler` stands: not created, created and not yet started, waiting for
-- the next item, waiting for the sends to `client_items`, on its way to the `finally` block, ended.
pub data Phase : Type 0 where
  unborn : Phase
  created : String → String → Phase
  looping : String → Phase
  sending : String → List (ℕ × ℕ) → Phase
  leaving : String → Phase
  ended : Phase

pub record Manager : Type 0 where
  pub active_streams : Dict String Bucket
  pub upstream_tasks : Dict String ℕ
  -- `_closing`: the close tasks that `_spawn_close` started, each with its client and reason
  pub closing : Dict ℕ (ℕ × String)
  pub next_task : ℕ
  pub phase : ℕ → Phase
  -- the clients that `_close_client` has closed (code 1011), with the reason
  pub closed : List (ℕ × String)

abbrev pub empty : Manager
empty = record {
  active_streams = [];
  upstream_tasks = [];
  closing = [];
  next_task = 0;
  phase = λ _. unborn;
  closed = [];
}

abbrev pub set_phase : (ℕ → Phase) → ℕ → Phase → ℕ → Phase
set_phase f t p s = if nat_eq t s then p else f s

-- `task.cancel()`: a task that has not started never runs its body, and one that waits in the loop
-- gets its `CancelledError` there and goes to the `finally` block.
unfoldable pub cancelled : Phase → Phase
cancelled unborn = unborn
cancelled (created key channel) = ended
cancelled (looping key) = leaving key
cancelled (sending key items) = leaving key
cancelled (leaving key) = leaving key
cancelled ended = ended

-- `subscribe`; the handler task is created with the first client of a key
unfoldable pub subscribe : String → ℕ → ℕ → String → Manager → Manager
subscribe key client_id websocket channel m = elim (get key m.active_streams) [
  | none ↦ record m {
    active_streams = put key (put client_id websocket []) m.active_streams;
    upstream_tasks = put key m.next_task m.upstream_tasks;
    next_task = m.next_task + 1;
    phase = set_phase m.phase m.next_task (created key channel);
  }
  | some bucket ↦ record m {
    active_streams = put key (put client_id websocket bucket) m.active_streams;
  }
]

-- `pop(key, None)` of the task, followed by its `cancel()`
unfoldable pub cancel_task : Option ℕ → (ℕ → Phase) → ℕ → Phase
unfolding cancelled
cancel_task none f = f
cancel_task (some t) f = set_phase f t (cancelled (f t))

unfoldable pub is_empty {ℓ} : {A : Type ℓ} → List A → Bool
is_empty [] = true
is_empty (x ∷ xs) = false

-- `unsubscribe`; the last client of a key takes the handler task with it
unfoldable pub unsubscribe : String → ℕ → Manager → Manager
unfolding cancel_task is_empty
unsubscribe key client_id m = elim (get key m.active_streams) [
  | none ↦ m
  | some bucket ↦
      let left = pop client_id bucket in
      if is_empty left
      then record m {
        active_streams = pop key m.active_streams;
        upstream_tasks = pop key m.upstream_tasks;
        phase = cancel_task (get key m.upstream_tasks) m.phase;
      }
      else record m { active_streams = put key left m.active_streams }
]

unfoldable pub cancel_all : List ℕ → (ℕ → Phase) → ℕ → Phase
unfolding cancelled
cancel_all [] f = f
cancel_all (t ∷ ts) f = cancel_all ts (set_phase f t (cancelled (f t)))

-- `shutdown`, up to its first `await`; what it awaits then are tasks that step by themselves
unfoldable pub shutdown : Manager → Manager
unfolding cancel_all
shutdown m = record m {
  active_streams = [];
  upstream_tasks = [];
  phase = cancel_all (values m.upstream_tasks) m.phase;
}

abbrev pub known_channel : String → Bool
known_channel c =
    str_eq c "ticker"
    || str_eq c "book_ticker"
    || str_eq c "mark_price"
    || str_eq c "agg_trades"
    || str_eq c "trades"
    || str_eq c "orderbook"
    || str_eq c "liquidations"

-- The handler task `t` starts: it opens the stream of its channel, or returns.
unfoldable pub start : ℕ → String → String → Manager → Manager
start t key channel m = record m {
  phase = set_phase m.phase t (if known_channel channel then looping key else leaving key);
}

-- The stream yields an item: it is sent to the clients of the key, and the loop breaks where there
-- is none.
unfoldable pub deliver : ℕ → String → Manager → Manager
unfolding is_empty
deliver t key m = elim (get key m.active_streams) [
  | none ↦ record m { phase = set_phase m.phase t (leaving key) }
  | some bucket ↦ record m {
    phase = set_phase m.phase t (if is_empty bucket then leaving key else sending key bucket);
  }
]

-- `dead_items`: the clients whose send raised or timed out
unfoldable pub dead_items : (ℕ → Bool) → List (ℕ × ℕ) → List (ℕ × ℕ)
dead_items failed [] = []
dead_items failed ((cid, client) ∷ items) =
    let rest = dead_items failed items in if failed cid then (cid, client) ∷ rest else rest

-- `_spawn_close` for each dead client
unfoldable pub spawn_closes : List (ℕ × ℕ) → Manager → Manager
spawn_closes [] m = m
spawn_closes ((cid, client) ∷ items) m = spawn_closes items (record m {
  closing = put m.next_task (client, "Send timeout") m.closing;
  next_task = m.next_task + 1;
})

unfoldable pub pop_all : List (ℕ × ℕ) → Bucket → Bucket
pop_all [] bucket = bucket
pop_all ((cid, _) ∷ items) bucket = pop_all items (pop cid bucket)

-- the section under the lock that follows: the dead clients go, and with the last one the key;
-- `emptied` breaks the loop
unfoldable pub prune : ℕ → String → List (ℕ × ℕ) → Manager → Manager
unfolding is_empty
prune t key dead m = elim (get key m.active_streams) [
  | none ↦ record m { phase = set_phase m.phase t (looping key) }
  | some current ↦
      let left = pop_all dead current in
      if is_empty left
      then record m {
        active_streams = pop key m.active_streams;
        upstream_tasks = pop key m.upstream_tasks;
        phase = set_phase m.phase t (leaving key);
      }
      else record m {
        active_streams = put key left m.active_streams;
        phase = set_phase m.phase t (looping key);
      }
]

-- The sends of an item have come to their results: `failed` says which raised.
unfoldable pub sent : ℕ → String → List (ℕ × ℕ) → (ℕ → Bool) → Manager → Manager
unfolding dead_items spawn_closes prune is_empty
sent t key items failed m =
    let dead = dead_items failed items in
    if is_empty dead
    then record m { phase = set_phase m.phase t (looping key) }
    else prune t key dead (spawn_closes dead m)

-- The stream ends or raises: the handler is on its way to its `finally` block.
unfoldable pub stream_end : ℕ → String → Manager → Manager
stream_end t key m = record m { phase = set_phase m.phase t (leaving key) }

-- `close_tasks`: the clients of the bucket, each closed with the reason
unfoldable pub close_all : List ℕ → List (ℕ × String)
close_all = map (λ client. (client, "Upstream disconnected"))

unfoldable pub bucket_values : Option Bucket → List ℕ
bucket_values none = []
bucket_values (some bucket) = values bucket

unfoldable pub owns : ℕ → Option ℕ → Bool
owns t none = false
owns t (some s) = nat_eq s t

-- The `finally` block of the handler: only the task that is registered under its key takes the key
-- down, and closes the clients that are left.
unfoldable pub finish : ℕ → String → Manager → Manager
unfolding close_all bucket_values owns
finish t key m =
    if owns t (get key m.upstream_tasks)
    then record m {
      active_streams = pop key m.active_streams;
      upstream_tasks = pop key m.upstream_tasks;
      phase = set_phase m.phase t ended;
      closed = m.closed ++ close_all (bucket_values (get key m.active_streams));
    }
    else record m { phase = set_phase m.phase t ended }

-- A close task of `_spawn_close` runs to its end and its callback discards it from `_closing`.
unfoldable pub close_client : ℕ → ℕ → String → Manager → Manager
close_client t client reason m = record m {
  closing = pop t m.closing;
  closed = m.closed ++ (client, reason) ∷ [];
}
