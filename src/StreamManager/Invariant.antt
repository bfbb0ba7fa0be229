-- ===== src/StreamManager/Invariant.antt =====
-- The invariant of `StreamManager`, kept by every transition of src/stream_manager.py.
use exchange_router_service.Prelude.{
  ℕ, ◌≤◌, String, ◌≡◌, ◌≢◌, refl, inl, inr, Bool, true, false, Option, none, some, [], ◌∷◌, arith,
  str_eq_iff, is_some, Option-cases, string_has_eq, nat_has_eq,
}
use exchange_router_service.Prelude.Dict.{get, put, pop, get-put, get-pop}
use exchange_router_service.StreamManager.{
  Bucket, Phase, unborn, created, looping, sending, leaving, ended, Manager, empty, set_phase,
  subscribe,
}

-- The key that a handler task serves.
unfoldable pub key_of : Phase → Option String
key_of unborn = none
key_of (created key channel) = some key
key_of (looping key) = some key
key_of (sending key items) = some key
key_of (leaving key) = some key
key_of ended = none

-- The task has a part of its loop before it.
unfoldable pub is_live : Phase → Bool
is_live unborn = false
is_live (created key channel) = true
is_live (looping key) = true
is_live (sending key items) = true
is_live (leaving key) = false
is_live ended = false

pub record IsValid (m : Manager) : Type 0 where
  -- the two dictionaries have the same keys
  pub agree : (k : String) → is_some (get k m.active_streams) ≡ is_some (get k m.upstream_tasks)
  -- a key has a client
  pub filled : (k : String) → get k m.active_streams ≢ some []
  -- a registered task exists, and it serves the key that it is registered under
  pub owner : (k : String) (t : ℕ) → get k m.upstream_tasks ≡ some t → key_of (m.phase t) ≡ some k
  -- a task that is in its loop is registered under its key
  pub live :
      (k : String) (t : ℕ)
      → is_live (m.phase t) ≡ true
      → key_of (m.phase t) ≡ some k
      → get k m.upstream_tasks ≡ some t
  pub fresh : (t : ℕ) → m.next_task ≤ t → m.phase t ≡ unborn

pub empty-IsValid : IsValid empty
unfolding is_live key_of get
empty-IsValid = record {
  agree = λ k. refl;
  filled = λ k h. cc;
  owner = λ k t h. cc;
  live = λ k t l h. cc;
  fresh = λ t h. refl;
}

pub put-ne-nil : (k : ℕ) (v : ℕ) (b : Bucket) → put k v b ≢ []
unfolding put
put-ne-nil k v [] = λ h. cc
put-ne-nil k v ((j, w) ∷ b) = ground arith

module _ (key : String) (client_id websocket : ℕ) (channel : String) {m : Manager}
    (h : IsValid m) where
  pub subscribe-IsValid : IsValid (subscribe key client_id websocket channel m)
  unfolding subscribe is_live key_of
  subscribe-IsValid = elim (Option-cases (get key m.active_streams)) [
    | inl e ↦
        rw (e, subscribe)
          record {
            agree = λ k. ground (
              arith,
              get-put key k (put client_id websocket []) m.active_streams,
              get-put key k m.next_task m.upstream_tasks,
              h.agree k,
            );
            filled = λ k. ground (
              arith,
              get-put key k (put client_id websocket []) m.active_streams,
              put-ne-nil client_id websocket [],
              h.filled k,
            );
            owner = λ k t r. ground (
              arith,
              get-put key k m.next_task m.upstream_tasks,
              str_eq_iff key k,
              h.owner k t,
              h.fresh m.next_task,
            );
            live = λ k t l r. ground (
              arith,
              get-put key k m.next_task m.upstream_tasks,
              str_eq_iff key k,
              h.live k t,
              h.agree key,
            );
            fresh = λ t r. ground (arith, h.fresh t);
          }
    | inr (bucket, e) ↦
        rw (e, subscribe)
          record {
            agree = λ k. ground (
              arith,
              get-put key k (put client_id websocket bucket) m.active_streams,
              str_eq_iff key k,
              h.agree k,
            );
            filled = λ k. ground (
              arith,
              get-put key k (put client_id websocket bucket) m.active_streams,
              put-ne-nil client_id websocket bucket,
              h.filled k,
            );
            owner = h.owner;
            live = h.live;
            fresh = h.fresh;
          }
  ]

module _ {m : Manager} (h : IsValid m) where
  -- A task goes on in the same key, and does not come back into its loop.
  pub move-IsValid :
      (t : ℕ) (key : String) (p : Phase)
      → key_of (m.phase t) ≡ some key
      → key_of p ≡ some key
      → (is_live p ≡ true → is_live (m.phase t) ≡ true)
      → IsValid (record m { phase = set_phase m.phase t p })
  unfolding key_of
  move-IsValid t key p old new back = record {
    agree = h.agree;
    filled = h.filled;
    owner = λ k s r. ground (arith, h.owner k s r);
    live = λ k s l r. ground (arith, h.live k s, back);
    fresh = λ s r. ground (arith, h.fresh s);
  }

  -- A task that is not registered ends.
  pub end-IsValid :
      (t : ℕ) (key : String)
      → key_of (m.phase t) ≡ some key
      → get key m.upstream_tasks ≢ some t
      → IsValid (record m { phase = set_phase m.phase t ended })
  unfolding key_of is_live
  end-IsValid t key old free = record {
    agree = h.agree;
    filled = h.filled;
    owner = λ k s r. ground (arith, h.owner k s r);
    live = λ k s l r. ground (arith, h.live k s);
    fresh = λ s r. ground (arith, h.fresh s);
  }

  -- The registered task of a key leaves its loop, and the key goes.
  pub drop-IsValid :
      (s : ℕ) (key : String) (p : Phase)
      → get key m.upstream_tasks ≡ some s
      → is_live p ≡ false
      → IsValid (record m {
        active_streams = pop key m.active_streams;
        upstream_tasks = pop key m.upstream_tasks;
        phase = set_phase m.phase s p;
      })
  unfolding key_of
  drop-IsValid s key p reg dead = record {
    agree = λ k.
        ground (arith, get-pop key k m.active_streams, get-pop key k m.upstream_tasks, h.agree k);
    filled = λ k. ground (arith, get-pop key k m.active_streams, h.filled k);
    owner = λ k t r.
        ground
          (arith, get-pop key k m.upstream_tasks, str_eq_iff key k, h.owner k t, h.owner key s reg);
    live = λ k t l r. ground (arith, get-pop key k m.upstream_tasks, str_eq_iff key k, h.live k t);
    fresh = λ t r. ground (arith, h.fresh t, h.owner key s reg);
  }

  -- A key keeps some of its clients.
  pub keep-IsValid :
      (key : String) {old : Bucket} (left : Bucket)
      → get key m.active_streams ≡ some old
      → left ≢ []
      → IsValid (record m { active_streams = put key left m.active_streams })
  keep-IsValid key left e some_left = record {
    agree = λ k. ground (arith, get-put key k left m.active_streams, str_eq_iff key k, h.agree k);
    filled = λ k. ground (arith, get-put key k left m.active_streams, h.filled k);
    owner = h.owner;
    live = h.live;
    fresh = h.fresh;
  }
