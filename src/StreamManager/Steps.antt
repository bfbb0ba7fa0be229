-- ===== src/StreamManager/Steps.antt =====
-- Each transition of src/stream_manager.py keeps the invariant.
use exchange_router_service.Prelude.{
  ℕ, String, ◌≡◌, ◌≢◌, refl, inl, inr, Bool, true, false, some, List, [], ◌∷◌, arith, nat_eq,
  nat_eq_iff, if◌then◌else◌, Bool-cases, Option-cases, string_has_eq, nat_has_eq, ◌∙◌,
}
use exchange_router_service.Prelude.Dict.{Dict, get, pop, values}
use exchange_router_service.StreamManager.{
  Bucket, Phase, unborn, created, looping, sending, leaving, ended, Manager, set_phase, cancelled,
  unsubscribe, cancel_all, is_empty, shutdown, start, deliver, prune, spawn_closes, dead_items,
  pop_all, sent, stream_end, finish, owns, close_client, known_channel,
}
use exchange_router_service.StreamManager.Invariant.{
  key_of, is_live, IsValid, move-IsValid, end-IsValid, drop-IsValid, keep-IsValid,
}

is_empty→eq {ℓ} : {A : Type ℓ} (l : List A) → is_empty l ≡ true → l ≡ []
unfolding is_empty
is_empty→eq [] h = refl
is_empty→eq (x ∷ l) h = cc

ne-nil_of_is_empty : {A : Type 0} (l : List A) → is_empty l ≡ false → l ≢ []
unfolding is_empty
ne-nil_of_is_empty l h = ground arith

cancelled-live : (p : Phase) → is_live (cancelled p) ≡ false
unfolding is_live cancelled
cancelled-live p = ground arith

module _ {m : Manager} (h : IsValid m) where
  pub registered :
      (key : String) (bucket : Bucket)
      → get key m.active_streams ≡ some bucket
      → (s : ℕ) × (get key m.upstream_tasks ≡ some s)
  registered key bucket e = elim (Option-cases (get key m.upstream_tasks)) [
    | inl miss ↦ absurd (ground (arith, h.agree key))
    | inr found ↦ found
  ]

  pub unsubscribe-IsValid : (key : String) (client_id : ℕ) → IsValid (unsubscribe key client_id m)
  unfolding unsubscribe
  unsubscribe-IsValid key client_id = elim (Option-cases (get key m.active_streams)) [
    | inl miss ↦ rw (miss, unsubscribe) h
    | inr (bucket, e) ↦ elim (Bool-cases (is_empty (pop client_id bucket))) [
      | inl last ↦
          let (s, reg) = registered key bucket e in
          rw (e, unsubscribe)
            (rw last (
              rw reg
                (drop-IsValid h s key (cancelled (m.phase s)) reg (cancelled-live (m.phase s)))))
      | inr more ↦
          rw (e, unsubscribe)
            (rw more (keep-IsValid h key (pop client_id bucket) e (ne-nil_of_is_empty _ more)))
    ]
  ]

  pub start-IsValid :
      (t : ℕ) (key channel : String)
      → m.phase t ≡ created key channel
      → IsValid (start t key channel m)
  unfolding start key_of is_live
  start-IsValid t key channel e =
      move-IsValid h t key (if known_channel channel then looping key else leaving key) (rw e)
        (ground arith) (λ _. rw e)

  pub stream_end-IsValid :
      (t : ℕ) (key : String) → m.phase t ≡ looping key → IsValid (stream_end t key m)
  unfolding stream_end key_of is_live
  stream_end-IsValid t key e = move-IsValid h t key (leaving key) (rw e) refl (λ r. cc)

  pub deliver-IsValid : (t : ℕ) (key : String) → m.phase t ≡ looping key → IsValid (deliver t key m)
  unfolding deliver key_of is_live
  deliver-IsValid t key e = elim (Option-cases (get key m.active_streams)) [
    | inl miss ↦ rw (miss, deliver) (move-IsValid h t key (leaving key) (rw e) refl (λ r. cc))
    | inr (bucket, found) ↦
        rw (found, deliver)
          (move-IsValid h t key (if is_empty bucket then leaving key else sending key bucket) (rw e)
            (ground arith) (λ _. rw e))
  ]

  pub prune-IsValid :
      (t : ℕ) (key : String) (items dead : List (ℕ × ℕ))
      → m.phase t ≡ sending key items
      → IsValid (prune t key dead m)
  unfolding prune key_of is_live
  prune-IsValid t key items dead e = elim (Option-cases (get key m.active_streams)) [
    | inl miss ↦ rw (miss, prune) (move-IsValid h t key (looping key) (rw e) refl (λ _. rw e))
    | inr (current, found) ↦ elim (Bool-cases (is_empty (pop_all dead current))) [
      | inl last ↦
          let reg : get key m.upstream_tasks ≡ some t = h.live key t (rw e) (rw e) in
          rw (found, prune) (rw last (drop-IsValid h t key (leaving key) reg refl))
      | inr more ↦
          let kept = keep-IsValid h key (pop_all dead current) found (ne-nil_of_is_empty _ more) in
          rw (found, prune)
            (rw more (move-IsValid kept t key (looping key) (rw e) refl (λ _. rw e)))
    ]
  ]

  pub finish-IsValid : (t : ℕ) (key : String) → m.phase t ≡ leaving key → IsValid (finish t key m)
  unfolding finish key_of is_live owns
  finish-IsValid t key e = elim (Option-cases (get key m.upstream_tasks)) [
    | inl miss ↦ rw (miss, finish) (end-IsValid h t key (rw e) (λ r. cc))
    | inr (s, reg) ↦ elim (Bool-cases (nat_eq s t)) [
      | inl mine ↦
          let v = drop-IsValid h t key ended (ground (arith, nat_eq_iff s t)) refl in
          rw (reg, finish)
            (rw mine record {
              agree = v.agree;
              filled = v.filled;
              owner = v.owner;
              live = v.live;
              fresh = v.fresh;
            })
      | inr other ↦ rw (reg, finish) (rw other (end-IsValid h t key (rw e) (λ r. ground arith)))
    ]
  ]

  pub close_client-IsValid :
      (t client : ℕ) (reason : String) → IsValid (close_client t client reason m)
  unfolding close_client
  close_client-IsValid t client reason = record {
    agree = h.agree;
    filled = h.filled;
    owner = h.owner;
    live = h.live;
    fresh = h.fresh;
  }

module _ where
  pub spawn_closes-IsValid :
      (dead : List (ℕ × ℕ)) {m : Manager} → IsValid m → IsValid (spawn_closes dead m)
  unfolding spawn_closes
  spawn_closes-IsValid [] h = h
  spawn_closes-IsValid ((cid, client) ∷ dead) h = spawn_closes-IsValid dead record {
    agree = h.agree;
    filled = h.filled;
    owner = h.owner;
    live = h.live;
    fresh = λ t r. h.fresh t (omega arith);
  }

  pub phase-spawn_closes :
      (dead : List (ℕ × ℕ)) (m : Manager) (t : ℕ) → (spawn_closes dead m).phase t ≡ m.phase t
  unfolding spawn_closes
  phase-spawn_closes [] m t = refl
  phase-spawn_closes ((cid, client) ∷ dead) m t = phase-spawn_closes dead _ t

  pub sent-IsValid :
      {m : Manager} (h : IsValid m) (t : ℕ) (key : String) (items : List (ℕ × ℕ))
      (failed : ℕ → Bool)
      → m.phase t ≡ sending key items
      → IsValid (sent t key items failed m)
  unfolding sent key_of is_live
  sent-IsValid {m} h t key items failed e = elim (Bool-cases (is_empty (dead_items failed items))) [
    | inl fine ↦ rw fine (move-IsValid h t key (looping key) (rw e) refl (λ _. rw e))
    | inr some_dead ↦
        let dead = dead_items failed items in
        rw some_dead (
          prune-IsValid (spawn_closes-IsValid dead h) t key items dead
            (phase-spawn_closes dead m t ∙ e))
  ]

  -- A task that leaves its loop does not come back by a cancellation, and keeps its key.
  cancel_all-keeps :
      (ts : List ℕ) (f : ℕ → Phase) (s : ℕ)
      → (is_live (f s) ≡ false → is_live (cancel_all ts f s) ≡ false)
        × (f s ≡ unborn → cancel_all ts f s ≡ unborn)
  unfolding cancel_all cancelled is_live
  cancel_all-keeps [] f s = (λ r. r, λ r. r)
  cancel_all-keeps (t ∷ ts) f s =
      let ih = cancel_all-keeps ts (set_phase f t (cancelled (f t))) s in
      (λ r. ih.0 (ground arith), λ r. ih.1 (ground arith))

  cancel_all-get :
      (k : String) (d : Dict String ℕ) (f : ℕ → Phase) (s : ℕ)
      → get k d ≡ some s
      → is_live (cancel_all (values d) f s) ≡ false
  unfolding cancel_all cancelled is_live get
  cancel_all-get k [] f s h = cc
  cancel_all-get k ((j, t) ∷ d) f s h = elim (Bool-cases (nat_eq t s)) [
    | inl same ↦ (cancel_all-keeps (values d) (set_phase f t (cancelled (f t))) s).0 (ground arith)
    | inr other ↦ cancel_all-get k d (set_phase f t (cancelled (f t))) s (ground arith)
  ]

  live-cancel_all :
      (ts : List ℕ) (f : ℕ → Phase) (s : ℕ) (k : String)
      → is_live (cancel_all ts f s) ≡ true
      → (is_live (f s) ≡ true) × (cancel_all ts f s ≡ f s)
  unfolding cancel_all cancelled is_live
  live-cancel_all [] f s k h = (h, refl)
  live-cancel_all (t ∷ ts) f s k h =
      let ih = live-cancel_all ts (set_phase f t (cancelled (f t))) s k h in
      (ground arith, ground arith)

  -- After `shutdown` no task is in its loop.
  pub shutdown-live : {m : Manager} (h : IsValid m) (t : ℕ) → is_live ((shutdown m).phase t) ≡ false
  unfolding shutdown key_of is_live
  shutdown-live {m} h t = elim (Option-cases (key_of (m.phase t))) [
    | inl free ↦ (cancel_all-keeps (values m.upstream_tasks) m.phase t).0 (ground arith)
    | inr (k, e) ↦ elim (Bool-cases (is_live (m.phase t))) [
      | inl l ↦ cancel_all-get k m.upstream_tasks m.phase t (h.live k t l e)
      | inr l ↦ (cancel_all-keeps (values m.upstream_tasks) m.phase t).0 l
    ]
  ]

  pub shutdown-IsValid : {m : Manager} → IsValid m → IsValid (shutdown m)
  unfolding shutdown get
  shutdown-IsValid {m} h = record {
    agree = λ k. refl;
    filled = λ k r. cc;
    owner = λ k t r. cc;
    live = λ k t l r. cc (shutdown-live h t);
    fresh = λ t r. (cancel_all-keeps (values m.upstream_tasks) m.phase t).1 (h.fresh t r);
  }
