-- ===== src/Client/Gathered.antt =====
-- Where `fetch_many` of client/exchange_router_client/_core.py puts each symbol.
use exchange_router_service.Prelude.{
  ℕ, ◌+◌, ◌≡◌, refl, String, true, false, Option, none, some, List, [], ◌∷◌, str_eq, str_eq_iff,
  is_some, string_has_eq, arith, ◌∙◌, length, sym,
}
use exchange_router_service.Prelude.Dict.{Dict, get, put, get-put}
use exchange_router_service.Client.Batch.{
  Fetched, frame, error, BatchResult, nothing_yet, place, place_all, fetch_many, merge, batch_data,
}

-- no key twice
abbrev pub Distinct : {V : Type 0} → Dict String V → Type 0
Distinct [] = Unit
Distinct ((k, v) ∷ d) = (get k d ≡ none) × Distinct d

length-put :
    {V : Type 0} (k : String) (v : V) (d : Dict String V)
    → get k d ≡ none
    → length (put k v d) ≡ length d + 1
unfolding get put
length-put k v [] h = omega arith
length-put k v ((j, w) ∷ d) h = ground (arith, length-put k v d)

Distinct-put :
    {V : Type 0} (k : String) (v : V) (d : Dict String V) → Distinct d → Distinct (put k v d)
unfolding put get
Distinct-put k v [] h = (refl, tt)
Distinct-put k v ((j, w) ∷ d) h =
    ground (arith, Distinct-put k v d, get-put k j v d, str_eq_iff j k, str_eq_iff k j)

-- the first that is there
abbrev pub first {ℓ} : {A : Type ℓ} → Option A → Option A → Option A
first none o = o
first (some a) o = some a

first-none : {A : Type 0} (o : Option A) → first o none ≡ o
first-none none = refl
first-none (some a) = refl

abbrev payload_of : {Frame : Type 0} → Option (Frame × List String) → Option Frame
payload_of none = none
payload_of (some p) = some p.0

get-merge :
    {Frame : Type 0} (s : String) (d : Dict String (Frame × List String)) (m : Dict String Frame)
    → Distinct d
    → get s (merge d m) ≡ first (payload_of (get s d)) (get s m)
unfolding merge get
get-merge s [] m h = refl
get-merge s ((symbol, (payload, warnings)) ∷ rest) m h = ground (
  arith,
  get-merge s rest (put symbol payload m) h.1,
  get-put symbol s payload m,
  str_eq_iff symbol s,
)

module _ {Frame Failure : Type 0} where
  -- what a fetch adds to each of the dictionaries, and to `data`
  abbrev pub fine : Option (Fetched Frame Failure) → Option Frame
  fine (some (frame df [])) = some df
  fine _ = none

  abbrev pub warned : Option (Fetched Frame Failure) → Option (Frame × List String)
  warned (some (frame df (w ∷ ws))) = some (df, w ∷ ws)
  warned _ = none

  abbrev pub failure : Option (Fetched Frame Failure) → Option Failure
  failure (some (error e)) = some e
  failure _ = none

  abbrev pub fetched : Option (Fetched Frame Failure) → Option Frame
  fetched (some (frame df ws)) = some df
  fetched _ = none

  abbrev pub size : BatchResult Frame Failure → ℕ
  size b = length b.ok + length b.degraded + length b.failed

  place_all_lem :
      (s : String) (g : List (String × Fetched Frame Failure)) (b : BatchResult Frame Failure)
      → Distinct g
      → (get s (place_all g b).ok ≡ first (fine (get s g)) (get s b.ok))
        × (get s (place_all g b).degraded ≡ first (warned (get s g)) (get s b.degraded))
        × (get s (place_all g b).failed ≡ first (failure (get s g)) (get s b.failed))
  unfolding place_all place get
  place_all_lem s [] b h = (refl, refl, refl)
  place_all_lem s ((k, error e) ∷ g) b h =
      ground
        (arith, place_all_lem s g (place k (error e) b) h.1, get-put k s e b.failed, str_eq_iff k s)
  place_all_lem s ((k, frame df []) ∷ g) b h =
      ground (
        arith,
        place_all_lem s g (place k (frame df []) b) h.1,
        get-put k s df b.ok,
        str_eq_iff k s,
      )
  place_all_lem s ((k, frame df (w ∷ ws)) ∷ g) b h = ground (
    arith,
    place_all_lem s g (place k (frame df (w ∷ ws)) b) h.1,
    get-put k s (df, w ∷ ws) b.degraded,
    str_eq_iff k s,
  )

  Absent : String → BatchResult Frame Failure → Type 0
  Absent s b = (get s b.ok ≡ none) × (get s b.degraded ≡ none) × (get s b.failed ≡ none)

  size-place :
      (k : String) (f : Fetched Frame Failure) (b : BatchResult Frame Failure)
      → Absent k b
      → size (place k f b) ≡ size b + 1
  unfolding place Absent
  size-place k (error e) b h = omega (arith, length-put k e b.failed h.2)
  size-place k (frame df []) b h = omega (arith, length-put k df b.ok h.0)
  size-place k (frame df (w ∷ ws)) b h = omega (arith, length-put k (df, w ∷ ws) b.degraded h.1)

  Absent-place :
      (k s : String) (f : Fetched Frame Failure) (b : BatchResult Frame Failure)
      → str_eq k s ≡ false
      → Absent s b
      → Absent s (place k f b)
  unfolding place Absent
  Absent-place k s (error e) b n h = ground (arith, get-put k s e b.failed)
  Absent-place k s (frame df []) b n h = ground (arith, get-put k s df b.ok)
  Absent-place k s (frame df (w ∷ ws)) b n h = ground (arith, get-put k s (df, w ∷ ws) b.degraded)

  size-place_all :
      (g : List (String × Fetched Frame Failure)) (b : BatchResult Frame Failure)
      → Distinct g
      → ((s : String) → is_some (get s g) ≡ true → Absent s b)
      → size (place_all g b) ≡ size b + length g
  unfolding place_all get
  size-place_all [] b d h = omega arith
  size-place_all ((k, f) ∷ g) b d h = omega (
    arith,
    size-place_all g (place k f b) d.1
        (λ s e. Absent-place k s f b (ground (arith, str_eq_iff k s)) (h s (ground arith))),
    size-place k f b (h k (ground (arith, str_eq_iff k k))),
  )

  degraded-place_all :
      (g : List (String × Fetched Frame Failure)) (b : BatchResult Frame Failure)
      → Distinct b.degraded
      → Distinct (place_all g b).degraded
  unfolding place_all place
  degraded-place_all [] b d = d
  degraded-place_all ((k, error e) ∷ g) b d = degraded-place_all g (place k (error e) b) d
  degraded-place_all ((k, frame df []) ∷ g) b d = degraded-place_all g (place k (frame df []) b) d
  degraded-place_all ((k, frame df (w ∷ ws)) ∷ g) b d =
      degraded-place_all g (place k (frame df (w ∷ ws)) b)
        (Distinct-put k (df, w ∷ ws) b.degraded d)

  one_of : (o : Option (Fetched Frame Failure)) → first (payload_of (warned o)) (fine o) ≡ fetched o
  one_of none = refl
  one_of (some (error e)) = refl
  one_of (some (frame df [])) = refl
  one_of (some (frame df (w ∷ ws))) = refl

  requested-place_all :
      (g : List (String × Fetched Frame Failure)) (b : BatchResult Frame Failure)
      → (place_all g b).requested ≡ b.requested
  unfolding place_all place
  requested-place_all [] b = refl
  requested-place_all ((k, error e) ∷ g) b = requested-place_all g (place k (error e) b)
  requested-place_all ((k, frame df []) ∷ g) b = requested-place_all g (place k (frame df []) b)
  requested-place_all ((k, frame df (w ∷ ws)) ∷ g) b =
      requested-place_all g (place k (frame df (w ∷ ws)) b)

  -- For symbols that are all different, each fetch is in the one dictionary of its kind and in no
  -- other: a frame without warnings in `ok`, one with warnings in `degraded`, an exception in
  -- `failed`. `data` has exactly the frames, and the three sizes add up to `requested`.
  pub fetch_many_lem :
      (gathered : List (String × Fetched Frame Failure))
      → Distinct gathered
      → ((s : String)
          → (get s (fetch_many gathered).ok ≡ fine (get s gathered))
            × (get s (fetch_many gathered).degraded ≡ warned (get s gathered))
            × (get s (fetch_many gathered).failed ≡ failure (get s gathered))
            × (get s (batch_data (fetch_many gathered)) ≡ fetched (get s gathered)))
        × (size (fetch_many gathered) ≡ (fetch_many gathered).requested)
  unfolding fetch_many batch_data Absent get
  fetch_many_lem gathered d = (
    λ s.
        let (a, b, c) = place_all_lem s gathered (nothing_yet (length gathered)) d in
        (
          a ∙ first-none (fine (get s gathered)),
          b ∙ first-none (warned (get s gathered)),
          c ∙ first-none (failure (get s gathered)),
          get-merge s _ _ (degraded-place_all gathered (nothing_yet (length gathered)) tt)
              ∙ rw (a, b)
                  (rw (first-none (warned (get s gathered)), first-none (fine (get s gathered)))
                    (one_of (get s gathered))),
        ),
    size-place_all gathered (nothing_yet (length gathered)) d (λ s e. (refl, refl, refl))
        ∙ sym (requested-place_all gathered (nothing_yet (length gathered)) ∙ omega arith),
  )
