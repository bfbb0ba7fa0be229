-- ===== src/Errors.antt =====
-- The exceptions that the service raises and catches (src/exchanges/base.py, src/main.py), and
-- computations that may raise.
use exchange_router_service.Prelude.{ℕ, ◌≡◌, refl, ◌⊎◌, inl, inr, Bool, true, false, Option}
use exchange_router_service.Prelude.Int.{ℤ}

-- `validation_error` is pydantic's, a subclass of `ValueError`; `http_status_error` and
-- `transport_error` are httpx's; `http_exception` is fastapi's, with its status. `retry_after` of
-- `UpstreamUnavailableError` is in whole seconds, as `int(...)` of main.py reads it. `other` is any
-- other `Exception`.
pub data Error : Type 0 where
  upstream_unavailable : Option ℤ → Error
  value_error : Error
  validation_error : Error
  not_implemented : Error
  http_status_error : Error
  transport_error : Error
  http_exception : ℕ → Error
  attribute_error : Error
  other : Error

pub data Result {ℓ} (A : Type ℓ) : Type ℓ where
  ok : A → Result A
  raise : Error → Result A

-- a check that raises where it fails
abbrev pub guard : Bool → Error → Result (Unit {0})
guard false err = raise err
guard true err = ok tt

infixl 5 ◌>>=◌
abbrev pub ◌>>=◌ {ℓ κ} : {A : Type ℓ} {B : Type κ} → Result A → (A → Result B) → Result B
raise err >>= next = raise err
ok a >>= next = next a

infixl 5 ◌>>◌
abbrev pub ◌>>◌ {κ} : {B : Type κ} → Result (Unit {0}) → Result B → Result B
first >> second = first >>= λ _. second

abbrev pub map_result {ℓ κ} : {A : Type ℓ} {B : Type κ} → (A → B) → Result A → Result B
map_result f (ok a) = ok (f a)
map_result f (raise e) = raise e

-- `except ValueError` catches pydantic's `ValidationError` too.
unfoldable pub is_value_error : Error → Bool
is_value_error value_error = true
is_value_error validation_error = true
is_value_error _ = false

pub Result-cases {ℓ} :
    {A : Type ℓ} (r : Result A) → ((a : A) × (r ≡ ok a)) ⊎ ((e : Error) × (r ≡ raise e))
Result-cases (ok a) = inl (a, refl)
Result-cases (raise e) = inr (e, refl)

pub raise_not_ok {ℓ} : {A : Type ℓ} {e : Error} {a : A} → ¬ (raise e ≡ ok a)
raise_not_ok h = cc

pub ok-injective {ℓ} : {A : Type ℓ} {a b : A} → ok a ≡ ok b → a ≡ b
ok-injective h = cc
