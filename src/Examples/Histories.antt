-- ===== src/Examples/Histories.antt =====
-- Runs of the candles of src/exchanges/okx/adapter.py.
use exchange_router_service.Prelude.{
  ℕ, ◌-◌, ◌≡◌, refl, String, Option, some, List, [], ◌∷◌, ◌++◌, arith, nat_eq, if◌then◌else◌,
}
use mathlib.Core.List.{flatten}
use exchange_router_service.Prelude.Int.{ℤ, pos}
use exchange_router_service.Prelude.Dict.{put}
use exchange_router_service.Prelude.Sort.{sort_by, insert_by}
use exchange_router_service.Errors.{Result, ok, raise, value_error}
use exchange_router_service.Adapter.Pagination.{paginate_backwards, loop}
use exchange_router_service.Okx.Candles.{
  get_candles, with_history, combined, by_time, after, per_page,
}
use exchange_router_service.Okx.Candles.Joined.{Combined}
use exchange_router_service.Okx.Candles.Shape.{older, okx_candles_joined}

-- a candle is its time and its dump
abbrev Item : Type 0
Item = ℕ × String

abbrev at : Item → ℤ
at i = pos i.0

abbrev dump : Item → String
dump i = i.1

abbrev now_on : Option ℤ → ℕ → Result (List Item)
now_on end_ts l = ok ((300, "c") ∷ (400, "d") ∷ [])

abbrev before : ℕ → Option ℤ → ℕ → Result (List Item)
before n end_ts l = if nat_eq n 0 then ok ((200, "b") ∷ (100, "a") ∷ []) else raise value_error

run :
    get_candles at dump now_on before (some (pos 450)) 3
    ≡ ok ((200, "b") ∷ (300, "c") ∷ (400, "d") ∷ [])
unfolding get_candles with_history combined by_time after put sort_by insert_by paginate_backwards
    loop flatten
run = refl

okx_candles_joined_example :
    (hs : List Item) × (paginate_backwards at dump
        (older at dump now_on before (some (pos 450)) 3 (300, "c"))
        (3 - 2)
        per_page
      ≡ ok hs)
    × Combined at 3 (hs ++ (300, "c") ∷ (400, "d") ∷ []) ((200, "b") ∷ (300, "c") ∷ (400, "d") ∷ [])
unfolding sort_by insert_by after
okx_candles_joined_example =
    okx_candles_joined at dump now_on before (some (pos 450)) 3 (300, "c") ((400, "d") ∷ []) refl
      refl (omega arith) run
