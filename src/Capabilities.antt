-- ===== src/Capabilities.antt =====
-- The capability tables of the adapters (`_build_capabilities` of src/exchanges/*/adapter.py), and the
-- texts of intervals (`_interval_to_ms`) that they list.
pub mod Binance
pub mod Bybit
pub mod Hyperliquid
pub mod Kraken
pub mod Kucoin
pub mod Okx
pub mod Advertised
pub mod Spelled
use Prim.Native.Char.{code}
use exchange_router_service.Prelude.{
  ℕ, String, Bool, true, false, Option, none, some, List, [], ◌∷◌, nat_eq, if◌then◌else◌,
}
use exchange_router_service.Prelude.Int.{ℤ, pos, ◌*ℤ◌}
use exchange_router_service.Errors.{Result, ok, raise, value_error}
use exchange_router_service.Router.Periods.{parse_int, init_last}

-- `if interval not in mapping: raise ValueError(...)`, `return mapping[interval]`
abbrev pub mapped {ℓ} : {A : Type ℓ} → Option A → Result A
mapped none = raise value_error
mapped (some a) = ok a

-- the code points of a text
abbrev pub codes : String → List ℕ
codes String.[] = []
codes (String.◌∷◌ c s) = code c ∷ codes s

-- the milliseconds of the units that every adapter knows, and those of one more unit that some know
abbrev pub common_unit : ℕ → Option ℕ
common_unit c =
    if nat_eq c b'm'
    then some 60_000
    else if nat_eq c b'h'
    then some 3_600_000
    else if nat_eq c b'd'
    then some 86_400_000
    else if nat_eq c b'w'
    then some 604_800_000
    else none

abbrev pub unit_with_months : ℕ → Option ℕ
unit_with_months c = if nat_eq c b'M' then some 2_592_000_000 else common_unit c

abbrev pub unit_of_binance : ℕ → Option ℕ
unit_of_binance c = if nat_eq c b's' then some 1000 else unit_with_months c

abbrev pub times_unit : Option ℤ → Option ℕ → ℤ
times_unit none unit = pos 0
times_unit (some count) none = pos 0
times_unit (some count) (some ms) = count *ℤ pos ms

-- `_interval_to_ms`, for the units that an adapter knows; 0 where the text does not fit
unfoldable pub text_to_ms : (ℕ → Option ℕ) → List ℕ → ℤ
unfolding parse_int init_last ◌*ℤ◌
text_to_ms unit [] = pos 0
text_to_ms unit (c ∷ cs) =
    let (front, last) = init_last c cs in times_unit (parse_int front) (unit last)

-- `_interval_to_ms` of kraken and kucoin, of bybit, hyperliquid and okx, and of binance
unfoldable pub interval_to_ms : String → ℤ
unfolding text_to_ms
interval_to_ms interval = text_to_ms common_unit (codes interval)

unfoldable pub interval_to_ms_with_months : String → ℤ
unfolding text_to_ms
interval_to_ms_with_months interval = text_to_ms unit_with_months (codes interval)

unfoldable pub interval_to_ms_of_binance : String → ℤ
unfolding text_to_ms
interval_to_ms_of_binance interval = text_to_ms unit_of_binance (codes interval)
