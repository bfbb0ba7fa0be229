-- ===== src/Client/Batch.antt =====
-- client/exchange_router_client: `fetch_many` (_core.py), which fetches one series for many symbols,
-- and `BatchResult` (batch.py).
use exchange_router_service.Prelude.{ℕ, String, List, [], ◌∷◌, string_has_eq, length}
use exchange_router_service.Prelude.Dict.{Dict, put}

-- what fetching one symbol comes to: a frame with the warnings in its attributes, or an exception
pub data Fetched (Frame Failure : Type 0) : Type 0 where
  frame : Frame → List String → Fetched Frame Failure
  error : Failure → Fetched Frame Failure

pub record BatchResult (Frame Failure : Type 0) : Type 0 where
  pub ok : Dict String Frame
  pub degraded : Dict String (Frame × List String)
  pub failed : Dict String Failure
  pub requested : ℕ

module _ {Frame Failure : Type 0} where
  abbrev pub nothing_yet : ℕ → BatchResult Frame Failure
  nothing_yet n = record { ok = []; degraded = []; failed = []; requested = n }

  -- one round of the loop over `gathered`
  unfoldable pub place :
      String → Fetched Frame Failure → BatchResult Frame Failure → BatchResult Frame Failure
  place symbol (error e) b = record b { failed = put symbol e b.failed }
  place symbol (frame df []) b = record b { ok = put symbol df b.ok }
  place symbol (frame df (w ∷ ws)) b = record b { degraded = put symbol (df, w ∷ ws) b.degraded }

  unfoldable pub place_all :
      List (String × Fetched Frame Failure) → BatchResult Frame Failure → BatchResult Frame Failure
  unfolding place
  place_all [] b = b
  place_all ((symbol, f) ∷ gathered) b = place_all gathered (place symbol f b)

  -- `fetch_many`, once the fetches are gathered in the order of the symbols
  unfoldable pub fetch_many : List (String × Fetched Frame Failure) → BatchResult Frame Failure
  unfolding place_all
  fetch_many gathered = place_all gathered (nothing_yet (length gathered))

unfoldable pub merge :
    {Frame : Type 0} → Dict String (Frame × List String) → Dict String Frame → Dict String Frame
merge [] merged = merged
merge ((symbol, (payload, warnings)) ∷ rest) merged = merge rest (put symbol payload merged)

-- `data`
unfoldable pub batch_data : {Frame Failure : Type 0} → BatchResult Frame Failure → Dict String Frame
unfolding merge
batch_data b = merge b.degraded b.ok
