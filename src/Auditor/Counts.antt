-- ===== src/Auditor/Counts.antt =====
-- The three counts of tools/auditor/aggregator.py agree with each other and with the results.
use exchange_router_service.Prelude.{
  ℕ, ◌+◌, ◌≡◌, refl, ◌∙◌, String, Bool, true, false, ◌&&◌, List, [], ◌∷◌, length, str_eq,
  str_eq_iff, if◌then◌else◌, string_has_eq, arith,
}
use exchange_router_service.Prelude.Dict.{Dict, get, put, get-put}
use exchange_router_service.Auditor.{
  Status, pass, warn, fail, skip, ProbeResult, Totals, zeros, bump, totals_from, totals, or_zero,
  by_error_type_from, by_error_type, or_zeros, by_exchange_from, by_exchange,
}

abbrev pub status_eq : Status → Status → Bool
status_eq pass pass = true
status_eq warn warn = true
status_eq fail fail = true
status_eq skip skip = true
status_eq _ _ = false

-- the entry of a status
abbrev pub entry : Status → Totals → ℕ
entry pass c = c.passed
entry warn c = c.warned
entry fail c = c.failed
entry skip c = c.skipped

-- how many results have the status, and how many have it on the exchange
abbrev pub with_status : Status → List ProbeResult → ℕ
with_status s [] = 0
with_status s (r ∷ results) = (if status_eq r.status s then 1 else 0) + with_status s results

abbrev pub on_exchange : String → Status → List ProbeResult → ℕ
on_exchange ex s [] = 0
on_exchange ex s (r ∷ results) =
    (if str_eq r.exchange ex && status_eq r.status s then 1 else 0) + on_exchange ex s results

abbrev pub with_error : String → List ProbeResult → ℕ
with_error e [] = 0
with_error e (r ∷ results) = (if str_eq r.error_type e then 1 else 0) + with_error e results

abbrev pub sum_of : Status → Dict String Totals → ℕ
sum_of s [] = 0
sum_of s ((ex, c) ∷ d) = entry s c + sum_of s d

abbrev pub sum_all : Dict String ℕ → ℕ
sum_all [] = 0
sum_all ((e, n) ∷ d) = n + sum_all d

entry-bump :
    (s t : Status) (c : Totals) → entry s (bump t c) ≡ (if status_eq t s then 1 else 0) + entry s c
unfolding bump
entry-bump s t c = ground arith

totals_lem :
    (s : Status) (out : Totals) (results : List ProbeResult)
    → entry s (totals_from out results) ≡ entry s out + with_status s results
unfolding totals_from
totals_lem s out [] = omega arith
totals_lem s out (r ∷ results) =
    omega (arith, totals_lem s (bump r.status out) results, entry-bump s r.status out)

sum_of-put :
    (s : Status) (k : String) (c : Totals) (d : Dict String Totals)
    → sum_of s (put k c d) + entry s (or_zeros (get k d)) ≡ sum_of s d + entry s c
unfolding get put
sum_of-put s k c [] = ground arith
sum_of-put s k c ((j, b) ∷ d) = ground (arith, sum_of-put s k c d)

by_exchange_lem :
    (s : Status) (out : Dict String Totals) (results : List ProbeResult)
    → sum_of s (by_exchange_from out results) ≡ sum_of s out + with_status s results
unfolding by_exchange_from
by_exchange_lem s out [] = omega arith
by_exchange_lem s out (r ∷ results) = omega (
  arith,
  by_exchange_lem s (put r.exchange (bump r.status (or_zeros (get r.exchange out))) out) results,
  sum_of-put s r.exchange (bump r.status (or_zeros (get r.exchange out))) out,
  entry-bump s r.status (or_zeros (get r.exchange out)),
)

entry_lem :
    (ex : String) (s : Status) (out : Dict String Totals) (results : List ProbeResult)
    → entry s (or_zeros (get ex (by_exchange_from out results)))
      ≡ entry s (or_zeros (get ex out)) + on_exchange ex s results
unfolding by_exchange_from
entry_lem ex s out [] = omega arith
entry_lem ex s out (r ∷ results) =
    let c = bump r.status (or_zeros (get r.exchange out)) in
    ground (
      arith,
      entry_lem ex s (put r.exchange c out) results,
      get-put r.exchange ex c out,
      entry-bump s r.status (or_zeros (get r.exchange out)),
      str_eq_iff r.exchange ex,
    )

sum_all-put :
    (k : String) (n : ℕ) (d : Dict String ℕ)
    → sum_all (put k n d) + or_zero (get k d) ≡ sum_all d + n
unfolding get put
sum_all-put k n [] = ground arith
sum_all-put k n ((j, m) ∷ d) = ground (arith, sum_all-put k n d)

errors_lem :
    (e : String) (out : Dict String ℕ) (results : List ProbeResult)
    → (or_zero (get e (by_error_type_from out results))
        ≡ or_zero (get e out) + with_error e results)
      × (sum_all (by_error_type_from out results) ≡ sum_all out + length results)
unfolding by_error_type_from
errors_lem e out [] = (omega arith, omega arith)
errors_lem e out (r ∷ results) =
    let n = or_zero (get r.error_type out) + 1 in
    let (one, sum) = errors_lem e (put r.error_type n out) results in
    (
      ground (arith, one, get-put r.error_type e n out, str_eq_iff r.error_type e),
      omega (arith, sum, sum_all-put r.error_type n out),
    )

all_statuses :
    (results : List ProbeResult)
    → with_status pass results
        + with_status warn results
        + with_status fail results
        + with_status skip results
      ≡ length results
all_statuses [] = refl
all_statuses (r ∷ results) = ground (arith, all_statuses results)

-- The totals of a status count the results with it, and are the sum over the exchanges of their
-- counts, each of which counts the results of its exchange; the four totals make up all results, and
-- so do the counts by error type, each of which counts the results of its type.
pub counts_lem :
    (results : List ProbeResult) (s : Status) (ex e : String)
    → (entry s (totals results) ≡ with_status s results)
      × (sum_of s (by_exchange results) ≡ entry s (totals results))
      × (entry s (or_zeros (get ex (by_exchange results))) ≡ on_exchange ex s results)
      × ((totals results).passed
            + (totals results).warned
            + (totals results).failed
            + (totals results).skipped
          ≡ length results)
      × (or_zero (get e (by_error_type results)) ≡ with_error e results)
      × (sum_all (by_error_type results) ≡ length results)
unfolding totals by_exchange by_error_type get
counts_lem results s ex e = (
  start s,
  omega (arith, by_exchange_lem s [] results, start s),
  entry_lem ex s [] results ∙ ground arith,
  omega (arith, start pass, start warn, start fail, start skip, all_statuses results),
  (errors_lem e [] results).0 ∙ omega arith,
  (errors_lem e [] results).1 ∙ omega arith,
)
  where
    start : (t : Status) → entry t (totals_from zeros results) ≡ with_status t results
    start t = totals_lem t zeros results ∙ ground arith
