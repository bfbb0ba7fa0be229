-- ===== src/Router/Periods.antt =====
-- src/main.py: `_PERIOD_MS` and `_period_to_ms`. A text is the list of its code points.
use exchange_router_service.Prelude.{
  ℕ, zero, suc, ◌+◌, ◌*◌, ◌-◌, ◌≡◌, refl, ap, Bool, true, false, ◌&&◌, ◌||◌, Option, none, some,
  List, [], ◌∷◌, ◌++◌, All, arith, leb, nat_eq, if◌then◌else◌,
}
use exchange_router_service.Prelude.Int.{ℤ, pos, negsuc, ◌*ℤ◌}

-- milliseconds of a unit
unfoldable pub period_ms : ℕ → Option ℕ
period_ms c =
    if nat_eq c b'm'
    then some 60_000
    else if nat_eq c b'h'
    then some 3_600_000
    else if nat_eq c b'd'
    then some 86_400_000
    else if nat_eq c b'w'
    then some 604_800_000
    else none

abbrev pub is_digit : ℕ → Bool
is_digit c = leb b'0' c && leb c b'9'

-- what `str.strip` takes off an ASCII text
abbrev pub is_space : ℕ → Bool
is_space c = leb 9 c && leb c 13 || leb 28 c && leb c 32

unfoldable pub lstrip : List ℕ → List ℕ
lstrip [] = []
lstrip (c ∷ cs) = if is_space c then lstrip cs else c ∷ cs

abbrev cons_unless_space : ℕ → List ℕ → List ℕ
cons_unless_space c [] = if is_space c then [] else c ∷ []
cons_unless_space c (d ∷ ds) = c ∷ d ∷ ds

-- the text without the spaces at its end
unfoldable pub rstrip : List ℕ → List ℕ
rstrip [] = []
rstrip (c ∷ cs) = cons_unless_space c (rstrip cs)

-- The digits of `int(...)`, with single underscores between digits: `after_digit` says that the
-- last character was a digit.
unfoldable pub digits : Bool → ℕ → List ℕ → Option ℕ
digits after_digit n [] = if after_digit then some n else none
digits after_digit n (c ∷ cs) =
    let underscore = nat_eq c b'_' && after_digit in
    let rest = digits (is_digit c) (if underscore then n else n * 10 + (c - b'0')) cs in
    if is_digit c || underscore then rest else none

abbrev pub negate : ℕ → ℤ
negate zero = pos 0
negate (suc n) = negsuc n

abbrev pub signed : (ℕ → ℤ) → Option ℕ → Option ℤ
signed f none = none
signed f (some n) = some (f n)

sign : List ℕ → Option ℤ
unfolding digits
sign [] = none
sign (c ∷ cs) =
    if nat_eq c b'-'
    then signed negate (digits false 0 cs)
    else if nat_eq c b'+'
    then signed pos (digits false 0 cs)
    else signed pos (digits false 0 (c ∷ cs))

-- `int(s)` of an ASCII text; `none` is the `ValueError`
unfoldable pub parse_int : List ℕ → Option ℤ
unfolding lstrip rstrip sign
parse_int s = sign (rstrip (lstrip s))

-- `s[:-1]` and `s[-1]` of a text that is not empty
unfoldable pub init_last : ℕ → List ℕ → List ℕ × ℕ
init_last c [] = ([], c)
init_last c (d ∷ ds) = let (front, last) = init_last d ds in (c ∷ front, last)

abbrev scaled : Option ℕ → Option ℤ → Option ℤ
scaled none count = none
scaled (some scale) none = none
scaled (some scale) (some count) = some (count *ℤ pos scale)

-- `_period_to_ms`
unfoldable pub period_to_ms : List ℕ → Option ℤ
unfolding period_ms parse_int init_last
period_to_ms [] = none
period_to_ms (c ∷ []) = none
period_to_ms (c ∷ d ∷ ds) =
    let (front, last) = init_last c (d ∷ ds) in scaled (period_ms last) (parse_int front)

-- the number that decimal digits stand for, behind `n`
abbrev pub value : ℕ → List ℕ → ℕ
value n [] = n
value n (c ∷ cs) = value (n * 10 + (c - b'0')) cs

abbrev pub IsDigit : ℕ → Type 0
IsDigit c = is_digit c ≡ true

digits-value :
    (b : Bool) (n c : ℕ) (cs : List ℕ)
    → All IsDigit (c ∷ cs)
    → digits b n (c ∷ cs) ≡ some (value n (c ∷ cs))
unfolding digits
digits-value b n c [] h = ground arith
digits-value b n c (d ∷ ds) h =
    let ih = digits-value true (n * 10 + (c - b'0')) d ds h.1 in ground arith

rstrip-digits : (cs : List ℕ) → All IsDigit cs → rstrip cs ≡ cs
unfolding rstrip
rstrip-digits [] h = refl
rstrip-digits (c ∷ []) h = ground arith
rstrip-digits (c ∷ d ∷ ds) h = ap (cons_unless_space c) (rstrip-digits (d ∷ ds) h.1)

lstrip_none : (c : ℕ) (cs : List ℕ) → is_space c ≡ false → lstrip (c ∷ cs) ≡ c ∷ cs
unfolding lstrip
lstrip_none c cs h = rw h

sign_digits :
    (c : ℕ) (cs : List ℕ)
    → nat_eq c b'-' ≡ false
    → nat_eq c b'+' ≡ false
    → All IsDigit (c ∷ cs)
    → sign (c ∷ cs) ≡ some (pos (value 0 (c ∷ cs)))
unfolding sign
sign_digits c cs minus plus h = rw (minus, plus, digits-value false 0 c cs h)

parse_int-digits :
    (c : ℕ) (cs : List ℕ)
    → All IsDigit (c ∷ cs)
    → parse_int (c ∷ cs) ≡ some (pos (value 0 (c ∷ cs)))
unfolding parse_int
parse_int-digits c cs h =
    let no_space : is_space c ≡ false = ground arith in
    let no_minus : nat_eq c b'-' ≡ false = ground arith in
    let no_plus : nat_eq c b'+' ≡ false = ground arith in
    rw (lstrip_none c cs no_space, rstrip-digits (c ∷ cs) h) (sign_digits c cs no_minus no_plus h)

init_last-snoc : (c : ℕ) (cs : List ℕ) (u : ℕ) → init_last c (cs ++ u ∷ []) ≡ (c ∷ cs, u)
unfolding init_last
init_last-snoc c [] u = refl
init_last-snoc c (d ∷ ds) u = rw (init_last-snoc d ds u)

abbrev pub scaled_count : ℕ → Option ℕ → Option ℤ
scaled_count n none = none
scaled_count n (some k) = some (pos (n * k))

scaled-pos : (n : ℕ) (o : Option ℕ) → scaled o (some (pos n)) ≡ scaled_count n o
unfolding ◌*ℤ◌
scaled-pos n none = refl
scaled-pos n (some k) = ground arith

-- A count in decimal digits behind a unit of m, h, d or w is that count times the unit, in
-- milliseconds; with any other last character there is no period.
period_to_ms_lem :
    (c : ℕ) (cs : List ℕ) (u : ℕ)
    → All IsDigit (c ∷ cs)
    → period_to_ms ((c ∷ cs) ++ u ∷ []) ≡ scaled_count (value 0 (c ∷ cs)) (period_ms u)
unfolding period_to_ms
period_to_ms_lem c [] u h =
    rw (parse_int-digits c [] h) (scaled-pos (value 0 (c ∷ [])) (period_ms u))
period_to_ms_lem c (d ∷ ds) u h =
    rw (init_last-snoc d ds u)
      (rw (parse_int-digits c (d ∷ ds) h) (scaled-pos (value 0 (c ∷ d ∷ ds)) (period_ms u)))
