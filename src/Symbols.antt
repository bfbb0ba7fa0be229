-- ===== src/Symbols.antt =====
-- How the adapters spell symbols: the operations on texts that `normalize_symbol`, `get_api_symbol` and
-- `get_model_symbol` are made of. A text is the list of its code points, and ASCII.
pub mod Plain
pub mod Suffix
use exchange_router_service.Prelude.{
  ℕ, zero, suc, ◌+◌, ◌-◌, Bool, true, false, ◌&&◌, Option, none, some, List, [], ◌∷◌, length, take,
  drop, map, nat_eq, ltb, leb, if◌then◌else◌,
}

abbrev pub Text : Type 0
Text = List ℕ

abbrev pub dash : ℕ
dash = b'-'

-- `str.upper`
unfoldable pub to_upper : ℕ → ℕ
to_upper c = if leb b'a' c && leb c b'z' then c - 32 else c

abbrev pub upper : Text → Text
upper = map to_upper

unfoldable pub text_eq : Text → Text → Bool
text_eq [] [] = true
text_eq [] (d ∷ t) = false
text_eq (c ∷ s) [] = false
text_eq (c ∷ s) (d ∷ t) = nat_eq c d && text_eq s t

-- `s.replace(c, "")` of a single character
unfoldable pub remove_char : ℕ → Text → Text
remove_char c [] = []
remove_char c (d ∷ s) = let rest = remove_char c s in if nat_eq d c then rest else d ∷ rest

unfoldable pub starts_with : Text → Text → Bool
starts_with [] s = true
starts_with (p ∷ ps) [] = false
starts_with (p ∷ ps) (c ∷ s) = nat_eq p c && starts_with ps s

-- `s.replace(pattern, "")`, where `skip` characters are still to be passed over
unfoldable pub remove_from : Text → ℕ → Text → Text
unfolding starts_with
remove_from pattern skip [] = []
remove_from pattern (suc skip) (c ∷ s) = remove_from pattern skip s
remove_from pattern zero (c ∷ s) =
    let gone = remove_from pattern (length pattern - 1) s in
    let kept = remove_from pattern zero s in if starts_with pattern (c ∷ s) then gone else c ∷ kept

abbrev pub remove_all : Text → Text → Text
unfolding remove_from
remove_all pattern s = remove_from pattern 0 s

-- `s[:-len(q)]` if `s.endswith(q) and len(s) > len(q)`
unfoldable pub before_suffix : Text → Text → Option Text
unfolding text_eq
before_suffix q s =
    if ltb (length q) (length s) && text_eq (drop (length s - length q) s) q
    then some (take (length s - length q) s)
    else none
