-- ===== src/Symbols/Plain.antt =====
-- Plain texts: what upper case and the removal of characters leave as it is.
use exchange_router_service.Prelude.{
  Bool-cases, inl, inr, ◌-◌, ℕ, zero, suc, ◌≡◌, ◌≢◌, refl, [], ◌∷◌, ◌++◌, length, All, nat_eq,
  arith,
}
use exchange_router_service.Symbols.{
  Text, dash, to_upper, upper, remove_char, starts_with, remove_from, remove_all,
}

-- an upper case character that is neither a dash nor a slash
abbrev pub IsPlain : ℕ → Type 0
IsPlain c = (to_upper c ≡ c) × (c ≢ dash) × (c ≢ b'/')

pub to_upper_idem : (c : ℕ) → to_upper (to_upper c) ≡ to_upper c
unfolding to_upper
to_upper_idem c = ground arith

pub upper-IsPlain : (s : Text) → All IsPlain s → upper s ≡ s
upper-IsPlain [] h = refl
upper-IsPlain (c ∷ s) h = cc (h.0.0, upper-IsPlain s h.1)

pub All-upper : (s : Text) → All (λ c. to_upper c ≡ c) (upper s)
All-upper [] = tt
All-upper (c ∷ s) = (to_upper_idem c, All-upper s)

pub All-remove_char :
    (P : ℕ → Type 0) (c : ℕ) (s : Text) → All P s → All (λ d. P d × (d ≢ c)) (remove_char c s)
unfolding remove_char
All-remove_char P c [] h = tt
All-remove_char P c (d ∷ s) h = elim (Bool-cases (nat_eq d c)) [
  | inl gone ↦ rw gone (All-remove_char P c s h.1)
  | inr kept ↦ rw kept ((h.0, λ same. ground arith), All-remove_char P c s h.1)
]

pub All-remove_from :
    (P : ℕ → Type 0) (pattern : Text) (skip : ℕ) (s : Text)
    → All P s
    → All P (remove_from pattern skip s)
unfolding remove_from
All-remove_from P pattern skip [] h = tt
All-remove_from P pattern (suc skip) (c ∷ s) h = All-remove_from P pattern skip s h.1
All-remove_from P pattern zero (c ∷ s) h = elim (Bool-cases (starts_with pattern (c ∷ s))) [
  | inl gone ↦ rw gone (All-remove_from P pattern (length pattern - 1) s h.1)
  | inr kept ↦ rw kept (h.0, All-remove_from P pattern 0 s h.1)
]

-- What has no dash stays in front of what is removed behind it.
pub remove_char-append :
    (c : ℕ) (s t : Text) → All (λ d. d ≢ c) s → remove_char c (s ++ t) ≡ s ++ remove_char c t
unfolding remove_char
remove_char-append c [] t h = refl
remove_char-append c (d ∷ s) t h = ground (arith, remove_char-append c s t h.1)

pub remove_all-append :
    (p : ℕ) (pattern s t : Text)
    → All (λ d. d ≢ p) s
    → remove_all (p ∷ pattern) (s ++ t) ≡ s ++ remove_all (p ∷ pattern) t
unfolding remove_from starts_with
remove_all-append p pattern [] t h = refl
remove_all-append p pattern (d ∷ s) t h = ground (arith, remove_all-append p pattern s t h.1)
