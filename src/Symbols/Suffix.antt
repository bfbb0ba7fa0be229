-- ===== src/Symbols/Suffix.antt =====
-- The part of a text before a suffix.
use exchange_router_service.Prelude.{
  ◌-◌, ◌≡◌, refl, true, ◌&&◌, some, [], ◌∷◌, ◌++◌, length, take, drop, take-append-drop, ltb, arith,
  Bool-cases, inl, inr,
}
use exchange_router_service.Symbols.{Text, text_eq, before_suffix}

pub text_eq→eq : (s t : Text) → text_eq s t ≡ true → s ≡ t
unfolding text_eq
text_eq→eq [] [] h = refl
text_eq→eq [] (d ∷ t) h = cc
text_eq→eq (c ∷ s) [] h = cc
text_eq→eq (c ∷ s) (d ∷ t) h = ground (arith, text_eq→eq s t)

pub before_suffix-append : (q s b : Text) → before_suffix q s ≡ some b → b ++ q ≡ s
unfolding before_suffix
before_suffix-append q s b h =
    elim (Bool-cases (ltb (length q) (length s) && text_eq (drop (length s - length q) s) q)) [
      | inl cut ↦
          let tail : drop (length s - length q) s ≡ q =
            text_eq→eq (drop (length s - length q) s) q (ground arith) in
          let head : take (length s - length q) s ≡ b = ground arith in
          cc (tail, head, take-append-drop (length s - length q) s)
      | inr uncut ↦ absurd (ground arith)
    ]
