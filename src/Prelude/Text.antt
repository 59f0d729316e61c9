-- ===== src/Prelude/Text.antt =====
-- Texts of the C library, without their final NUL.
use so_tp_2024_2c_the_last_o.Prelude.{
  ℕ, ◌≡◌, refl, Bool, true, false, ◌&&◌, List, [], ◌∷◌, ◌==◌, arith,
}

abbrev pub Text : Type 0
Text = List ℕ

-- strcmp(a, b) == 0 of the C library, on texts without the final NUL.
unfoldable pub same_text : List ℕ → List ℕ → Bool
same_text [] [] = true
same_text [] (d ∷ ds) = false
same_text (c ∷ cs) [] = false
same_text (c ∷ cs) (d ∷ ds) = let rest = same_text cs ds in (c == d) && rest

and_left : (a b : Bool) → (a && b) ≡ true → a ≡ true
and_left true b h = refl
and_left false b h = h

and_right : (a b : Bool) → (a && b) ≡ true → b ≡ true
and_right true b h = h
and_right false b h = absurd (ground (arith, h))

pub same_text_refl : (a : Text) → same_text a a ≡ true
unfolding same_text
same_text_refl [] = refl
same_text_refl (c ∷ cs) = ground (arith, same_text_refl cs)

pub same_text_eq : (a b : Text) → same_text a b ≡ true → a ≡ b
unfolding same_text
same_text_eq [] [] h = refl
same_text_eq [] (d ∷ ds) h = absurd (ground (arith, h))
same_text_eq (c ∷ cs) [] h = absurd (ground (arith, h))
same_text_eq (c ∷ cs) (d ∷ ds) h =
    let tails = same_text_eq cs ds (and_right (c == d) (same_text cs ds) h) in
    let heads : c ≡ d = ground (arith, and_left (c == d) (same_text cs ds) h) in cc (tails, heads)
