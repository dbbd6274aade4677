-- ===== src/Text/Equality.antt =====
-- Equality of texts decides equality, and membership tests decide membership.
use loraterm.Common.{◌≡◌, ◌↔◌, refl, true, [], ◌∷◌, arith}
use loraterm.Text.{Text, eq_text}

pub eq_text_iff : (s t : Text) → (eq_text s t ≡ true) ↔ (s ≡ t)
unfolding eq_text
eq_text_iff [] [] = ground arith
eq_text_iff (c ∷ s) [] = ground arith
eq_text_iff [] (d ∷ t) = ground arith
eq_text_iff (c ∷ s) (d ∷ t) = ground (arith, eq_text_iff s t)

pub eq_text_refl : (s : Text) → eq_text s s ≡ true
eq_text_refl s = (eq_text_iff s s).1 refl
