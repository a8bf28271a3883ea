-- ===== src/Base/Codes.antt =====
-- Strings that the program takes apart: lists of code points, with `===`, `startsWith`, `slice`
-- and `split`.
use Prim.Native.Nat.{ℕ}
use mathlib.Core.Path.{◌≡◌, refl, subst}
use mathlib.Core.Logic.{◌↔◌}
use mathlib.Core.Bool.{Bool, true, false, ◌&&◌}
use mathlib.Core.List.{List, [], ◌∷◌}
use native.Mathlib.Omega.{arith}
use jupyter_pair_ext.Base.Tests.{nat_eqb, nat_eqb_iff, if◌then◌else◌, Eq, nat_eq}

abbrev pub Text : Type 0
Text = List ℕ

abbrev pub text_eqb : Text → Text → Bool
text_eqb [] [] = true
text_eqb [] (d ∷ ds) = false
text_eqb (c ∷ cs) [] = false
text_eqb (c ∷ cs) (d ∷ ds) = nat_eqb c d && text_eqb cs ds

text_eqb_sound : (a b : Text) → text_eqb a b ≡ true → a ≡ b
text_eqb_sound [] [] h = refl
text_eqb_sound [] (d ∷ ds) h = cc h
text_eqb_sound (c ∷ cs) [] h = cc h
text_eqb_sound (c ∷ cs) (d ∷ ds) h = ground (arith, h, nat_eqb_iff c d, text_eqb_sound cs ds)

text_eqb_refl : (a : Text) → text_eqb a a ≡ true
text_eqb_refl [] = refl
text_eqb_refl (c ∷ cs) = ground (arith, nat_eqb_iff c c, text_eqb_refl cs)

pub text_eqb_iff : (a b : Text) → (text_eqb a b ≡ true) ↔ (a ≡ b)
text_eqb_iff a b = (text_eqb_sound a b, λ e. subst (λ x. text_eqb a x ≡ true) e (text_eqb_refl a))

instance abbrev pub text_eq : Eq Text
text_eq = record { equal = text_eqb; equal_iff = text_eqb_iff }

-- `s.startsWith(prefix)`
abbrev pub starts_with : Text → Text → Bool
starts_with s [] = true
starts_with [] (d ∷ ds) = false
starts_with (c ∷ cs) (d ∷ ds) = nat_eqb c d && starts_with cs ds

-- `s.split(separator)`, for a separator of one code point
abbrev pub split_cons : ℕ → List Text → List Text
split_cons c [] = (c ∷ []) ∷ []
split_cons c (s ∷ ss) = (c ∷ s) ∷ ss

abbrev pub split : ℕ → Text → List Text
split separator [] = [] ∷ []
split separator (c ∷ cs) =
    let rest = split separator cs in if nat_eqb c separator then [] ∷ rest else split_cons c rest
