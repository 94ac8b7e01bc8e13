-- ===== src/Prelude/Strings.antt =====
-- JavaScript strings: sequences of UTF-16 code units.
use Prim.Native.Nat.{ℕ}
use Prim.Native.Char.{code}
use Prim.Native.String.{String}
use mathlib.Core.Path.{◌≡◌, refl}
use mathlib.Core.Logic.{◌↔◌, ◌≢◌}
use mathlib.Core.Bool.{Bool, true, false, ◌&&◌}
use mathlib.Core.List.{List, [], ◌∷◌}
use native.Mathlib.Omega.{arith}
use collabhub.Prelude.Tests.{◌==◌}

abbrev pub Text : Type 0
Text = List ℕ

-- The code units of an ASCII literal.
unfoldable pub text : String → Text
text String.[] = []
text (String.◌∷◌ c s) = code c ∷ text s

-- The operator === on two strings.
infix 50 ◌===◌
unfoldable pub ◌===◌ : Text → Text → Bool
[] === [] = true
[] === (b ∷ t) = false
(a ∷ s) === [] = false
(a ∷ s) === (b ∷ t) = a == b && s === t

pub ===→eq : (s t : Text) → s === t ≡ true → s ≡ t
unfolding ◌===◌
===→eq [] [] h = refl
===→eq [] (b ∷ t) h = cc
===→eq (a ∷ s) [] h = cc
===→eq (a ∷ s) (b ∷ t) h = ground (arith, ===→eq s t)

pub ===-refl : (s : Text) → s === s ≡ true
unfolding ◌===◌
===-refl [] = refl
===-refl (a ∷ s) = ground (arith, ===-refl s)

pub ===_iff : (s t : Text) → (s === t ≡ true) ↔ (s ≡ t)
===_iff s t = (===→eq s t, λ e. rw e (===-refl t))

pub ===-eq_false : (s t : Text) → s ≢ t → s === t ≡ false
===-eq_false s t h = ground (arith, ===_iff s t)
