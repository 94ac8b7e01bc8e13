-- ===== src/Prelude/Lists.antt =====
-- Lists measured by native numbers, and predicates on their entries by recursion.
use Prim.Native.Nat.{ℕ, zero, suc, ◌+◌, ◌-◌, ◌≤◌}
use mathlib.Core.Path.{◌≡◌, refl, ap}
use mathlib.Core.Bool.{Bool, false, ◌||◌}
use mathlib.Core.Option.{Option, none, some}
use mathlib.Core.List.{List, [], ◌∷◌, ◌++◌}
use native.Mathlib.Omega.{arith}
use collabhub.Prelude.Tests.{leb, if◌then◌else◌}

module _ {ℓ} {A : Type ℓ} where
  abbrev pub length : List A → ℕ
  length [] = 0
  length (x ∷ xs) = suc (length xs)

  pub length-append : (xs ys : List A) → length (xs ++ ys) ≡ length xs + length ys
  length-append [] ys = omega arith
  length-append (x ∷ xs) ys = omega (arith, length-append xs ys)

  -- Array.prototype.filter
  unfoldable pub keep : (A → Bool) → List A → List A
  keep p [] = []
  keep p (x ∷ xs) = let rest = keep p xs in if p x then x ∷ rest else rest

  -- Array.prototype.find
  unfoldable pub find : (A → Bool) → List A → Option A
  find p [] = none
  find p (x ∷ xs) = if p x then some x else find p xs

  -- Array.prototype.some
  unfoldable pub any : (A → Bool) → List A → Bool
  any p [] = false
  any p (x ∷ xs) = p x || any p xs

  pub length-keep-le : (p : A → Bool) (xs : List A) → length (keep p xs) ≤ length xs
  unfolding keep
  length-keep-le p [] = omega arith
  length-keep-le p (x ∷ xs) = ground (arith, length-keep-le p xs)

  -- the first entries
  unfoldable pub take : ℕ → List A → List A
  take n [] = []
  take zero (x ∷ xs) = []
  take (suc n) (x ∷ xs) = x ∷ take n xs

  -- xs.slice(n)
  unfoldable pub drop : ℕ → List A → List A
  drop n [] = []
  drop zero (x ∷ xs) = x ∷ xs
  drop (suc n) (x ∷ xs) = drop n xs

  pub take-zero : (xs : List A) → take zero xs ≡ []
  unfolding take
  take-zero [] = refl
  take-zero (x ∷ xs) = refl

  pub drop-zero : (xs : List A) → drop zero xs ≡ xs
  unfolding drop
  drop-zero [] = refl
  drop-zero (x ∷ xs) = refl

  pub take-drop : (n : ℕ) (xs : List A) → take n xs ++ drop n xs ≡ xs
  unfolding take drop
  take-drop n [] = refl
  take-drop zero (x ∷ xs) = refl
  take-drop (suc n) (x ∷ xs) = ap (λ ys. x ∷ ys) (take-drop n xs)

  pub length-drop : (n : ℕ) (xs : List A) → length (drop n xs) ≡ length xs - n
  unfolding drop
  length-drop n [] = omega arith
  length-drop zero (x ∷ xs) = omega arith
  length-drop (suc n) (x ∷ xs) = omega (arith, length-drop n xs)

  -- xs.slice(-n)
  unfoldable pub take_last : ℕ → List A → List A
  take_last n [] = []
  take_last n (x ∷ xs) =
      let rest = take_last n xs in if leb (length (x ∷ xs)) n then x ∷ xs else rest

  abbrev pub All {κ} : (A → Type κ) → List A → Type κ
  All P [] = Unit
  All P (x ∷ xs) = P x × All P xs

  pub All-append {κ} : (P : A → Type κ) (xs ys : List A) → All P xs → All P ys → All P (xs ++ ys)
  All-append P [] ys hx hy = hy
  All-append P (x ∷ xs) ys hx hy = (hx.0, All-append P xs ys hx.1 hy)

  pub All-map {κ μ} :
      {P : A → Type κ} {Q : A → Type μ} (f : (x : A) → P x → Q x) (xs : List A)
      → All P xs
      → All Q xs
  All-map f [] h = tt
  All-map f (x ∷ xs) h = (f x h.0, All-map f xs h.1)
