-- ===== src/Prelude/Sorting.antt =====
-- Array.prototype.sort by a numeric key, which is stable.
use Prim.Native.Nat.{ℕ, ◌≤◌}
use mathlib.Core.Path.{◌≡◌, refl}
use mathlib.Core.Bool.{Bool}
use mathlib.Core.Logic.{◌↔◌, inl, inr}
use mathlib.Core.List.{List, [], ◌∷◌, ◌++◌}
use native.Mathlib.Omega.{arith}
use collabhub.Prelude.Tests.{leb, if◌then◌else◌, Bool-cases}
use collabhub.Prelude.Lists.{All}

module _ {ℓ} {A : Type ℓ} (key : A → ℕ) where
  unfoldable pub insert_by : A → List A → List A
  insert_by x [] = x ∷ []
  insert_by x (y ∷ ys) = if leb (key x) (key y) then x ∷ y ∷ ys else y ∷ insert_by x ys

  unfoldable pub sort_by : List A → List A
  unfolding insert_by
  sort_by [] = []
  sort_by (x ∷ xs) = insert_by x (sort_by xs)

  insert_by-append :
      (x r : A) (ys : List A)
      → key x ≤ key r
      → insert_by x (ys ++ r ∷ []) ≡ insert_by x ys ++ r ∷ []
  unfolding insert_by
  insert_by-append x r [] h = ground arith
  insert_by-append x r (y ∷ ys) h = ground (arith, insert_by-append x r ys h)

  -- An entry with the greatest key stays at the end.
  pub sort_by-append :
      (xs : List A) (r : A)
      → All (λ x. key x ≤ key r) xs
      → sort_by (xs ++ r ∷ []) ≡ sort_by xs ++ r ∷ []
  unfolding sort_by
  sort_by-append [] r h = refl
  sort_by-append (x ∷ xs) r h = rw (sort_by-append xs r h.1) (insert_by-append x r (sort_by xs) h.0)

  All-insert_by {κ} :
      (P : A → Type κ) (x : A) (ys : List A) → P x → All P ys → All P (insert_by x ys)
  unfolding insert_by
  All-insert_by P x [] px h = (px, tt)
  All-insert_by P x (y ∷ ys) px h = ground (arith, All-insert_by P x ys px h.1)

  pub All-sort_by {κ} : (P : A → Type κ) (xs : List A) → All P xs → All P (sort_by xs)
  unfolding sort_by
  All-sort_by P [] h = tt
  All-sort_by P (x ∷ xs) h = All-insert_by P x (sort_by xs) h.0 (All-sort_by P xs h.1)

-- Array.prototype.sort by a comparison of two entries, which is stable.
module _ {ℓ} {A : Type ℓ} (before : A → A → Bool) where
  unfoldable pub insert_sorted : A → List A → List A
  insert_sorted x [] = x ∷ []
  insert_sorted x (y ∷ ys) = if before x y then x ∷ y ∷ ys else y ∷ insert_sorted x ys

  unfoldable pub sort_with : List A → List A
  sort_with [] = []
  sort_with (x ∷ xs) = insert_sorted x (sort_with xs)

  pub insert_sorted-All {κ} :
      (P : A → Type κ) (x : A) (ys : List A) → (P x × All P ys) ↔ All P (insert_sorted x ys)
  unfolding insert_sorted
  insert_sorted-All P x [] = (λ h. (h.0, tt), λ h. (h.0, tt))
  insert_sorted-All P x (y ∷ ys) = elim (Bool-cases (before x y)) [
    | inl e ↦ rw (e, insert_sorted) (λ h. h, λ h. h)
    | inr e ↦
        rw (e, insert_sorted)
          (
            λ h. (h.1.0, (insert_sorted-All P x ys).0 (h.0, h.1.1)),
            λ h. let rest = (insert_sorted-All P x ys).1 h.1 in (rest.0, (h.0, rest.1)),
          )
  ]

  -- What holds of all entries holds of them sorted, and conversely.
  pub sort_with-All {κ} : (P : A → Type κ) (xs : List A) → All P xs ↔ All P (sort_with xs)
  unfolding sort_with
  sort_with-All P [] = (λ h. h, λ h. h)
  sort_with-All P (x ∷ xs) =
      let tail = sort_with-All P xs in
      let whole = insert_sorted-All P x (sort_with xs) in
      (λ h. whole.0 (h.0, tail.0 h.1), λ h. let both = whole.1 h in (both.0, tail.1 both.1))
