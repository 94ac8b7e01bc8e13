-- ===== src/Model/Keys.antt =====
-- The keys of two objects, once each, as packages/model/src/index.ts goes through them.
use collabhub.Prelude.{
  Text, ◌≡◌, refl, sym, ◌∙◌, subst, Bool, true, false, not, none, List, [], ◌∷◌, ◌++◌, any, All,
  keep, insert_sorted, insert_sorted-All, sort_with, sort_with-All, ◌===◌, ===_iff, ===-refl,
  Bool-cases, inl, inr,
}
use collabhub.Protocol.Json.{Fields, end, field, get, keys}
use collabhub.Model.Diff.{text_before, unique, all_keys}

abbrev pub DistinctKeys : List Text → Type 0
DistinctKeys [] = Unit
DistinctKeys (k ∷ ks) = All (λ j. k === j ≡ false) ks × DistinctKeys ks

pub keep-All {κ} :
    (P : Text → Type κ) (p : Text → Bool) (ks : List Text) → All P ks → All P (keep p ks)
unfolding keep
keep-All P p [] h = tt
keep-All P p (k ∷ ks) h = elim (Bool-cases (p k)) [
  | inl e ↦ rw e (h.0, keep-All P p ks h.1)
  | inr e ↦ rw e (keep-All P p ks h.1)
]

pub unique-All {κ} : (P : Text → Type κ) (ks : List Text) → All P ks → All P (unique ks)
unfolding unique
unique-All P [] h = tt
unique-All P (k ∷ ks) h = (h.0, keep-All P _ (unique ks) (unique-All P ks h.1))

keep-others :
    (k : Text) (ks : List Text) → All (λ j. k === j ≡ false) (keep (λ j. not (k === j)) ks)
unfolding keep
keep-others k [] = tt
keep-others k (j ∷ ks) = elim (Bool-cases (k === j)) [
  | inl e ↦ rw e (keep-others k ks)
  | inr e ↦ rw e (e, keep-others k ks)
]

keep-DistinctKeys : (p : Text → Bool) (ks : List Text) → DistinctKeys ks → DistinctKeys (keep p ks)
unfolding keep
keep-DistinctKeys p [] h = tt
keep-DistinctKeys p (k ∷ ks) h = elim (Bool-cases (p k)) [
  | inl e ↦ rw e (keep-All _ p ks h.0, keep-DistinctKeys p ks h.1)
  | inr e ↦ rw e (keep-DistinctKeys p ks h.1)
]

unique-DistinctKeys : (ks : List Text) → DistinctKeys (unique ks)
unfolding unique
unique-DistinctKeys [] = tt
unique-DistinctKeys (k ∷ ks) =
    (keep-others k (unique ks), keep-DistinctKeys _ (unique ks) (unique-DistinctKeys ks))

-- A key that is left out equals one that is there.
keep-back :
    (j k : Text) (ks : List Text)
    → k === j ≡ false
    → All (λ i. i === j ≡ false) (keep (λ i. not (k === i)) ks)
    → All (λ i. i === j ≡ false) ks
unfolding keep
keep-back j k [] ne = λ h. tt
keep-back j k (i ∷ ks) ne = elim (Bool-cases (k === i)) [
  | inl e ↦ rw e λ h. (rw (sym ((===_iff k i).0 e)) ne, keep-back j k ks ne h)
  | inr e ↦ rw e λ h. (h.0, keep-back j k ks ne h.1)
]

unique-back :
    (j : Text) (ks : List Text)
    → All (λ i. i === j ≡ false) (unique ks)
    → All (λ i. i === j ≡ false) ks
unfolding unique
unique-back j [] h = tt
unique-back j (k ∷ ks) h = (h.0, unique-back j ks (keep-back j k (unique ks) h.0 h.1))

none_of :
    (j : Text) (ks : List Text) → any (λ i. i === j) ks ≡ false → All (λ i. i === j ≡ false) ks
unfolding any
none_of j [] h = tt
none_of j (k ∷ ks) h = elim (Bool-cases (k === j)) [
  | inl e ↦ absurd (clash (rw e at h))
  | inr e ↦ (e, none_of j ks (rw e at h))
]
  where
    clash : true ≡ false → ⊥
    clash e = cc

split-All {κ} : (P : Text → Type κ) (xs ys : List Text) → All P (xs ++ ys) → All P xs × All P ys
split-All P [] ys h = (tt, h)
split-All P (x ∷ xs) ys h = let rest = split-All P xs ys h.1 in ((h.0, rest.0), rest.1)

get-none : (j : Text) (fs : Fields) → All (λ i. i === j ≡ false) (keys fs) → get fs j ≡ none
unfolding get keys
get-none j end h = refl
get-none j (field k v fs) h = rw h.0 (get-none j fs h.1)

-- A key of neither object is missing in both.
pub all_keys-missing :
    (fs gs : Fields) (j : Text)
    → any (λ i. i === j) (all_keys fs gs) ≡ false
    → (get fs j ≡ none) × (get gs j ≡ none)
unfolding all_keys
all_keys-missing fs gs j h =
    let missing = none_of j (all_keys fs gs) h in
    let both =
      split-All (λ i. i === j ≡ false) (keys fs) (keys gs)
        (unique-back j (keys fs ++ keys gs) (
          (sort_with-All text_before (λ i. i === j ≡ false) (unique (keys fs ++ keys gs))).1
            missing)) in
    (get-none j fs both.0, get-none j gs both.1)

flip : (j k : Text) → j === k ≡ false → k === j ≡ false
flip j k h = elim (Bool-cases (k === j)) [
  | inr e ↦ e
  | inl e ↦ absurd (clash (sym (===-refl j) ∙ subst (λ i. j === i ≡ false) ((===_iff k j).0 e) h))
]
  where
    clash : true ≡ false → ⊥
    clash e = cc

insert_sorted-DistinctKeys :
    (k : Text) (ks : List Text)
    → All (λ j. k === j ≡ false) ks
    → DistinctKeys ks
    → DistinctKeys (insert_sorted text_before k ks)
unfolding insert_sorted
insert_sorted-DistinctKeys k [] new h = (tt, tt)
insert_sorted-DistinctKeys k (j ∷ ks) new h = elim (Bool-cases (text_before k j)) [
  | inl e ↦ rw (e, insert_sorted) (new, h)
  | inr e ↦
      rw (e, insert_sorted)
        (
          (insert_sorted-All text_before (λ i. j === i ≡ false) k ks).0 (flip k j new.0, h.0),
          insert_sorted-DistinctKeys k ks new.1 h.1,
        )
]

sort_with-DistinctKeys :
    (ks : List Text) → DistinctKeys ks → DistinctKeys (sort_with text_before ks)
unfolding sort_with
sort_with-DistinctKeys [] h = tt
sort_with-DistinctKeys (k ∷ ks) h =
    insert_sorted-DistinctKeys k (sort_with text_before ks)
      ((sort_with-All text_before (λ j. k === j ≡ false) ks).0 h.0) (sort_with-DistinctKeys ks h.1)

pub all_keys-DistinctKeys : (fs gs : Fields) → DistinctKeys (all_keys fs gs)
unfolding all_keys
all_keys-DistinctKeys fs gs =
    sort_with-DistinctKeys (unique (keys fs ++ keys gs)) (unique-DistinctKeys (keys fs ++ keys gs))
