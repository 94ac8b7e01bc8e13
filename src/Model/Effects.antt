-- ===== src/Model/Effects.antt =====
-- The changes that packages/model/src/index.ts finds between two values make the first like the second.
use collabhub.Prelude.{
  ℕ, zero, suc, ◌≤◌, ◌<◌, Text, ◌≡◌, refl, sym, ◌∙◌, subst, ap, Bool, true, false, ◌||◌, Option,
  none, some, List, [], ◌∷◌, ◌++◌, map, any, All, All-append, ◌===◌, ===_iff, arith, if◌then◌else◌,
  Bool-cases, inl, inr,
}
use collabhub.Protocol.Json.{Value, object, Fields, end, field, get}
use collabhub.Model.Diff.{json_equal, count, count_fields, all_keys}
use collabhub.Model.Changes.{
  Change, Alike, equal, objects, change_at, change_all, under, change_fields, get-change_fields,
  change_fields-append, IsBelow, change_all-object, json_equal-eq,
}
use collabhub.Model.Keys.{DistinctKeys, all_keys-missing, all_keys-DistinctKeys}

abbrev pub Changer : Type 0
Changer = Option Value → Option Value → List Change

unfoldable pub changes_keys : Changer → Fields → Fields → List Text → List Change
changes_keys f fs gs [] = []
changes_keys f fs gs (k ∷ ks) = map (under k) (f (get fs k) (get gs k)) ++ changes_keys f fs gs ks

unfoldable pub changes_unequal : Changer → Option Value → Option Value → List Change
changes_unequal f b none = ([], none) ∷ []
changes_unequal f (some (object fs)) (some (object gs)) = changes_keys f fs gs (all_keys fs gs)
changes_unequal f b (some v) = ([], some v) ∷ []

-- The changes from one value to another, as paths of keys
unfoldable pub changes : ℕ → Changer
changes zero b a = []
changes (suc fuel) b a = elim (json_equal b a) [
  | true ↦ []
  | false ↦ changes_unequal (changes fuel) b a
]

under-IsBelow : (k : Text) (cs : List Change) → All IsBelow (map (under k) cs)
under-IsBelow k [] = tt
under-IsBelow k ((ks, v) ∷ cs) = (tt, under-IsBelow k cs)

module _ (f : Changer) (fs gs : Fields) where
  changes_keys-IsBelow : (ks : List Text) → All IsBelow (changes_keys f fs gs ks)
  unfolding changes_keys
  changes_keys-IsBelow [] = tt
  changes_keys-IsBelow (k ∷ ks) =
      All-append IsBelow (map (under k) (f (get fs k) (get gs k))) (changes_keys f fs gs ks)
        (under-IsBelow k (f (get fs k) (get gs k))) (changes_keys-IsBelow ks)

  -- What a change under a key leaves of the others
  others_kept :
      (k : Text) (cs : List Change) (now : Fields) (ks : List Text)
      → All (λ i. k === i ≡ false) ks
      → All (λ i. get now i ≡ get fs i) ks
      → All (λ i. get (change_fields now (map (under k) cs)) i ≡ get fs i) ks
  others_kept k cs now [] other same = tt
  others_kept k cs now (i ∷ ks) other same =
      (get-change_fields k i cs now ∙ rw other.0 same.0, others_kept k cs now ks other.1 same.1)

  abbrev changed : Text → Option Value
  changed j = change_all (get fs j) (f (get fs j) (get gs j))

  get-changes_keys :
      (ks : List Text) (now : Fields) (j : Text)
      → DistinctKeys ks
      → All (λ i. get now i ≡ get fs i) ks
      → get (change_fields now (changes_keys f fs gs ks)) j
        ≡ (if any (λ i. i === j) ks then changed j else get now j)
  unfolding changes_keys any change_fields
  get-changes_keys [] now j distinct same = refl
  get-changes_keys (k ∷ ks) now j distinct same =
      let cs = f (get fs k) (get gs k) in
      let next = change_fields now (map (under k) cs) in
      ap (λ (x : Fields). get x j)
        (change_fields-append now (map (under k) cs) (changes_keys f fs gs ks))
      ∙ get-changes_keys ks next j distinct.1 (others_kept k cs now ks distinct.0 same.1)
      ∙ step (any (λ i. i === j) ks) next (get-change_fields k j cs now)
    where
      step :
          (there : Bool) (next : Fields)
          → get next j
            ≡ (if k === j then change_all (get now k) (f (get fs k) (get gs k)) else get now j)
          → (if there then changed j else get next j)
            ≡ (if k === j || there then changed j else get now j)
      step true next e = elim (Bool-cases (k === j)) [
        | inl here ↦ rw here refl
        | inr elsewhere ↦ rw elsewhere refl
      ]
      step false next e = elim (Bool-cases (k === j)) [
        | inl here ↦ rw here (rw here at e ∙ rw (same.0, (===_iff k j).0 here) refl)
        | inr elsewhere ↦ rw elsewhere (rw elsewhere at e)
      ]

  get-same : (ks : List Text) → All (λ i. get fs i ≡ get fs i) ks
  get-same [] = tt
  get-same (k ∷ ks) = (refl, get-same ks)

  pub keys-Alike :
      ((k : Text) → Alike (changed k) (get gs k))
      → (k : Text)
      → Alike (get (change_fields fs (changes_keys f fs gs (all_keys fs gs))) k) (get gs k)
  keys-Alike each k =
      subst (λ x. Alike x (get gs k))
        (sym (
          get-changes_keys (all_keys fs gs) fs k (all_keys-DistinctKeys fs gs)
            (get-same (all_keys fs gs))))
        (elim (Bool-cases (any (λ i. i === k) (all_keys fs gs))) [
          | inl there ↦ rw there (each k)
          | inr missing ↦
              let both = all_keys-missing fs gs k missing in
              rw missing (equal (both.0 ∙ sym both.1))
        ])

abbrev pub size : Option Value → ℕ
size none = 0
size (some v) = count v

pub size-get : (fs : Fields) (k : Text) → size (get fs k) ≤ count_fields fs
unfolding get count count_fields
size-get end k = omega arith
size-get (field j v fs) k = elim (Bool-cases (j === k)) [
  | inl e ↦ rw e (omega arith)
  | inr e ↦ rw e (omega (arith, size-get fs k))
]

changes_unequal-Alike :
    (f : Changer) (b a : Option Value)
    → ((fs gs : Fields) (k : Text)
        → a ≡ some (object gs)
        → Alike (change_all (get fs k) (f (get fs k) (get gs k))) (get gs k))
    → Alike (change_all b (changes_unequal f b a)) a
unfolding changes_unequal change_all change_at
changes_unequal-Alike f b none each = equal refl
changes_unequal-Alike f (some (object fs)) (some (object gs)) each =
    subst (λ x. Alike x (some (object gs)))
      (sym (
        change_all-object fs (changes_keys f fs gs (all_keys fs gs))
          (changes_keys-IsBelow f fs gs (all_keys fs gs))))
      (objects (keys-Alike f fs gs λ k. each fs gs k refl))
changes_unequal-Alike f b (some v) each = equal refl

inside : (gs : Fields) (fuel : ℕ) → size (some (object gs)) < suc fuel → count_fields gs < fuel
unfolding count
inside gs fuel h = omega (arith, h)

pub changes-Alike :
    (fuel : ℕ) (b a : Option Value) → size a < fuel → Alike (change_all b (changes fuel b a)) a
unfolding changes change_all
changes-Alike zero b a enough = absurd (omega (arith, enough))
changes-Alike (suc fuel) b a enough = elim (Bool-cases (json_equal b a)) [
  | inl e ↦ rw (e, changes) (equal (json_equal-eq b a e))
  | inr e ↦
      rw (e, changes)
        (changes_unequal-Alike (changes fuel) b a
          λ fs gs k same. changes-Alike fuel (get fs k) (get gs k) (smaller gs k same))
]
  where
    smaller : (gs : Fields) (k : Text) → a ≡ some (object gs) → size (get gs k) < fuel
    smaller gs k same = omega (arith, size-get gs k, inside gs fuel (rw same at enough))
