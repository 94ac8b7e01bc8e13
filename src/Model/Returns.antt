-- ===== src/Model/Returns.antt =====
-- diffJsonObjects of packages/model/src/index.ts throws for no other reason than a key.
use collabhub.Prelude.{
  ℕ, zero, suc, Text, ◌≡◌, refl, ◌∙◌, false, ◌||◌, Option, none, some, List, [], ◌∷◌, ◌++◌, All,
  All-append, sort_with-All, ◌===◌, Bool-cases, inl, inr,
}
use collabhub.Errors.{Result, ok}
use collabhub.Protocol.Json.{Value, object, Fields, end, field, get, keys}
use collabhub.Protocol.Messages.{Patch}
use collabhub.DomainJson.Pointer.{is_unsafe_name}
use collabhub.Model.{escape, escape_pointer, child_path}
use collabhub.Model.Diff.{
  json_equal, text_before, unique, all_keys, Differ, diff_json_objects, count_fields,
}
use collabhub.Model.Plain.{
  plain_keys, plain_unequal, plain_value, plain_objects, FieldsArePlain,
  diff_json_objects-plain_objects,
}
use collabhub.Model.Keys.{unique-All}

-- A key that escapePointer takes
abbrev pub IsNamed : Text → Type 0
IsNamed k = (k === [] || is_unsafe_name k) ≡ false

-- All keys of objects in objects are such; what arrays hold does not count.
unfoldable mutual
  pub AreNamed : Value → Type 0
  AreNamed (object fs) = FieldsAreNamed fs
  AreNamed _ = Unit

  pub FieldsAreNamed : Fields → Type 0
  FieldsAreNamed end = Unit
  FieldsAreNamed (field k v fs) = IsNamed k × AreNamed v × FieldsAreNamed fs

abbrev MayBeNamed : Option Value → Type 0
MayBeNamed none = Unit
MayBeNamed (some v) = AreNamed v

get-MayBeNamed : (fs : Fields) (k : Text) → FieldsAreNamed fs → MayBeNamed (get fs k)
unfolding get AreNamed FieldsAreNamed
get-MayBeNamed end k h = tt
get-MayBeNamed (field j v fs) k h = elim (Bool-cases (j === k)) [
  | inl e ↦ rw e h.1
  | inr e ↦ rw e (get-MayBeNamed fs k h.2)
]

keys-IsNamed : (fs : Fields) → FieldsAreNamed fs → All IsNamed (keys fs)
unfolding keys AreNamed FieldsAreNamed
keys-IsNamed end h = tt
keys-IsNamed (field k v fs) h = (h.0, keys-IsNamed fs h.2)

all_keys-IsNamed :
    (fs gs : Fields) → FieldsAreNamed fs → FieldsAreNamed gs → All IsNamed (all_keys fs gs)
unfolding all_keys
all_keys-IsNamed fs gs hf hg = (sort_with-All text_before IsNamed (unique (keys fs ++ keys gs))).0 (
    unique-All IsNamed (keys fs ++ keys gs)
      (All-append IsNamed (keys fs) (keys gs) (keys-IsNamed fs hf) (keys-IsNamed gs hg)))

abbrev Returns {ℓ} : {A : Type ℓ} → Result A → Type ℓ
Returns {A = A} r = (a : A) × (r ≡ ok a)

abbrev AlwaysReturns : Differ → Type 0
AlwaysReturns differ =
    (path : Text) (b a : Option Value) → MayBeNamed b → MayBeNamed a → Returns (differ path b a)

plain_keys-Returns :
    (differ : Differ)
    → AlwaysReturns differ
    → (path : Text) (fs gs : Fields) → FieldsAreNamed fs
    → FieldsAreNamed gs
    → (ks : List Text) → All IsNamed ks
    → Returns (plain_keys differ path fs gs ks)
unfolding plain_keys child_path escape_pointer
plain_keys-Returns differ each path fs gs hf hg [] named = ([], refl)
plain_keys-Returns differ each path fs gs hf hg (k ∷ ks) named =
    let first =
      each (path ++ b'/' ∷ escape k) (get fs k) (get gs k) (get-MayBeNamed fs k hf)
        (get-MayBeNamed gs k hg) in
    let rest = plain_keys-Returns differ each path fs gs hf hg ks named.1 in
    (first.0 ++ rest.0, rw (named.0, first.1, rest.1) refl)

plain_unequal-Returns :
    (differ : Differ) → AlwaysReturns differ → AlwaysReturns (plain_unequal differ)
unfolding plain_unequal AreNamed FieldsAreNamed
plain_unequal-Returns differ each path b none hb ha = (_, refl)
plain_unequal-Returns differ each path (some (object fs)) (some (object gs)) hb ha =
    plain_keys-Returns differ each path fs gs hb ha (all_keys fs gs) (all_keys-IsNamed fs gs hb ha)
plain_unequal-Returns differ each path b (some v) hb ha = (_, refl)

plain_value-Returns : (fuel : ℕ) → AlwaysReturns (plain_value fuel)
unfolding plain_value
plain_value-Returns zero path b a hb ha = ([], refl)
plain_value-Returns (suc fuel) path b a hb ha = elim (Bool-cases (json_equal b a)) [
  | inl same ↦ ([], rw (same, plain_value) refl)
  | inr differs ↦
      let found =
        plain_unequal-Returns (plain_value fuel) (plain_value-Returns fuel) path b a hb ha in
      (found.0, rw (differs, plain_value) found.1)
]

plain_objects-Returns :
    (before after : Fields)
    → FieldsAreNamed before
    → FieldsAreNamed after
    → Returns (plain_objects before after)
unfolding plain_objects
plain_objects-Returns before after hb ha =
    plain_keys-Returns (plain_value (suc (count_fields after)))
      (plain_value-Returns (suc (count_fields after))) [] before after hb ha (all_keys before after)
      (all_keys-IsNamed before after hb ha)

-- Between two states that hold nothing but JSON, whose keys, as deep as objects go, are neither empty nor
-- among the unsafe names nor inherited by every object, the diff returns its patches.
pub diff_json_objects-returns :
    (foreign : Differ) (before after : Fields)
    → FieldsArePlain before
    → FieldsArePlain after
    → FieldsAreNamed before
    → FieldsAreNamed after
    → (patches : List Patch) × (diff_json_objects foreign before after ≡ ok patches)
diff_json_objects-returns foreign before after pb pa hb ha =
    let found = plain_objects-Returns before after hb ha in
    (found.0, diff_json_objects-plain_objects foreign before after pb pa ∙ found.1)
