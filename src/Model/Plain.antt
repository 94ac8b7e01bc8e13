-- ===== src/Model/Plain.antt =====
-- diffJsonObjects of packages/model/src/index.ts on states that hold nothing but JSON, under names that no object
-- inherits: there it is the plain comparison of own fields.
use collabhub.Prelude.{
  ℕ, zero, suc, Text, ◌≡◌, refl, true, false, Option, none, some, List, [], ◌∷◌, ◌++◌, All,
  All-append, sort_with-All, ◌===◌, Bool-cases, Option-cases, inl, inr,
}
use collabhub.Errors.{Result, ok, ◌>>=◌, Result-cases}
use collabhub.Protocol.Json.{Value, object, Fields, end, field, get, keys}
use collabhub.Protocol.Messages.{Patch, set, remove}
use collabhub.Model.{child_path}
use collabhub.Model.Diff.{
  json_equal, count_fields, text_before, unique, all_keys, Differ, is_inherited, read_key, is_json,
  fields_are_json, may_be_json, diff_keys, diff_unequal, diff_value, diff_json_objects,
}
use collabhub.Model.Keys.{unique-All}

-- Of two objects, under keys
unfoldable pub plain_keys : Differ → Text → Fields → Fields → List Text → Result (List Patch)
plain_keys differ path before after [] = ok []
plain_keys differ path before after (k ∷ ks) = do
  child ← child_path path k
  first ← differ child (get before k) (get after k)
  rest ← plain_keys differ path before after ks
  ok (first ++ rest)

-- Of two values that are not equal
unfoldable pub plain_unequal : Differ → Text → Option Value → Option Value → Result (List Patch)
plain_unequal differ path before none = ok (remove path ∷ [])
plain_unequal differ path (some (object fs)) (some (object gs)) =
    plain_keys differ path fs gs (all_keys fs gs)
plain_unequal differ path before (some v) = ok (set path v ∷ [])

-- The comparison of two values
unfoldable pub plain_value : ℕ → Differ
plain_value zero path before after = ok []
plain_value (suc fuel) path before after = elim (json_equal before after) [
  | true ↦ ok []
  | false ↦ plain_unequal (plain_value fuel) path before after
]

-- Of two states
unfoldable pub plain_objects : Fields → Fields → Result (List Patch)
plain_objects before after =
    plain_keys (plain_value (suc (count_fields after))) [] before after (all_keys before after)

-- A JSON value in which no object that is reached through objects has an inherited name
unfoldable mutual
  pub IsPlain : Value → Type 0
  IsPlain (object fs) = FieldsArePlain fs
  IsPlain v = is_json v ≡ true

  pub FieldsArePlain : Fields → Type 0
  FieldsArePlain end = Unit
  FieldsArePlain (field k v fs) = (is_inherited k ≡ false) × IsPlain v × FieldsArePlain fs

abbrev MayBePlain : Option Value → Type 0
MayBePlain none = Unit
MayBePlain (some v) = IsPlain v

mutual
  unfolding IsPlain FieldsArePlain is_json fields_are_json

  IsPlain-is_json : (v : Value) → IsPlain v → is_json v ≡ true
  IsPlain-is_json (object fs) h = FieldsArePlain-fields_are_json fs h
  IsPlain-is_json v h = h

  FieldsArePlain-fields_are_json : (fs : Fields) → FieldsArePlain fs → fields_are_json fs ≡ true
  FieldsArePlain-fields_are_json end h = refl
  FieldsArePlain-fields_are_json (field k v fs) h =
      rw (IsPlain-is_json v h.1, FieldsArePlain-fields_are_json fs h.2) refl

MayBePlain-may_be_json : (o : Option Value) → MayBePlain o → may_be_json o ≡ true
MayBePlain-may_be_json none h = refl
MayBePlain-may_be_json (some v) h = IsPlain-is_json v h

get-MayBePlain : (fs : Fields) (k : Text) → FieldsArePlain fs → MayBePlain (get fs k)
unfolding get IsPlain FieldsArePlain
get-MayBePlain end k h = tt
get-MayBePlain (field j v fs) k h = elim (Bool-cases (j === k)) [
  | inl e ↦ rw e h.1
  | inr e ↦ rw e (get-MayBePlain fs k h.2)
]

abbrev IsOwn : Text → Type 0
IsOwn k = is_inherited k ≡ false

keys-IsOwn : (fs : Fields) → FieldsArePlain fs → All IsOwn (keys fs)
unfolding keys IsPlain FieldsArePlain
keys-IsOwn end h = tt
keys-IsOwn (field k v fs) h = (h.0, keys-IsOwn fs h.2)

all_keys-IsOwn :
    (fs gs : Fields) → FieldsArePlain fs → FieldsArePlain gs → All IsOwn (all_keys fs gs)
unfolding all_keys
all_keys-IsOwn fs gs hf hg = (sort_with-All text_before IsOwn (unique (keys fs ++ keys gs))).0 (
    unique-All IsOwn (keys fs ++ keys gs)
      (All-append IsOwn (keys fs) (keys gs) (keys-IsOwn fs hf) (keys-IsOwn gs hg)))

read_key-get : (fs : Fields) (k : Text) → IsOwn k → read_key fs k ≡ get fs k
unfolding read_key
read_key-get fs k own = elim (Option-cases (get fs k)) [
  | inl e ↦ rw (e, own, read_key) refl
  | inr (v, e) ↦ rw (e, read_key) refl
]

-- Two comparisons that are the same on plain values
abbrev Agree : Differ → Differ → Type 0
Agree differ plain =
    (path : Text) (b a : Option Value)
    → MayBePlain b
    → MayBePlain a
    → differ path b a ≡ plain path b a

diff_keys-plain_keys :
    (differ plain : Differ)
    → Agree differ plain
    → (path : Text) (fs gs : Fields) → FieldsArePlain fs
    → FieldsArePlain gs
    → (ks : List Text) → All IsOwn ks
    → diff_keys differ path fs gs ks ≡ plain_keys plain path fs gs ks
unfolding diff_keys plain_keys
diff_keys-plain_keys differ plain agree path fs gs hf hg [] own = refl
diff_keys-plain_keys differ plain agree path fs gs hf hg (k ∷ ks) own =
    elim (Result-cases (child_path path k)) [
      | inr (m, e) ↦ rw e refl
      | inl (child, e) ↦
          rw
            (
              e,
              read_key-get fs k own.0,
              read_key-get gs k own.0,
              agree child (get fs k) (get gs k) (get-MayBePlain fs k hf) (get-MayBePlain gs k hg),
              diff_keys-plain_keys differ plain agree path fs gs hf hg ks own.1,
            )
            refl
    ]

diff_unequal-plain_unequal :
    (differ plain : Differ) → Agree differ plain → Agree (diff_unequal differ) (plain_unequal plain)
unfolding diff_unequal plain_unequal IsPlain FieldsArePlain
diff_unequal-plain_unequal differ plain agree path b none hb ha = refl
diff_unequal-plain_unequal differ plain agree path (some (object fs)) (some (object gs)) hb ha =
    diff_keys-plain_keys differ plain agree path fs gs hb ha (all_keys fs gs)
      (all_keys-IsOwn fs gs hb ha)
diff_unequal-plain_unequal differ plain agree path b (some v) hb ha = refl

module _ (foreign : Differ) where
  diff_value-plain_value : (fuel : ℕ) → Agree (diff_value foreign fuel) (plain_value fuel)
  unfolding diff_value plain_value
  diff_value-plain_value zero path b a hb ha = refl
  diff_value-plain_value (suc fuel) path b a hb ha = elim (Bool-cases (json_equal b a)) [
    | inl same ↦
        rw (MayBePlain-may_be_json b hb, MayBePlain-may_be_json a ha, same, diff_value, plain_value)
          refl
    | inr differs ↦
        rw
          (
            MayBePlain-may_be_json b hb,
            MayBePlain-may_be_json a ha,
            differs,
            diff_value,
            plain_value,
          )
          (diff_unequal-plain_unequal (diff_value foreign fuel) (plain_value fuel)
            (diff_value-plain_value fuel) path b a hb ha)
  ]

  pub diff_json_objects-plain_objects :
      (before after : Fields)
      → FieldsArePlain before
      → FieldsArePlain after
      → diff_json_objects foreign before after ≡ plain_objects before after
  unfolding diff_json_objects plain_objects
  diff_json_objects-plain_objects before after hb ha =
      diff_keys-plain_keys (diff_value foreign (suc (count_fields after)))
        (plain_value (suc (count_fields after))) (diff_value-plain_value (suc (count_fields after)))
        [] before after hb ha (all_keys before after) (all_keys-IsOwn before after hb ha)
