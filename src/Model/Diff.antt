-- ===== src/Model/Diff.antt =====
-- diffJsonObjects of packages/model/src/index.ts. What the source does with a value that JSON does not hold, or
-- that holds such a value, depends on which it is (undefined, a function, NaN), and is a parameter. Two JSON
-- values whose JSON.stringify is the same text are the same, with their fields in one order.
use collabhub.Prelude.{
  ℕ, zero, suc, ◌+◌, Text, text, any, if◌then◌else◌, Bool, true, false, not, ◌&&◌, Option, none,
  some, List, [], ◌∷◌, ◌++◌, ltb, ◌==◌, ◌===◌, keep, sort_with,
}
use collabhub.Errors.{Result, ok, ◌>>=◌}
use collabhub.Protocol.Json.{
  Value, null, boolean, integer, number, string, array, object, other, Items, nil, cons, Fields,
  end, field, get, keys,
}
use collabhub.Protocol.Messages.{Patch, set, remove}
use collabhub.Model.{child_path}

abbrev pub same_bool : Bool → Bool → Bool
same_bool true b = b
same_bool false b = not b

unfoldable mutual
  pub same_value : Value → Value → Bool
  same_value null null = true
  same_value (boolean a) (boolean b) = same_bool a b
  same_value (integer a) (integer b) = a == b
  same_value (number a) (number b) = a === b
  same_value (string a) (string b) = a === b
  same_value (array a) (array b) = same_items a b
  same_value (object a) (object b) = same_fields a b
  same_value _ _ = false

  pub same_items : Items → Items → Bool
  same_items nil nil = true
  same_items (cons a vs) (cons b ws) = same_value a b && same_items vs ws
  same_items _ _ = false

  pub same_fields : Fields → Fields → Bool
  same_fields end end = true
  same_fields (field j a fs) (field k b gs) = j === k && same_value a b && same_fields fs gs
  same_fields _ _ = false

-- jsonEqual
unfoldable pub json_equal : Option Value → Option Value → Bool
json_equal none none = true
json_equal (some a) (some b) = same_value a b
json_equal _ _ = false

-- How many values a value holds, itself among them
unfoldable mutual
  pub count : Value → ℕ
  count (array vs) = suc (count_items vs)
  count (object fs) = suc (count_fields fs)
  count _ = 1

  pub count_items : Items → ℕ
  count_items nil = 0
  count_items (cons v vs) = count v + count_items vs

  pub count_fields : Fields → ℕ
  count_fields end = 0
  count_fields (field k v fs) = count v + count_fields fs

-- new Set(...)
unfoldable pub unique : List Text → List Text
unique [] = []
unique (k ∷ ks) = k ∷ keep (λ j. not (k === j)) (unique ks)

-- The order of the code units
unfoldable pub text_before : Text → Text → Bool
text_before [] t = true
text_before (a ∷ s) [] = false
text_before (a ∷ s) (b ∷ t) = elim (a == b) [ true ↦ text_before s t | false ↦ ltb a b ]

-- [...new Set([...Object.keys(before), ...Object.keys(after)])].sort()
unfoldable pub all_keys : Fields → Fields → List Text
all_keys before after = sort_with text_before (unique (keys before ++ keys after))

abbrev pub Differ : Type 0
Differ = Text → Option Value → Option Value → Result (List Patch)

-- The names that every object inherits from Object.prototype
unfoldable pub is_inherited : Text → Bool
is_inherited name =
    any (λ n. n === name)
      (text "constructor"
        ∷ text "__defineGetter__"
        ∷ text "__defineSetter__"
        ∷ text "hasOwnProperty"
        ∷ text "__lookupGetter__"
        ∷ text "__lookupSetter__"
        ∷ text "isPrototypeOf"
        ∷ text "propertyIsEnumerable"
        ∷ text "toString"
        ∷ text "valueOf"
        ∷ text "__proto__"
        ∷ text "toLocaleString"
        ∷ [])

-- before[key] of an object: its own field, or what it inherits under the name
unfoldable pub read_key : Fields → Text → Option Value
read_key fs k = elim (get fs k) [
  | some v ↦ some v
  | none ↦ if is_inherited k then some other else none
]

-- Whether JSON holds a value
unfoldable mutual
  pub is_json : Value → Bool
  is_json (array vs) = are_json vs
  is_json (object fs) = fields_are_json fs
  is_json other = false
  is_json _ = true

  pub are_json : Items → Bool
  are_json nil = true
  are_json (cons v vs) = is_json v && are_json vs

  pub fields_are_json : Fields → Bool
  fields_are_json end = true
  fields_are_json (field k v fs) = is_json v && fields_are_json fs

abbrev pub may_be_json : Option Value → Bool
may_be_json none = true
may_be_json (some v) = is_json v

-- The loop over the keys of two objects
unfoldable pub diff_keys : Differ → Text → Fields → Fields → List Text → Result (List Patch)
diff_keys differ path before after [] = ok []
diff_keys differ path before after (k ∷ ks) = do
  child ← child_path path k
  first ← differ child (read_key before k) (read_key after k)
  rest ← diff_keys differ path before after ks
  ok (first ++ rest)

-- What diffValue does with two JSON values that are not equal
unfoldable pub diff_unequal : Differ → Text → Option Value → Option Value → Result (List Patch)
diff_unequal differ path before none = ok (remove path ∷ [])
diff_unequal differ path (some (object fs)) (some (object gs)) =
    diff_keys differ path fs gs (all_keys fs gs)
diff_unequal differ path before (some v) = ok (set path v ∷ [])

-- What diffValue does with values of which JSON does not hold one is `foreign`.
module _ (foreign : Differ) where
  -- diffValue
  unfoldable pub diff_value : ℕ → Differ
  diff_value zero path before after = ok []
  diff_value (suc fuel) path before after = elim (may_be_json before && may_be_json after) [
    | false ↦ foreign path before after
    | true ↦ elim (json_equal before after) [
      | true ↦ ok []
      | false ↦ diff_unequal (diff_value fuel) path before after
    ]
  ]

  -- diffJsonObjects, of two objects; no value is deeper than the values are many.
  unfoldable pub diff_json_objects : Fields → Fields → Result (List Patch)
  diff_json_objects before after =
      diff_keys (diff_value (suc (count_fields after))) [] before after (all_keys before after)
