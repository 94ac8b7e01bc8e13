-- ===== src/Tests/Model.antt =====
-- Tests and instances for the model's paths.
use collabhub.Prelude.{
  ◌≤◌, Text, text, ◌≡◌, refl, some, List, [], ◌∷◌, length, All, any, keep, sort_with, insert_sorted,
  ◌===◌, arith,
}
use collabhub.Errors.{ok, ◌>>=◌, Ensures}
use collabhub.Protocol.Json.{integer, object, Fields, end, field, get, keys}
use collabhub.Protocol.Messages.{Patch, set, remove}
use collabhub.DomainJson.Pointer.{
  pointer_segments, is_safe_property_name, is_unsafe_name, split, unescape, replace_all,
}
use collabhub.DomainJson.Patches.{apply_canonical_patches}
use collabhub.Model.{path_from, child_path, escape_pointer, escape, replace_char}
use collabhub.Model.Pointers.{AreSafe, pointer_segments-path_from}
use collabhub.Model.Diff.{
  Differ, is_inherited, read_key, is_json, fields_are_json, diff_json_objects, diff_value,
  diff_unequal, diff_keys, all_keys, unique, text_before, json_equal, same_value, same_fields,
  count_fields, count,
}
use collabhub.Model.Changes.{Alike}
use collabhub.Model.Plain.{IsPlain, FieldsArePlain}
use collabhub.Model.Returns.{AreNamed, FieldsAreNamed, diff_json_objects-returns}
use collabhub.Model.RoundTrip.{IsReadable, diff_json_objects-apply}

abbrev path_keys : List Text
path_keys = text "a/b" ∷ text "~1" ∷ []

keys_written : path_from [] path_keys ≡ ok (text "/a~1b/~01")
unfolding path_from child_path escape_pointer escape replace_char is_unsafe_name text ◌===◌
keys_written = refl

path_keys-AreSafe : AreSafe path_keys
unfolding is_safe_property_name is_unsafe_name text ◌===◌
path_keys-AreSafe = (refl, (refl, tt))

keys_short : Ensures (λ path. length path ≤ 4096) (path_from [] path_keys)
unfolding text
keys_short = rw keys_written (omega arith)

pointer_segments-path_from_example : (path_from [] path_keys >>= pointer_segments) ≡ ok path_keys
pointer_segments-path_from_example =
    pointer_segments-path_from (text "a/b") (text "~1" ∷ []) path_keys-AreSafe (omega arith)
      keys_short

-- { a: { x: 1, y: 2 }, b: 3 }
abbrev pub before : Fields
before =
    field (text "a") (object (field (text "x") (integer 1) (field (text "y") (integer 2) end)))
      (field (text "b") (integer 3) end)

-- { b: 3, a: { z: {}, x: 5 } }
abbrev pub after : Fields
after = field (text "b") (integer 3) (
    field (text "a") (object (field (text "z") (object end) (field (text "x") (integer 5) end)))
      end)

abbrev pub patches : List Patch
patches = set (text "/a/x") (integer 5) ∷ remove (text "/a/y") ∷ set (text "/a/z") (object end) ∷ []

-- What becomes of values that JSON does not hold is of no matter here.
abbrev pub foreign : Differ
foreign path b a = ok []

pub patches_found : diff_json_objects foreign before after ≡ ok patches
unfolding read_key is_inherited is_json fields_are_json any diff_json_objects diff_value
    diff_unequal diff_keys all_keys unique text_before sort_with insert_sorted keep keys get
    json_equal same_value same_fields count_fields count child_path escape_pointer escape
    replace_char is_unsafe_name text ◌===◌
patches_found = refl

pub patches-IsReadable : All IsReadable patches
unfolding pointer_segments is_safe_property_name is_unsafe_name split unescape replace_all any text
    ◌===◌
patches-IsReadable = (
  (text "a" ∷ text "x" ∷ [], refl),
  ((text "a" ∷ text "y" ∷ [], refl), ((text "a" ∷ text "z" ∷ [], refl), tt)),
)

pub before-FieldsArePlain : FieldsArePlain before
unfolding IsPlain FieldsArePlain is_json is_inherited any text ◌===◌
before-FieldsArePlain = (refl, (refl, refl, (refl, refl, tt)), (refl, refl, tt))

pub after-FieldsArePlain : FieldsArePlain after
unfolding IsPlain FieldsArePlain is_json is_inherited any text ◌===◌
after-FieldsArePlain = (refl, refl, (refl, (refl, tt, (refl, refl, tt)), tt))

diff_json_objects-apply_example :
    (next : Fields) × (apply_canonical_patches before patches ≡ ok next)
    × Alike (some (object next)) (some (object after))
diff_json_objects-apply_example =
    diff_json_objects-apply foreign before after patches before-FieldsArePlain after-FieldsArePlain
      patches_found patches-IsReadable

before-FieldsAreNamed : FieldsAreNamed before
unfolding AreNamed FieldsAreNamed is_unsafe_name text ◌===◌
before-FieldsAreNamed = (refl, (refl, tt, (refl, tt, tt)), (refl, tt, tt))

after-FieldsAreNamed : FieldsAreNamed after
unfolding AreNamed FieldsAreNamed is_unsafe_name text ◌===◌
after-FieldsAreNamed = (refl, tt, (refl, (refl, tt, (refl, tt, tt)), tt))

diff_json_objects-returns_example :
    (patches : List Patch) × (diff_json_objects foreign before after ≡ ok patches)
diff_json_objects-returns_example =
    diff_json_objects-returns foreign before after before-FieldsArePlain after-FieldsArePlain
      before-FieldsAreNamed after-FieldsAreNamed
