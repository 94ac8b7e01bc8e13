-- ===== src/DomainJson/Patches.antt =====
-- assertSafeCanonicalPatch, applyCanonicalPatch and applyCanonicalPatches of
-- packages/domain-json/src/index.ts.
pub mod Writes
pub mod Entities
pub mod Listed
pub mod Effects
use collabhub.Prelude.{
  ℕ, Text, text, Bool, true, false, not, ◌&&◌, ◌||◌, Option, none, some, List, [], ◌∷◌, ◌++◌, map,
  ltb, leb, length, keep, ◌===◌, if◌then◌else◌,
}
use collabhub.Errors.{
  Message, Result, ok, throws, ◌>>=◌, ◌>>◌, unsafe_collection, unbounded_entity_id, not_a_list,
}
use collabhub.Protocol.Json.{
  Value, object, array, string, Items, Fields, to_list, of_list, get, put, spread,
}
use collabhub.Protocol.Messages.{Patch, set, remove, entity_upsert, entity_delete, list_order}
use collabhub.DomainJson.Pointer.{is_safe_property_name, pointer_segments, set_pointer}

unfoldable pub assert_safe_entity : Text → Text → Result (Unit {0})
assert_safe_entity collection id =
    if not (is_safe_property_name collection)
    then throws unsafe_collection
    else if leb (length id) 0 || ltb 512 (length id)
    then throws unbounded_entity_id
    else ok tt

unfoldable pub assert_safe_canonical_patch : Patch → Result (Unit {0})
unfolding assert_safe_entity
assert_safe_canonical_patch (set path value) = do pointer_segments path; ok tt
assert_safe_canonical_patch (remove path) = do pointer_segments path; ok tt
assert_safe_canonical_patch (entity_upsert collection id value) = assert_safe_entity collection id
assert_safe_canonical_patch (entity_delete collection id) = assert_safe_entity collection id
assert_safe_canonical_patch (list_order collection id position) = assert_safe_entity collection id

abbrev pub is_text : Text → Option Value → Bool
is_text id (some (string s)) = s === id
is_text id _ = false

-- item && typeof item === 'object' && !Array.isArray(item) && item.id === id
unfoldable pub has_id : Text → Value → Bool
has_id id (object fs) = is_text id (get fs (text "id"))
has_id id v = false

-- { ...item, ...value }, of an item that is an object
unfoldable pub merge_item : Fields → Value → Value
unfolding spread
merge_item value (object fs) = object (spread fs value)
merge_item value v = v

-- The first item with the id is merged with the value, which is pushed if there is none.
unfoldable pub upsert_item : Text → Fields → List Value → List Value
unfolding has_id merge_item
upsert_item id value [] = object value ∷ []
upsert_item id value (v ∷ vs) =
    if has_id id v then merge_item value v ∷ vs else v ∷ upsert_item id value vs

-- { ...item, orderKey: position }
unfoldable pub order_item : Text → Text → Value → Value
unfolding has_id
order_item id position (object fs) =
    if has_id id (object fs) then object (put fs (text "orderKey") (string position)) else object fs
order_item id position v = v

unfoldable pub list_at : Fields → Text → Result (List Value)
unfolding to_list
list_at state collection = elim (get state collection) [
  | some (array items) ↦ ok (to_list items)
  | _ ↦ throws (not_a_list collection)
]

-- { ...state, [collection]: items }
unfoldable pub put_list : Fields → Text → List Value → Fields
put_list state collection items = put state collection (array (of_list items))

unfoldable pub change : Fields → Patch → Result Fields
change state (set path value) = set_pointer state path (some value)
change state (remove path) = set_pointer state path none
change state (entity_delete collection id) = do
  items ← list_at state collection
  ok (put_list state collection (keep (λ v. not (has_id id v)) items))
change state (entity_upsert collection id value) = do
  items ← list_at state collection
  ok (put_list state collection (upsert_item id value items))
change state (list_order collection id position) = do
  items ← list_at state collection
  ok (put_list state collection (map (order_item id position) items))

unfoldable pub apply_canonical_patch : Fields → Patch → Result Fields
unfolding assert_safe_canonical_patch change
apply_canonical_patch state patch = do assert_safe_canonical_patch patch; change state patch

unfoldable pub apply_canonical_patches : Fields → List Patch → Result Fields
unfolding apply_canonical_patch
apply_canonical_patches state [] = ok state
apply_canonical_patches state (p ∷ ps) = do
  next ← apply_canonical_patch state p
  apply_canonical_patches next ps
