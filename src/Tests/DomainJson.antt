-- ===== src/Tests/DomainJson.antt =====
-- Tests and instances for the patches and the strategies.
use collabhub.Prelude.{Text, text, ◌≡◌, ◌≢◌, refl, none, some, [], ◌∷◌, ◌===◌, find, keep}
use collabhub.Protocol.Json.{
  Value, string, object, array, Items, nil, cons, Fields, end, field, get, put, delete, spread,
  to_list, of_list,
}
use collabhub.Protocol.Messages.{entity_upsert, entity_delete}
use collabhub.DomainJson.Pointer.{
  pointer_segments, is_safe_property_name, is_unsafe_name, split, unescape, replace_all,
  set_segments, set_pointer,
}
use collabhub.DomainJson.Patches.{
  apply_canonical_patch, apply_canonical_patches, has_id, upsert_item, order_item, list_at,
  put_list,
}
use collabhub.DomainJson.Patches.Writes.{
  Written, apply_canonical_patch-set, apply_canonical_patch-remove,
}
use collabhub.DomainJson.Patches.Entities.{entity, item, upserted}
use collabhub.DomainJson.Patches.Listed.{Deleted, Upserted, Reordered}
use collabhub.DomainJson.Patches.Effects.{
  Touched, ordered, apply_canonical_patch-entity_delete, apply_canonical_patch-entity_upsert,
  apply_canonical_patch-list_order,
}
use collabhub.DomainJson.Strategies.{resolve_entity_at}
use collabhub.DomainJson.Strategies.Lifecycle.{
  with_id, Appended, resolve_entity_at-create, resolve_entity_at-delete,
}
use collabhub.Tests.Data.{document, title}

abbrev tasks : Text
unfolding text
tasks = text "tasks"

abbrev with_tasks : Items → Fields
with_tasks items =
    field (text "title") (string (text "old")) (field (text "tasks") (array items) end)

abbrev task : Text → Value
task id = object (field (text "id") (string id) end)

apply_canonical_patch-set_example :
    Written document (title (text "new")) (text "/title") (some (string (text "new")))
unfolding text ◌===◌ apply_canonical_patch pointer_segments is_safe_property_name is_unsafe_name
    split unescape replace_all set_pointer set_segments put
apply_canonical_patch-set_example =
    apply_canonical_patch-set document (title (text "new")) (text "/title") (string (text "new"))
      refl

-- A path into the list of tasks, which gives way to an object
abbrev without_tasks : Fields
without_tasks = field (text "title") (string (text "old")) (field (text "tasks") (object end) end)

apply_canonical_patch-remove_example : Written document without_tasks (text "/tasks/title") none
unfolding text ◌===◌ apply_canonical_patch pointer_segments is_safe_property_name is_unsafe_name
    split unescape replace_all set_pointer set_segments put delete get
apply_canonical_patch-remove_example =
    apply_canonical_patch-remove document without_tasks (text "/tasks/title") refl

apply_canonical_patch-entity_delete_example :
    Touched document (with_tasks nil) (text "tasks") (text "a") none (Deleted (text "a"))
unfolding text ◌===◌ apply_canonical_patch is_safe_property_name is_unsafe_name list_at put_list
    has_id get put to_list of_list keep
apply_canonical_patch-entity_delete_example =
    apply_canonical_patch-entity_delete document (text "tasks") (text "a") (with_tasks nil) refl

abbrev task_b : Fields
task_b = field (text "id") (string (text "b")) end

apply_canonical_patch-entity_upsert_example :
    Touched document
      (with_tasks (cons (task (text "a")) (cons (task (text "b")) nil)))
      (text "tasks")
      (text "b")
      (some (upserted task_b (entity document (text "tasks") (text "b"))))
      (Upserted (text "b") task_b)
unfolding text ◌===◌ apply_canonical_patch is_safe_property_name is_unsafe_name list_at put_list
    has_id upsert_item get put spread to_list of_list
apply_canonical_patch-entity_upsert_example =
    apply_canonical_patch-entity_upsert document (text "tasks") (text "b") task_b
      (with_tasks (cons (task (text "a")) (cons (task (text "b")) nil))) (refl, tt) refl refl

abbrev ordered_tasks : Fields
ordered_tasks = with_tasks (
    cons
      (object
        (field (text "id") (string (text "a")) (field (text "orderKey") (string (text "7")) end)))
      nil)

apply_canonical_patch-list_order_example :
    Touched document ordered_tasks
      (text "tasks")
      (text "a")
      (ordered document
        (text "tasks")
        (text "a")
        (text "7")
        (entity document (text "tasks") (text "a")))
      (Reordered (text "a") (text "7"))
unfolding text ◌===◌ apply_canonical_patch is_safe_property_name is_unsafe_name list_at put_list
    order_item get put to_list of_list
apply_canonical_patch-list_order_example =
    apply_canonical_patch-list_order document (text "tasks") (text "a") (text "7") ordered_tasks
      refl

resolve_entity_at-create_example :
    (entity document (text "tasks") (text "b") ≡ none)
    × Touched document
        (with_tasks (cons (task (text "a")) (cons (task (text "b")) nil)))
        (text "tasks")
        (text "b")
        (some (object (with_id end (text "b"))))
        (Appended (with_id end (text "b")))
unfolding text ◌===◌ resolve_entity_at entity item find apply_canonical_patches
    is_safe_property_name is_unsafe_name list_at put_list has_id upsert_item get put spread to_list
    of_list
resolve_entity_at-create_example =
    resolve_entity_at-create (text "tasks") (text "b") document
      (with_tasks (cons (task (text "a")) (cons (task (text "b")) nil)))
      (entity_upsert (text "tasks") (text "b") (with_id end (text "b")) ∷ []) end tt refl refl

resolve_entity_at-delete_example :
    (entity document (text "tasks") (text "a") ≢ none)
    × Touched document (with_tasks nil) (text "tasks") (text "a") none (Deleted (text "a"))
unfolding text ◌===◌ resolve_entity_at entity item find apply_canonical_patches
    is_safe_property_name is_unsafe_name list_at put_list has_id get put to_list of_list keep
resolve_entity_at-delete_example =
    resolve_entity_at-delete (text "tasks") (text "a") document (with_tasks nil)
      (entity_delete (text "tasks") (text "a") ∷ []) none refl refl
