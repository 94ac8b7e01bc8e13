-- ===== src/DomainJson/Patches/Effects.antt =====
-- Each entity patch of packages/domain-json/src/index.ts that applies: what it does to the list, and what
-- ids find afterwards.
use collabhub.Prelude.{
  Text, text, ◌≡◌, ◌≢◌, ◌∙◌, sym, ap, not, Option, none, some, List, arith, keep, map, ===-refl,
  ===-eq_false, Option-cases, inl, inr,
}
use collabhub.Errors.{ok, ◌>>=◌, Ensures, Ensures-bind, Ensures-ok}
use collabhub.Protocol.Json.{Value, string, array, Fields, of_list, get, get-put, to_list-of_list}
use collabhub.Protocol.Messages.{Patch, entity_upsert, entity_delete, list_order}
use collabhub.DomainJson.Patches.{
  assert_safe_canonical_patch, has_id, upsert_item, order_item, list_at, put_list, change,
  apply_canonical_patch,
}
use collabhub.DomainJson.Patches.Entities.{
  item, entity, IsObject, upserted, item-keep_self, item-keep_ne, item-upsert_self, item-upsert_ne,
  item-order_item, has_id-item, order_item_ne,
}
use collabhub.DomainJson.Patches.Listed.{
  Deleted, Upserted, Reordered, keep-Deleted, upsert_item-Upserted, order_item-Reordered,
}

-- The collection's list has changed as `Changed` says; the id finds what is expected, the other ids of the
-- collection find what they found before, and the other keys of the document stand as before.
pub record Touched (before after : Fields) (collection id : Text) (expected : Option Value)
    (Changed : List Value → List Value → Type 0) : Type 0 where
  pub items : List Value
  pub next_items : List Value
  pub listed : list_at before collection ≡ ok items
  pub next_listed : list_at after collection ≡ ok next_items
  pub changed : Changed items next_items
  pub at_id : entity after collection id ≡ expected
  pub other_ids :
      (other : Text) → id ≢ other → entity after collection other ≡ entity before collection other
  pub other_keys : (key : Text) → collection ≢ key → get after key ≡ get before key

list_at-put_list :
    (state : Fields) (collection : Text) (vs : List Value)
    → list_at (put_list state collection vs) collection ≡ ok vs
unfolding list_at put_list
list_at-put_list state collection vs =
    rw (get-put state collection collection (array (of_list vs)), ===-refl collection, list_at)
      (ap ok (to_list-of_list vs))

entity-put_list :
    (state : Fields) (collection id : Text) (vs : List Value)
    → entity (put_list state collection vs) collection id ≡ item id vs
unfolding entity
entity-put_list state collection id vs = rw (list_at-put_list state collection vs, entity)

entity-list_at :
    (state : Fields) (collection id : Text) (vs : List Value)
    → list_at state collection ≡ ok vs
    → entity state collection id ≡ item id vs
unfolding entity
entity-list_at state collection id vs e = rw (e, entity)

get-put_list_ne :
    (state : Fields) (collection key : Text) (vs : List Value)
    → collection ≢ key
    → get (put_list state collection vs) key ≡ get state key
unfolding put_list
get-put_list_ne state collection key vs h = rw (get-put, ===-eq_false collection key h)

entity-listed :
    (state : Fields) (collection id : Text) (vs : List Value) (o : Option Value)
    → list_at state collection ≡ ok vs
    → entity state collection id ≡ o
    → item id vs ≡ o
entity-listed state collection id vs o listed e =
    sym (entity-list_at state collection id vs listed) ∙ e

pub Touched-map :
    {before after : Fields} {collection id : Text} {expected : Option Value}
    {Changed Exactly : List Value → List Value → Type 0}
    → entity before collection id ≡ none
    → ((vs ws : List Value) → item id vs ≡ none → Changed vs ws → Exactly vs ws)
    → Touched before after collection id expected Changed
    → Touched before after collection id expected Exactly
Touched-map new f t = record {
  items = t.items;
  next_items = t.next_items;
  listed = t.listed;
  next_listed = t.next_listed;
  changed = f t.items t.next_items (entity-listed _ _ _ t.items none t.listed new) t.changed;
  at_id = t.at_id;
  other_ids = t.other_ids;
  other_keys = t.other_keys;
}

module _ (before : Fields) (collection id : Text) where
  module _ (Changed : List Value → List Value → Type 0) where
    -- A change of the collection's list, seen through the ids.
    put_list-Touched :
        (f : List Value → List Value) (expected : Option Value → Option Value)
        → ((vs : List Value) → Changed vs (f vs))
        → ((vs : List Value) → item id (f vs) ≡ expected (item id vs))
        → ((other : Text) (vs : List Value) → id ≢ other → item other (f vs) ≡ item other vs)
        → Ensures
            (λ after.
              Touched before after collection id (expected (entity before collection id)) Changed)
            (do items ← list_at before collection; ok (put_list before collection (f items)))
    put_list-Touched f expected changed here there =
        Ensures-bind
          (λ after.
            Touched before after collection id (expected (entity before collection id)) Changed)
          (list_at before collection) _
          λ vs e. record {
            items = vs;
            next_items = f vs;
            listed = e;
            next_listed = list_at-put_list before collection (f vs);
            changed = changed vs;
            at_id =
                entity-put_list before collection id (f vs)
                ∙ here vs
                ∙ ap expected (sym (entity-list_at before collection id vs e));
            other_ids = λ other ne.
                entity-put_list before collection other (f vs)
                ∙ there other vs ne
                ∙ sym (entity-list_at before collection other vs e);
            other_keys = λ key ne. get-put_list_ne before collection key (f vs) ne;
          }

    Touched-safe :
        (patch : Patch) (expected : Option Value) (after : Fields)
        → apply_canonical_patch before patch ≡ ok after
        → Ensures (λ s. Touched before s collection id expected Changed) (change before patch)
        → Touched before after collection id expected Changed
    unfolding apply_canonical_patch
    Touched-safe patch expected after h t =
        Ensures-ok (λ s. Touched before s collection id expected Changed) _ after h
          (Ensures-bind (λ s. Touched before s collection id expected Changed)
            (assert_safe_canonical_patch patch) _ λ u e. t)

  -- A delete that applies takes each item with the id out of the list and leaves all others in their order,
  -- those without an id too, so that the id finds none; the document's other keys stand as before.
  pub apply_canonical_patch-entity_delete :
      (after : Fields)
      → apply_canonical_patch before (entity_delete collection id) ≡ ok after
      → Touched before after collection id none (Deleted id)
  unfolding change
  apply_canonical_patch-entity_delete after h =
      Touched-safe (Deleted id) (entity_delete collection id) none after h (
        put_list-Touched (Deleted id) (keep (λ v. not (has_id id v))) (λ _. none) (keep-Deleted id)
          (item-keep_self id) (λ other vs ne. item-keep_ne id other vs ne))

  -- An upsert of an object that carries its id merges the object into the list's first item with the id, or
  -- adds it at the end where no item has the id, and leaves all other items in their order. The id then
  -- finds that item; the document's other keys stand as before.
  pub apply_canonical_patch-entity_upsert :
      (value after : Fields)
      → IsObject value
      → get value (text "id") ≡ some (string id)
      → apply_canonical_patch before (entity_upsert collection id value) ≡ ok after
      → Touched before after collection id
          (some (upserted value (entity before collection id)))
          (Upserted id value)
  unfolding change
  apply_canonical_patch-entity_upsert value after o named h =
      Touched-safe (Upserted id value) (entity_upsert collection id value) _ after h (
        put_list-Touched (Upserted id value) (upsert_item id value)
          (λ old. some (upserted value old)) (upsert_item-Upserted id value)
          (λ vs. item-upsert_self id value vs o named)
          (λ other vs ne. item-upsert_ne id other value vs o named ne))

  abbrev pub ordered : Text → Option Value → Option Value
  ordered position none = none
  ordered position (some v) = some (order_item id position v)

  order_here :
      (position : Text) (vs : List Value)
      → item id (map (order_item id position) vs) ≡ ordered position (item id vs)
  order_here position vs = ground (arith, item-order_item id id position vs)

  order_there :
      (position other : Text) (vs : List Value)
      → id ≢ other
      → item other (map (order_item id position) vs) ≡ item other vs
  order_there position other vs ne = elim (Option-cases (item other vs)) [
    | inl e ↦ item-order_item id other position vs ∙ rw e
    | inr (v, e) ↦
        item-order_item id other position vs
        ∙ rw e (ap some (order_item_ne id other position v ne (has_id-item other vs v e)))
  ]

  -- A reordering that applies sets the order key of each item with the id, of every one if there are
  -- several, and leaves all other items and the order of the list as they were; the document's other keys
  -- stand as before.
  pub apply_canonical_patch-list_order :
      (position : Text) (after : Fields)
      → apply_canonical_patch before (list_order collection id position) ≡ ok after
      → Touched before after collection id
          (ordered position (entity before collection id))
          (Reordered id position)
  unfolding change
  apply_canonical_patch-list_order position after h =
      Touched-safe (Reordered id position) (list_order collection id position) _ after h (
        put_list-Touched (Reordered id position) (map (order_item id position)) (ordered position)
          (order_item-Reordered id position) (order_here position)
          (λ other vs ne. order_there position other vs ne))
