-- ===== src/DomainJson/Strategies/Lifecycle.antt =====
-- The life of an entity: what the strategy accepts, once applied, is what the operation asked for.
use collabhub.Prelude.{
  Text, text, ◌≡◌, ◌≢◌, refl, subst, Option, none, some, List, [], ◌∷◌, ◌++◌, arith, ◌===◌, ===_iff,
  ===-refl, Option-cases, inl, inr,
}
use collabhub.Errors.{ok, bind-ok}
use collabhub.Protocol.Json.{Value, string, object, Fields, end, field, get, put, get-put}
use collabhub.Protocol.Messages.{Patch, entity_upsert, entity_delete}
use collabhub.Strategy.{accept}
use collabhub.DomainJson.Patches.{apply_canonical_patch, apply_canonical_patches}
use collabhub.DomainJson.Patches.Entities.{entity, IsObject, upserted}
use collabhub.DomainJson.Patches.Effects.{
  Touched, Touched-map, apply_canonical_patch-entity_upsert, apply_canonical_patch-entity_delete,
}
use collabhub.DomainJson.Patches.Listed.{Deleted, Upserted, Upserted-new}
use collabhub.DomainJson.Strategies.{resolve_entity_at}

IsObject-put : (fs : Fields) (k : Text) (v : Value) → IsObject fs → IsObject (put fs k v)
unfolding put get
IsObject-put end k v h = (refl, tt)
IsObject-put (field j w fs) k v h =
    ground (arith, IsObject-put fs k v h.1, get-put fs k j v, ===_iff j k, ===_iff k j)

-- { ...value, id }
abbrev pub with_id : Fields → Text → Fields
with_id fs id = put fs (text "id") (string id)

-- Adding the object at the end of a list.
abbrev pub Appended : Fields → List Value → List Value → Type 0
Appended value vs ws = ws ≡ vs ++ object value ∷ []

apply_one :
    (state after : Fields) (p : Patch)
    → apply_canonical_patches state (p ∷ []) ≡ ok after
    → apply_canonical_patch state p ≡ ok after
unfolding apply_canonical_patches
apply_one state after p h = let went = bind-ok (apply_canonical_patch state p) h in ground arith

module _ (collection id : Text) (state after : Fields) (patches : List Patch) where
  upsert-Touched :
      (fs : Fields)
      → IsObject fs
      → patches ≡ entity_upsert collection id (with_id fs id) ∷ []
      → apply_canonical_patches state patches ≡ ok after
      → Touched state after collection id
          (some (upserted (with_id fs id) (entity state collection id)))
          (Upserted id (with_id fs id))
  upsert-Touched fs o e applied =
      apply_canonical_patch-entity_upsert state collection id (with_id fs id) after
        (IsObject-put fs (text "id") (string id) o) (rw (get-put, ===-refl (text "id")))
        (apply_one state after _
          (subst (λ ps. apply_canonical_patches state ps ≡ ok after) e applied))

  accepted_create :
      (fs : Fields)
      → resolve_entity_at (text "entity.create") state collection id (some fs) ≡ accept patches
      → (entity state collection id ≡ none)
        × (patches ≡ entity_upsert collection id (with_id fs id) ∷ [])
  unfolding resolve_entity_at text ◌===◌
  accepted_create fs h = ground arith

  -- An accepted create finds no entity under its id; once applied, the given object with the id in it
  -- stands at the end of the list, behind the items that were there, and the id finds it. The document's
  -- other keys stand as before.
  pub resolve_entity_at-create :
      (fs : Fields)
      → IsObject fs
      → resolve_entity_at (text "entity.create") state collection id (some fs) ≡ accept patches
      → apply_canonical_patches state patches ≡ ok after
      → (entity state collection id ≡ none)
        × Touched state after collection id
            (some (object (with_id fs id)))
            (Appended (with_id fs id))
  resolve_entity_at-create fs o h applied =
      let (new, e) = accepted_create fs h in
      (
        new,
        subst
            (λ old.
              Touched state after collection id (some (upserted (with_id fs id) old))
                (Appended (with_id fs id)))
            new
            (Touched-map new (λ vs ws none_there u. Upserted-new id none_there u)
              (upsert-Touched fs o e applied)),
      )

  accepted_delete :
      (value : Option Fields)
      → resolve_entity_at (text "entity.delete") state collection id value ≡ accept patches
      → (entity state collection id ≢ none) × (patches ≡ entity_delete collection id ∷ [])
  unfolding resolve_entity_at text ◌===◌
  accepted_delete value h = elim (Option-cases (entity state collection id)) [
    | inl e ↦ ground arith
    | inr (v, e) ↦ ground arith
  ]

  -- An accepted delete finds an entity under its id; once applied, the items with the id are out of the
  -- list and all others are there in their order, so that the id finds none. The document's other keys
  -- stand as before.
  pub resolve_entity_at-delete :
      (value : Option Fields)
      → resolve_entity_at (text "entity.delete") state collection id value ≡ accept patches
      → apply_canonical_patches state patches ≡ ok after
      → (entity state collection id ≢ none) × Touched state after collection id none (Deleted id)
  resolve_entity_at-delete value h applied =
      let (there, e) = accepted_delete value h in
      (
        there,
        apply_canonical_patch-entity_delete state collection id after (
            apply_one state after _
              (subst (λ ps. apply_canonical_patches state ps ≡ ok after) e applied)),
      )
