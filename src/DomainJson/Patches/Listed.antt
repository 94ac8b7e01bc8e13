-- ===== src/DomainJson/Patches/Listed.antt =====
-- What the entity and list patches of packages/domain-json/src/index.ts do to the items of a list, each
-- described item by item.
use collabhub.Prelude.{
  Text, text, ◌≡◌, refl, sym, ap, ◌∙◌, true, false, not, Option, find, none, some, List, [], ◌∷◌,
  ◌++◌, map, keep, ===_iff, ===-refl, Bool-cases, inl, inr,
}
use collabhub.Protocol.Json.{Value, string, object, Fields, get, put, spread}
use collabhub.DomainJson.Patches.{is_text, has_id, merge_item, upsert_item, order_item}
use collabhub.DomainJson.Patches.Entities.{item}

-- The item is an object whose field `id` is the text.
abbrev pub Carries : Text → Value → Type 0
Carries id v = (fs : Fields) × (v ≡ object fs) × (get fs (text "id") ≡ some (string id))

-- The items with the id are gone; all others are there, in their order.
pub data Deleted (id : Text) : List Value → List Value → Type 0 where
  none_left : Deleted id [] []
  gone : {v : Value} {vs ws : List Value} → Carries id v → Deleted id vs ws → Deleted id (v ∷ vs) ws
  kept :
      {v : Value} {vs ws : List Value}
      → ¬ Carries id v
      → Deleted id vs ws
      → Deleted id (v ∷ vs) (v ∷ ws)

-- The first item with the id has the fields of the value over its own, or the value is added at the end if
-- no item has the id; all others are there, in their order.
pub data Upserted (id : Text) (value : Fields) : List Value → List Value → Type 0 where
  added : Upserted id value [] (object value ∷ [])
  merged :
      {v : Value} {vs : List Value} (c : Carries id v)
      → Upserted id value (v ∷ vs) (object (spread c.0 value) ∷ vs)
  passed :
      {v : Value} {vs ws : List Value}
      → ¬ Carries id v
      → Upserted id value vs ws
      → Upserted id value (v ∷ vs) (v ∷ ws)

-- Each item with the id has the order key; all others are as they were, and the order of the list too.
pub data Reordered (id position : Text) : List Value → List Value → Type 0 where
  none_left : Reordered id position [] []
  moved :
      {v : Value} {vs ws : List Value} (c : Carries id v)
      → Reordered id position vs ws
      → Reordered id position (v ∷ vs) (object (put c.0 (text "orderKey") (string position)) ∷ ws)
  kept :
      {v : Value} {vs ws : List Value}
      → ¬ Carries id v
      → Reordered id position vs ws
      → Reordered id position (v ∷ vs) (v ∷ ws)

has_id-Carries : (id : Text) (v : Value) → has_id id v ≡ true → Carries id v
unfolding has_id
has_id-Carries id (object fs) h = (fs, refl, go (get fs (text "id")) h)
  where
    go : (o : Option Value) → is_text id o ≡ true → o ≡ some (string id)
    go (some (string s)) h = ap (λ x. some (string x)) ((===_iff s id).0 h)
    go none h = cc
    go (some v) h = cc
has_id-Carries id v h = cc

has_id-carried : (id : Text) (v : Value) → Carries id v → has_id id v ≡ true
unfolding has_id
has_id-carried id v (fs, e, named) = rw (e, has_id, named) (===-refl id)

has_id-not_Carries : (id : Text) (v : Value) → has_id id v ≡ false → ¬ Carries id v
unfolding has_id
has_id-not_Carries id v h (fs, e, named) = clash (sym (has_id-carried id v (fs, e, named)) ∙ h)
  where
    clash : true ≡ false → ⊥
    clash e = cc

has_id-not_carried : (id : Text) (v : Value) → ¬ Carries id v → has_id id v ≡ false
has_id-not_carried id v h = elim (Bool-cases (has_id id v)) [
  | inl e ↦ absurd (h (has_id-Carries id v e))
  | inr e ↦ e
]

module _ (id : Text) where
  pub keep-Deleted : (vs : List Value) → Deleted id vs (keep (λ v. not (has_id id v)) vs)
  unfolding keep
  keep-Deleted [] = none_left
  keep-Deleted (v ∷ vs) = elim (Bool-cases (has_id id v)) [
    | inl e ↦ rw (e, keep) (gone (has_id-Carries id v e) (keep-Deleted vs))
    | inr e ↦ rw (e, keep) (kept (has_id-not_Carries id v e) (keep-Deleted vs))
  ]

  pub upsert_item-Upserted :
      (value : Fields) (vs : List Value) → Upserted id value vs (upsert_item id value vs)
  unfolding upsert_item merge_item
  upsert_item-Upserted value [] = added
  upsert_item-Upserted value (v ∷ vs) = elim (Bool-cases (has_id id v)) [
    | inl e ↦
        let c = has_id-Carries id v e in
        let same : merge_item value v ≡ object (spread c.0 value) = rw (c.1, merge_item) refl in
        rw (e, same) (merged c)
    | inr e ↦ rw (e) (passed (has_id-not_Carries id v e) (upsert_item-Upserted value vs))
  ]

  -- What is upserted under an id that finds no item is added at the end.
  pub Upserted-new :
      {value : Fields} {vs ws : List Value}
      → item id vs ≡ none
      → Upserted id value vs ws
      → ws ≡ vs ++ object value ∷ []
  unfolding item find
  Upserted-new new added = refl
  Upserted-new new (merged {v = v} c) =
      absurd (found (rw (has_id-carried id v c, item, find) at new))
    where
      found : {v : Value} → some v ≡ none → ⊥
      found e = cc
  Upserted-new {value = value} new (passed {v = v} {vs = vs} other u) =
      ap (λ xs. v ∷ xs) (Upserted-new (rw (has_id-not_carried id v other, item, find) at new) u)

  order_item_carried :
      (position : Text) (v : Value) (c : Carries id v)
      → order_item id position v ≡ object (put c.0 (text "orderKey") (string position))
  unfolding order_item
  order_item_carried position v (fs, e, named) =
      rw (e, order_item, has_id-carried id (object fs) (fs, refl, named)) refl

  order_item_other :
      (position : Text) (v : Value) → has_id id v ≡ false → order_item id position v ≡ v
  unfolding order_item
  order_item_other position (object fs) h = rw h refl
  order_item_other position v h = refl

  pub order_item-Reordered :
      (position : Text) (vs : List Value)
      → Reordered id position vs (map (order_item id position) vs)
  order_item-Reordered position [] = none_left
  order_item-Reordered position (v ∷ vs) = elim (Bool-cases (has_id id v)) [
    | inl e ↦
        let c = has_id-Carries id v e in
        rw (order_item_carried position v c) (moved c (order_item-Reordered position vs))
    | inr e ↦
        rw (order_item_other position v e)
          (kept (has_id-not_Carries id v e) (order_item-Reordered position vs))
  ]
