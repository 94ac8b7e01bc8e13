-- ===== src/DomainJson/Patches/Entities.antt =====
-- What the entity and list patches do to the entities of a collection.
use collabhub.Prelude.{
  Text, text, ◌≡◌, ◌≢◌, ◌∙◌, refl, sym, true, not, Option, none, some, List, [], ◌∷◌, arith, find,
  keep, map, ◌===◌, ===_iff, ===-refl, ===-eq_false,
}
use collabhub.Errors.{ok, throws}
use collabhub.Protocol.Json.{Value, string, object, Fields, end, field, get, put, spread, get-put}
use collabhub.DomainJson.Patches.{is_text, has_id, merge_item, upsert_item, order_item, list_at}

-- The entity of a collection that an id finds: its first item with that id.
unfoldable pub item : Text → List Value → Option Value
item id vs = find (has_id id) vs

unfoldable pub entity : Fields → Text → Text → Option Value
entity state collection id = elim (list_at state collection) [
  | ok items ↦ item id items
  | throws e ↦ none
]

has_id_unique : (i j : Text) (v : Value) → has_id i v ≡ true → has_id j v ≡ true → i ≡ j
unfolding has_id
has_id_unique i j (object fs) p q = go (get fs (text "id")) p q
  where
    go : (o : Option Value) → is_text i o ≡ true → is_text j o ≡ true → i ≡ j
    go (some (string s)) p q = sym ((===_iff s i).0 p) ∙ (===_iff s j).0 q
    go none p q = cc
    go (some v) p q = cc
has_id_unique i j v p q = cc

pub item-keep_self :
    (id : Text) (vs : List Value) → item id (keep (λ v. not (has_id id v)) vs) ≡ none
unfolding item find keep
item-keep_self id [] = refl
item-keep_self id (v ∷ vs) = ground (arith, item-keep_self id vs)

pub item-keep_ne :
    (id other : Text) (vs : List Value)
    → id ≢ other
    → item other (keep (λ v. not (has_id id v)) vs) ≡ item other vs
unfolding item find keep
item-keep_ne id other [] h = refl
item-keep_ne id other (v ∷ vs) h =
    ground (arith, has_id_unique id other v, item-keep_ne id other vs h)

-- The keys of an object are distinct.
abbrev pub IsObject : Fields → Type 0
IsObject end = Unit
IsObject (field k v fs) = (get fs k ≡ none) × IsObject fs

abbrev pub or_else : Option Value → Option Value → Option Value
or_else (some v) o = some v
or_else none o = o

pub get-spread :
    (base more : Fields) (k : Text)
    → IsObject more
    → get (spread base more) k ≡ or_else (get more k) (get base k)
unfolding get spread
get-spread base end k h = refl
get-spread base (field j v more) k h =
    ground (arith, get-spread (put base j v) more k, get-put base j k v, ===_iff j k)

has_id-merge :
    (id : Text) (value : Fields) (v : Value)
    → IsObject value
    → get value (text "id") ≡ some (string id)
    → has_id id v ≡ true
    → has_id id (merge_item value v) ≡ true
unfolding has_id merge_item
has_id-merge id value (object fs) h named e =
    rw (get-spread fs value (text "id") h, named) (===-refl id)
has_id-merge id value v h named e = cc

-- What an upsert leaves at its id.
abbrev pub upserted : Fields → Option Value → Value
upserted value none = object value
upserted value (some old) = merge_item value old

pub item-upsert_self :
    (id : Text) (value : Fields) (vs : List Value)
    → IsObject value
    → get value (text "id") ≡ some (string id)
    → item id (upsert_item id value vs) ≡ some (upserted value (item id vs))
unfolding item find upsert_item
item-upsert_self id value [] h named = unfold has_id in rw named (rw (===-refl id))
item-upsert_self id value (v ∷ vs) h named =
    ground (arith, has_id-merge id value v h named, item-upsert_self id value vs h named)

pub item-upsert_ne :
    (id other : Text) (value : Fields) (vs : List Value)
    → IsObject value
    → get value (text "id") ≡ some (string id)
    → id ≢ other
    → item other (upsert_item id value vs) ≡ item other vs
unfolding item find upsert_item
item-upsert_ne id other value [] h named ne = rw (named, ===-eq_false id other ne)
item-upsert_ne id other value (v ∷ vs) h named ne = ground (
  arith,
  has_id-merge id value v h named,
  has_id_unique id other v,
  has_id_unique id other (merge_item value v),
  item-upsert_ne id other value vs h named ne,
)

has_id-order_item :
    (id other position : Text) (v : Value)
    → has_id other (order_item id position v) ≡ has_id other v
unfolding has_id order_item text ◌===◌
has_id-order_item id other position (object fs) =
    ground (arith, get-put fs (text "orderKey") (text "id") (string position))
has_id-order_item id other position v = refl

-- The item of the moved id carries the new order key, and every other item is as it was.
pub item-order_item :
    (id other position : Text) (vs : List Value)
    → item other (map (order_item id position) vs)
      ≡ elim (item other vs) [ some v ↦ some (order_item id position v) | none ↦ none ]
unfolding item find
item-order_item id other position [] = refl
item-order_item id other position (v ∷ vs) =
    ground (arith, has_id-order_item id other position v, item-order_item id other position vs)

pub has_id-item :
    (id : Text) (vs : List Value) (v : Value) → item id vs ≡ some v → has_id id v ≡ true
unfolding item find
has_id-item id [] v h = cc
has_id-item id (w ∷ vs) v h = ground (arith, has_id-item id vs v)

pub order_item_ne :
    (id other position : Text) (v : Value)
    → id ≢ other
    → has_id other v ≡ true
    → order_item id position v ≡ v
unfolding order_item
order_item_ne id other position (object fs) ne h =
    ground (arith, has_id_unique id other (object fs))
order_item_ne id other position v ne h = refl
