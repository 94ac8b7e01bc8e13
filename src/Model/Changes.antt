-- ===== src/Model/Changes.antt =====
-- The changes of packages/model/src/index.ts as paths of keys, and what they do to a value.
use collabhub.Prelude.{
  Text, ◌≡◌, refl, sym, ◌∙◌, ap, Bool, true, false, ◌&&◌, Option, none, some, List, [], ◌∷◌, ◌++◌,
  map, All, ==_iff, ◌===◌, ===_iff, ===-refl, &&-eq-true, if◌then◌else◌, Bool-cases, inl, inr,
}
use collabhub.Protocol.Json.{
  Value, null, boolean, integer, number, string, array, object, Items, nil, cons, Fields, end,
  field, get, get-put, get-delete,
}
use collabhub.DomainJson.Pointer.{child_object, set_segments}
use collabhub.Model.Diff.{same_bool, same_value, same_items, same_fields, json_equal}

-- A path of keys, and the value to set there, or none to remove what is there
abbrev pub Change : Type 0
Change = List Text × Option Value

-- Equal up to the order in which objects list their fields
pub data Alike : Option Value → Option Value → Type 0 where
  equal : {a b : Option Value} → a ≡ b → Alike a b
  objects :
      {fs gs : Fields}
      → ((k : Text) → Alike (get fs k) (get gs k))
      → Alike (some (object fs)) (some (object gs))

-- A change of a value that may not be there
unfoldable pub change_at : Option Value → Change → Option Value
change_at b ([], v) = v
change_at b (k ∷ ks, v) = some (object (set_segments (k ∷ ks) v (child_object b)))

unfoldable pub change_all : Option Value → List Change → Option Value
change_all b [] = b
change_all b (c ∷ cs) = change_all (change_at b c) cs

abbrev pub under : Text → Change → Change
under k (ks, v) = (k ∷ ks, v)

unfoldable pub change_fields : Fields → List Change → Fields
change_fields fs [] = fs
change_fields fs ((ks, v) ∷ cs) = change_fields (set_segments ks v fs) cs

get-set_segments :
    (k j : Text) (ks : List Text) (v : Option Value) (fs : Fields)
    → get (set_segments (k ∷ ks) v fs) j
      ≡ (if k === j then change_at (get fs k) (ks, v) else get fs j)
unfolding set_segments change_at
get-set_segments k j [] (some v) fs = get-put fs k j v
get-set_segments k j [] none fs = get-delete fs k j
get-set_segments k j (i ∷ ks) v fs = get-put fs k j _

-- Changes under a key change what is there, and nothing else.
pub get-change_fields :
    (k j : Text) (cs : List Change) (fs : Fields)
    → get (change_fields fs (map (under k) cs)) j
      ≡ (if k === j then change_all (get fs k) cs else get fs j)
unfolding change_fields change_all
get-change_fields k j [] fs = elim (Bool-cases (k === j)) [
  | inl e ↦ rw (e, (===_iff k j).0 e) refl
  | inr e ↦ rw e refl
]
get-change_fields k j ((ks, v) ∷ cs) fs =
    get-change_fields k j cs (set_segments (k ∷ ks) v fs)
    ∙ rw (get-set_segments k k ks v fs, get-set_segments k j ks v fs, ===-refl k) (choice (k === j))
  where
    choice :
        (b : Bool)
        → (if b
            then change_all (change_at (get fs k) (ks, v)) cs
            else (if b then change_at (get fs k) (ks, v) else get fs j))
          ≡ (if b then change_all (change_at (get fs k) (ks, v)) cs else get fs j)
    choice true = refl
    choice false = refl

pub change_fields-append :
    (fs : Fields) (cs ds : List Change)
    → change_fields fs (cs ++ ds) ≡ change_fields (change_fields fs cs) ds
unfolding change_fields
change_fields-append fs [] ds = refl
change_fields-append fs ((ks, v) ∷ cs) ds = change_fields-append (set_segments ks v fs) cs ds

abbrev pub IsBelow : Change → Type 0
IsBelow ([], v) = ⊥
IsBelow (k ∷ ks, v) = Unit

pub change_all-object :
    (fs : Fields) (cs : List Change)
    → All IsBelow cs
    → change_all (some (object fs)) cs ≡ some (object (change_fields fs cs))
unfolding change_all change_fields change_at child_object
change_all-object fs [] h = refl
change_all-object fs (([], v) ∷ cs) h = elim h.0 [ ]
change_all-object fs ((k ∷ ks, v) ∷ cs) h = change_all-object (set_segments (k ∷ ks) v fs) cs h.1

same_bool-eq : (a b : Bool) → same_bool a b ≡ true → a ≡ b
same_bool-eq true true h = refl
same_bool-eq false false h = refl
same_bool-eq true false h = sym h
same_bool-eq false true h = h

mutual
  unfolding same_value same_items same_fields

  same_value-eq : (a b : Value) → same_value a b ≡ true → a ≡ b
  same_value-eq null null h = refl
  same_value-eq (boolean a) (boolean b) h = ap boolean (same_bool-eq a b h)
  same_value-eq (integer a) (integer b) h = ap integer ((==_iff a b).0 h)
  same_value-eq (number a) (number b) h = ap number ((===_iff a b).0 h)
  same_value-eq (string a) (string b) h = ap string ((===_iff a b).0 h)
  same_value-eq (array a) (array b) h = ap array (same_items-eq a b h)
  same_value-eq (object a) (object b) h = ap object (same_fields-eq a b h)
  same_value-eq _ _ h = cc

  same_items-eq : (vs ws : Items) → same_items vs ws ≡ true → vs ≡ ws
  same_items-eq nil nil h = refl
  same_items-eq (cons a vs) (cons b ws) h =
      let both = &&-eq-true (same_value a b) (same_items vs ws) h in
      ap (λ x. cons x vs) (same_value-eq a b both.0) ∙ ap (cons b) (same_items-eq vs ws both.1)
  same_items-eq _ _ h = cc

  same_fields-eq : (fs gs : Fields) → same_fields fs gs ≡ true → fs ≡ gs
  same_fields-eq end end h = refl
  same_fields-eq (field j a fs) (field k b gs) h =
      let both = &&-eq-true (j === k && same_value a b) (same_fields fs gs) h in
      let head = &&-eq-true (j === k) (same_value a b) both.0 in
      ap (λ n. field n a fs) ((===_iff j k).0 head.0)
      ∙ ap (λ v. field k v fs) (same_value-eq a b head.1)
      ∙ ap (field k b) (same_fields-eq fs gs both.1)
  same_fields-eq _ _ h = cc

pub json_equal-eq : (b a : Option Value) → json_equal b a ≡ true → b ≡ a
unfolding json_equal
json_equal-eq none none h = refl
json_equal-eq (some v) (some w) h = ap some (same_value-eq v w h)
json_equal-eq none (some w) h = cc
json_equal-eq (some v) none h = cc
