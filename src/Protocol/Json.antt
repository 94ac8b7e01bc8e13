-- ===== src/Protocol/Json.antt =====
-- The values of packages/protocol/src/index.ts (JsonValue, JsonObject), and the operations that
-- JavaScript gives on them. A number that is no non-negative integer is known by its printed text.
-- The fields of an object stand in the order in which JavaScript lists them.
use collabhub.Prelude.{
  ℕ, Text, ◌≡◌, refl, Bool, Option, none, some, List, [], ◌∷◌, arith, ◌===◌, ===_iff, if◌then◌else◌,
}

mutual
  pub data Value : Type 0 where
    null : Value
    boolean : Bool → Value
    integer : ℕ → Value
    number : Text → Value
    string : Text → Value
    array : Items → Value
    object : Fields → Value
    -- undefined, a function, a symbol, NaN, an infinity: what JSON does not hold
    other : Value

  pub data Items : Type 0 where
    nil : Items
    cons : Value → Items → Items

  pub data Fields : Type 0 where
    end : Fields
    field : Text → Value → Fields → Fields

unfoldable pub to_list : Items → List Value
to_list nil = []
to_list (cons v vs) = v ∷ to_list vs

unfoldable pub of_list : List Value → Items
of_list [] = nil
of_list (v ∷ vs) = cons v (of_list vs)

pub to_list-of_list : (vs : List Value) → to_list (of_list vs) ≡ vs
unfolding to_list of_list
to_list-of_list [] = refl
to_list-of_list (v ∷ vs) = rw (to_list-of_list vs)

-- Object.values
unfoldable pub values : Fields → List Value
values end = []
values (field k v fs) = v ∷ values fs

-- Object.keys
unfoldable pub keys : Fields → List Text
keys end = []
keys (field k v fs) = k ∷ keys fs

-- object[key]; a missing key reads as undefined
unfoldable pub get : Fields → Text → Option Value
get end k = none
get (field j v fs) k = if j === k then some v else get fs k

-- object[key] = value
unfoldable pub put : Fields → Text → Value → Fields
put end k v = field k v end
put (field j w fs) k v = if j === k then field j v fs else field j w (put fs k v)

-- delete object[key]
unfoldable pub delete : Fields → Text → Fields
delete end k = end
delete (field j w fs) k = let rest = delete fs k in if j === k then rest else field j w rest

-- { ...base, ...more }
unfoldable pub spread : Fields → Fields → Fields
spread base end = base
spread base (field k v more) = spread (put base k v) more

pub get-put :
    (fs : Fields) (k j : Text) (v : Value)
    → get (put fs k v) j ≡ (if k === j then some v else get fs j)
unfolding get put
get-put end k j v = refl
get-put (field i w fs) k j v =
    ground (arith, ===_iff k j, ===_iff i k, ===_iff i j, get-put fs k j v)

pub get-delete :
    (fs : Fields) (k j : Text) → get (delete fs k) j ≡ (if k === j then none else get fs j)
unfolding get delete
get-delete end k j = ground arith
get-delete (field i w fs) k j =
    ground (arith, ===_iff k j, ===_iff i k, ===_iff i j, get-delete fs k j)

pub ruleset field_laws = (get-put, get-delete)
