-- ===== src/DomainJson/Pointer.antt =====
-- isSafePropertyName, pointerSegments and setPointer of packages/domain-json/src/index.ts.
use collabhub.Prelude.{
  ℕ, Text, text, Bool, true, false, not, ◌&&◌, ◌||◌, Option, none, some, List, [], ◌∷◌, map, ltb,
  leb, ◌==◌, any, length, ◌===◌, if◌then◌else◌,
}
use collabhub.Errors.{
  Result, ok, throws, ◌>>=◌, unbounded_pointer, bad_pointer_depth, unsafe_segment,
}
use collabhub.Protocol.Json.{Value, object, Fields, end, get, put, delete}

-- unsafePropertyNames
unfoldable pub is_unsafe_name : Text → Bool
is_unsafe_name name =
    name === text "__proto__" || name === text "prototype" || name === text "constructor"

unfoldable pub is_safe_property_name : Text → Bool
is_safe_property_name name =
    ltb 0 (length name) && leb (length name) 256 && not (is_unsafe_name name)

-- path.split('/')
unfoldable pub split : Text → List Text
split [] = [] ∷ []
split (c ∷ s) = elim (split s) [
  | [] ↦ []
  | first ∷ rest ↦ if c == b'/' then [] ∷ first ∷ rest else (c ∷ first) ∷ rest
]

-- part.replaceAll(of two characters, by one)
unfoldable pub replace_all : ℕ → ℕ → ℕ → Text → Text
replace_all a b by [] = []
replace_all a b by (x ∷ []) = x ∷ []
replace_all a b by (x ∷ y ∷ s) = elim (x == a && y == b) [
  | true ↦ by ∷ replace_all a b by s
  | false ↦ x ∷ replace_all a b by (y ∷ s)
]

unfoldable pub unescape : Text → Text
unescape part = replace_all b'~' b'0' b'~' (replace_all b'~' b'1' b'/' part)

abbrev starts_with_slash : Text → Bool
starts_with_slash [] = false
starts_with_slash (c ∷ s) = c == b'/'

abbrev pub tail_of : List Text → List Text
tail_of [] = []
tail_of (x ∷ xs) = xs

unfoldable pub pointer_segments : Text → Result (List Text)
unfolding any
pointer_segments path =
    if not (starts_with_slash path) || ltb 4096 (length path)
    then throws unbounded_pointer
    else let segments = map unescape (tail_of (split path)) in
      if length segments == 0 || ltb 64 (length segments)
      then throws bad_pointer_depth
      else if any (λ s. not (is_safe_property_name s)) segments
      then throws unsafe_segment
      else ok segments

-- The child that the walk goes into: a copy of the object that is there, or a new one.
unfoldable pub child_object : Option Value → Fields
child_object (some (object fs)) = fs
child_object _ = end

-- The walk of setPointer over its segments; `none` deletes.
unfoldable pub set_segments : List Text → Option Value → Fields → Fields
unfolding child_object
set_segments [] value fs = fs
set_segments (last ∷ []) (some v) fs = put fs last v
set_segments (last ∷ []) none fs = delete fs last
set_segments (k ∷ j ∷ ks) value fs =
    put fs k (object (set_segments (j ∷ ks) value (child_object (get fs k))))

unfoldable pub set_pointer : Fields → Text → Option Value → Result Fields
set_pointer root path value = do
  segments ← pointer_segments path
  ok (set_segments segments value root)
