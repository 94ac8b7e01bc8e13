-- ===== src/Protocol/Complexity.antt =====
-- assertJsonComplexity of packages/protocol/src/index.ts: the bounds on a JSON value's shape.
pub mod Accepts
use collabhub.Prelude.{
  ℕ, zero, suc, ◌+◌, ◌≡◌, refl, Bool, true, false, Option, none, some, List, [], ◌∷◌, ◌++◌, arith,
  ltb, length, if◌then◌else◌,
}
use collabhub.Errors.{
  Message, Result, ok, throws, exceeds_nodes, exceeds_depth, exceeds_entries, not_json_compatible,
}
use collabhub.Protocol.Json.{
  Value, null, boolean, integer, number, string, array, object, other, Items, Fields, to_list,
  values,
}

pub record Limits : Type 0 where
  pub max_depth : ℕ
  pub max_nodes : ℕ
  pub max_collection_length : ℕ

abbrev pub default_limits : Limits
default_limits = record { max_depth = 32; max_nodes = 10_000; max_collection_length = 1000 }

-- What the loop finds in one value: a leaf, the children of a collection, or no JSON at all.
pub data Shape : Type 0 where
  leaf : Shape
  collection : List Value → Shape
  no_json : Shape

unfoldable pub shape : Value → Shape
unfolding to_list values
shape null = leaf
shape (boolean b) = leaf
shape (integer n) = leaf
shape (number t) = leaf
shape (string s) = leaf
shape (array vs) = collection (to_list vs)
shape (object fs) = collection (values fs)
shape other = no_json

-- An entry of the stack `pending`: a value and its depth.
abbrev pub Entry : Type 0
Entry = Value × ℕ

-- for (const child of children) pending.push({ value: child, depth }); the head is the top
unfoldable pub push_all : List Value → ℕ → List Entry → List Entry
push_all [] depth pending = pending
push_all (v ∷ vs) depth pending = push_all vs depth ((v, depth) ∷ pending)

-- What one round makes of the entry that it pops: an error, or the stack to go on with.
unfoldable pub visit : Limits → Entry → List Entry → Result (List Entry)
unfolding shape push_all
visit limits (value, depth) pending =
    if ltb limits.max_depth depth
    then throws (exceeds_depth limits.max_depth)
    else elim (shape value) [
      | leaf ↦ ok pending
      | no_json ↦ throws not_json_compatible
      | collection children ↦
          if ltb limits.max_collection_length (length children)
          then throws (exceeds_entries limits.max_collection_length)
          else ok (push_all children (depth + 1) pending)
    ]

-- The while loop. Every round counts one node, so `max_nodes` rounds and one more are enough:
-- the fuel runs out only where the source has thrown.
unfoldable pub check_pending : Limits → ℕ → List Entry → ℕ → Option (Result (Unit {0}))
unfolding visit
check_pending limits fuel [] nodes = some (ok tt)
check_pending limits zero (e ∷ pending) nodes = none
check_pending limits (suc fuel) (e ∷ pending) nodes =
    if ltb limits.max_nodes (suc nodes)
    then some (throws (exceeds_nodes limits.max_nodes))
    else elim (visit limits e pending) [
      | ok rest ↦ check_pending limits fuel rest (suc nodes)
      | throws m ↦ some (throws m)
    ]

-- A stack entry costs at most the rounds that the loop still has: `max_nodes + 1` in all.
unfoldable pub assert_json_complexity : Limits → Value → Option (Result (Unit {0}))
unfolding check_pending
assert_json_complexity limits value =
    check_pending limits (suc limits.max_nodes) ((value, 0) ∷ []) 0
