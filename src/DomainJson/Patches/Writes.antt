-- ===== src/DomainJson/Patches/Writes.antt =====
-- What a `set` or a `remove` patch of packages/domain-json/src/index.ts does to a document.
use collabhub.Prelude.{
  Text, ◌≡◌, ◌≢◌, Option, none, some, List, [], ◌∷◌, refl, ===-refl, ===-eq_false, arith,
}
use collabhub.Errors.{ok, Ensures, Ensures-bind, Ensures-ok}
use collabhub.Protocol.Json.{Value, object, Fields, end, get, put, delete, get-put, get-delete}
use collabhub.Protocol.Messages.{set, remove}
use collabhub.DomainJson.Pointer.{pointer_segments, child_object, set_segments, set_pointer}
use collabhub.DomainJson.Patches.{assert_safe_canonical_patch, apply_canonical_patch}

-- What a write goes into at a key: the object there, or an empty one where there is no object.
pub data Entered : Option Value → Fields → Type 0 where
  existing : (fs : Fields) → Entered (some (object fs)) fs
  fresh : {o : Option Value} → ((fs : Fields) → ¬ (o ≡ some (object fs))) → Entered o end

-- A write at a path of keys, from one object to the next: the last key has the value, or is gone; each
-- other key on the path has an object, written to in turn. In each of the objects all keys off the path
-- stand as before, whatever their values.
pub data Wrote (value : Option Value) : List Text → Fields → Fields → Type 0 where
  at_last :
      {k : Text} {before after : Fields}
      → get after k ≡ value
      → ((other : Text) → k ≢ other → get after other ≡ get before other)
      → Wrote value (k ∷ []) before after
  inside :
      {k : Text} {ks : List Text} {before after entered next : Fields}
      → Entered (get before k) entered
      → get after k ≡ some (object next)
      → ((other : Text) → k ≢ other → get after other ≡ get before other)
      → Wrote value ks entered next
      → Wrote value (k ∷ ks) before after

-- The document after a write at a pointer
pub record Written (before after : Fields) (path : Text) (value : Option Value) : Type 0 where
  pub segments : List Text
  pub parsed : pointer_segments path ≡ ok segments
  pub wrote : Wrote value segments before after

child_object-Entered : (o : Option Value) → Entered o (child_object o)
unfolding child_object
child_object-Entered (some (object fs)) = existing fs
child_object-Entered none = fresh λ fs e. cc
child_object-Entered (some v) = fresh λ fs e. cc

set_segments-Wrote :
    (value : Option Value) (k : Text) (ks : List Text) (fs : Fields)
    → Wrote value (k ∷ ks) fs (set_segments (k ∷ ks) value fs)
unfolding set_segments
set_segments-Wrote (some v) k [] fs =
    at_last {before = fs} {after = put fs k v} (rw (get-put, ===-refl) refl)
      (λ other h. rw (get-put, ===-eq_false k other h) refl)
set_segments-Wrote none k [] fs =
    at_last {before = fs} {after = delete fs k} (rw (get-delete, ===-refl) refl)
      (λ other h. rw (get-delete, ===-eq_false k other h) refl)
set_segments-Wrote value k (j ∷ ks) fs =
    inside {before = fs}
      {after = put fs k (object (set_segments (j ∷ ks) value (child_object (get fs k))))}
      (child_object-Entered (get fs k)) (rw (get-put, ===-refl) refl)
      (λ other h. rw (get-put, ===-eq_false k other h) refl)
      (set_segments-Wrote value j ks (child_object (get fs k)))

pointer_segments-ne-nil : (path : Text) → pointer_segments path ≢ ok []
unfolding pointer_segments
pointer_segments-ne-nil path h = ground arith

set_segments-Written :
    (before : Fields) (path : Text) (value : Option Value) (segments : List Text)
    → pointer_segments path ≡ ok segments
    → Written before (set_segments segments value before) path value
set_segments-Written before path value [] e = absurd (pointer_segments-ne-nil path e)
set_segments-Written before path value (k ∷ ks) e = record {
  segments = k ∷ ks;
  parsed = e;
  wrote = set_segments-Wrote value k ks before;
}

set_pointer-Written :
    (before : Fields) (path : Text) (value : Option Value)
    → Ensures (λ after. Written before after path value) (set_pointer before path value)
unfolding set_pointer
set_pointer-Written before path value =
    Ensures-bind (λ after. Written before after path value) (pointer_segments path) _
      (set_segments-Written before path value)

-- A `set` patch that applies puts its value at the last key of its path. In each object on the way all
-- other keys stand as before; what is no object on the way, a list among others, gives way to an object
-- with the next key of the path alone.
pub apply_canonical_patch-set :
    (before after : Fields) (path : Text) (value : Value)
    → apply_canonical_patch before (set path value) ≡ ok after
    → Written before after path (some value)
unfolding apply_canonical_patch
apply_canonical_patch-set before after path value h =
    Ensures-ok (λ s. Written before s path (some value)) _ after h
      (Ensures-bind (λ s. Written before s path (some value))
        (assert_safe_canonical_patch (set path value)) _
        λ u e. set_pointer-Written before path (some value))

-- A `remove` patch that applies leaves nothing at the last key of its path. In each object on the way all
-- other keys stand as before; what is no object on the way, a list among others, gives way to an object
-- with nothing off the path.
pub apply_canonical_patch-remove :
    (before after : Fields) (path : Text)
    → apply_canonical_patch before (remove path) ≡ ok after
    → Written before after path none
unfolding apply_canonical_patch
apply_canonical_patch-remove before after path h =
    Ensures-ok (λ s. Written before s path none) _ after h
      (Ensures-bind (λ s. Written before s path none) (assert_safe_canonical_patch (remove path)) _
        λ u e. set_pointer-Written before path none)
