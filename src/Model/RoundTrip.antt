-- ===== src/Model/RoundTrip.antt =====
-- diffJsonObjects of packages/model/src/index.ts and applyCanonicalPatches of
-- packages/domain-json/src/index.ts: what the one finds between two states, the other applies.
use collabhub.Prelude.{
  ℕ, zero, suc, Text, ◌≡◌, refl, sym, ◌∙◌, subst, ap, ◌||◌, Option, none, some, List, [], ◌∷◌, ◌++◌,
  map, All, ◌===◌, arith, Bool-cases, inl, inr,
}
use mathlib.Core.List.{append_assoc, append-nil}
use collabhub.Errors.{Message, Result, ok, throws, unwrap, bind-ok}
use collabhub.Protocol.Json.{Value, object, Fields, get}
use collabhub.Protocol.Messages.{Patch, set, remove}
use collabhub.DomainJson.Pointer.{
  split, unescape, tail_of, pointer_segments, is_unsafe_name, set_segments, set_pointer,
}
use collabhub.DomainJson.Patches.{
  assert_safe_canonical_patch, change, apply_canonical_patch, apply_canonical_patches,
}
use collabhub.Model.{escape, escape_pointer, child_path}
use collabhub.Model.Pointers.{path_text, split-path_text, map-unescape}
use collabhub.Model.Diff.{json_equal, count_fields, all_keys, Differ, diff_json_objects}
use collabhub.Model.Plain.{
  plain_keys, plain_unequal, plain_value, plain_objects, FieldsArePlain,
  diff_json_objects-plain_objects,
}
use collabhub.Model.Changes.{Change, Alike, objects, under, change_fields}
use collabhub.Model.Effects.{
  Changer, changes_keys, changes_unequal, changes, keys-Alike, changes-Alike, size-get,
}

-- A change as a patch, behind a path
abbrev to_patch : Text → Change → Patch
to_patch path (ks, some v) = set (path ++ path_text ks) v
to_patch path (ks, none) = remove (path ++ path_text ks)

map-append {ℓ κ} :
    {A : Type ℓ} {B : Type κ} (f : A → B) (xs ys : List A) → map f (xs ++ ys) ≡ map f xs ++ map f ys
map-append f [] ys = refl
map-append f (x ∷ xs) ys = ap (λ zs. f x ∷ zs) (map-append f xs ys)

to_patch-under :
    (path : Text) (k : Text) (cs : List Change)
    → map (to_patch path) (map (under k) cs) ≡ map (to_patch (path ++ b'/' ∷ escape k)) cs
unfolding path_text
to_patch-under path k [] = refl
to_patch-under path k ((ks, some v) ∷ cs) =
    rw (append_assoc path (b'/' ∷ escape k) (path_text ks), to_patch-under path k cs) refl
to_patch-under path k ((ks, none) ∷ cs) =
    rw (append_assoc path (b'/' ∷ escape k) (path_text ks), to_patch-under path k cs) refl

child_path-lem :
    (path k child : Text) → child_path path k ≡ ok child → child ≡ path ++ b'/' ∷ escape k
unfolding child_path escape_pointer
child_path-lem path k child e = elim (Bool-cases (k === [] || is_unsafe_name k)) [
  | inl unsafe ↦ absurd (refused (rw unsafe at e))
  | inr safe ↦ sym (unwrap (rw safe at e))
]
  where
    refused : Path (Result Text) (throws (Message.unsafe_state_key k)) (ok child) → ⊥
    refused h = cc

abbrev Finds : Differ → Changer → Type 0
Finds differ f =
    (path : Text) (b a : Option Value) (ps : List Patch)
    → differ path b a ≡ ok ps
    → ps ≡ map (to_patch path) (f b a)

plain_keys-lem :
    (differ : Differ) (f : Changer)
    → Finds differ f
    → (path : Text) (fs gs : Fields) (ks : List Text) (ps : List Patch)
    → plain_keys differ path fs gs ks ≡ ok ps
    → ps ≡ map (to_patch path) (changes_keys f fs gs ks)
unfolding plain_keys changes_keys
plain_keys-lem differ f finds path fs gs [] ps e = sym (unwrap e)
plain_keys-lem differ f finds path fs gs (k ∷ ks) ps e =
    let child = bind-ok (child_path path k) e in
    let first = bind-ok (differ child.value (get fs k) (get gs k)) child.rest in
    let rest = bind-ok (plain_keys differ path fs gs ks) first.rest in
    sym (unwrap rest.rest)
    ∙ rw
        (
          finds child.value (get fs k) (get gs k) first.value first.first,
          plain_keys-lem differ f finds path fs gs ks rest.value rest.first,
          child_path-lem path k child.value child.first,
          map-append (to_patch path) (map (under k) (f (get fs k) (get gs k)))
              (changes_keys f fs gs ks),
          to_patch-under path k (f (get fs k) (get gs k)),
        )
        refl

plain_unequal-lem :
    (differ : Differ) (f : Changer)
    → Finds differ f
    → Finds (plain_unequal differ) (changes_unequal f)
unfolding plain_unequal changes_unequal path_text
plain_unequal-lem differ f finds path b none ps e = sym (unwrap e) ∙ rw (append-nil path) refl
plain_unequal-lem differ f finds path (some (object fs)) (some (object gs)) ps e =
    plain_keys-lem differ f finds path fs gs (all_keys fs gs) ps e
plain_unequal-lem differ f finds path b (some v) ps e = sym (unwrap e) ∙ rw (append-nil path) refl

plain_value-lem : (fuel : ℕ) → Finds (plain_value fuel) (changes fuel)
unfolding plain_value changes
plain_value-lem zero path b a ps e = sym (unwrap e)
plain_value-lem (suc fuel) path b a ps e = elim (Bool-cases (json_equal b a)) [
  | inl same ↦ rw (same, changes) (sym (unwrap (rw (same, plain_value) at e)))
  | inr other ↦
      rw (other, changes)
        (plain_unequal-lem (plain_value fuel) (changes fuel) (plain_value-lem fuel) path b a ps
          (rw (other, plain_value) at e))
]

-- A path that a patch of the diff may have: pointers read it.
abbrev pub IsReadable : Patch → Type 0
IsReadable (set path v) = (segments : List Text) × (pointer_segments path ≡ ok segments)
IsReadable (remove path) = (segments : List Text) × (pointer_segments path ≡ ok segments)
IsReadable _ = Unit

pointer_segments-lem :
    (path : Text) (segments : List Text)
    → pointer_segments path ≡ ok segments
    → segments ≡ map unescape (tail_of (split path))
unfolding pointer_segments
pointer_segments-lem path segments e = ground arith

read_back :
    (ks segments : List Text)
    → pointer_segments (path_text ks) ≡ ok segments
    → pointer_segments (path_text ks) ≡ ok ks
read_back ks segments e =
    e
    ∙ ap (λ s. ok s)
        (pointer_segments-lem (path_text ks) segments e
          ∙ ap (λ parts. map unescape (tail_of parts)) (split-path_text ks)
          ∙ map-unescape ks)

apply-to_patch :
    (fs : Fields) (c : Change)
    → IsReadable (to_patch [] c)
    → apply_canonical_patch fs (to_patch [] c) ≡ ok (set_segments c.0 c.1 fs)
unfolding apply_canonical_patch assert_safe_canonical_patch change set_pointer
apply-to_patch fs (ks, some v) h = rw (read_back ks h.0 h.1) refl
apply-to_patch fs (ks, none) h = rw (read_back ks h.0 h.1) refl

apply-to_patches :
    (fs : Fields) (cs : List Change)
    → All IsReadable (map (to_patch []) cs)
    → apply_canonical_patches fs (map (to_patch []) cs) ≡ ok (change_fields fs cs)
unfolding apply_canonical_patches change_fields
apply-to_patches fs [] h = refl
apply-to_patches fs (c ∷ cs) h =
    rw (apply-to_patch fs c h.0) (apply-to_patches (set_segments c.0 c.1 fs) cs h.1)

plain_objects-apply :
    (before after : Fields) (patches : List Patch)
    → plain_objects before after ≡ ok patches
    → All IsReadable patches
    → (next : Fields) × (apply_canonical_patches before patches ≡ ok next)
      × Alike (some (object next)) (some (object after))
unfolding plain_objects
plain_objects-apply before after patches e readable =
    let fuel = suc (count_fields after) in
    let cs = changes_keys (changes fuel) before after (all_keys before after) in
    let found =
      plain_keys-lem (plain_value fuel) (changes fuel) (plain_value-lem fuel) [] before after
        (all_keys before after) patches e in
    (
      change_fields before cs,
      ap (apply_canonical_patches before) found
          ∙ apply-to_patches before cs (subst (All IsReadable) found readable),
      objects (
          keys-Alike (changes fuel) before after
            λ k. changes-Alike fuel (get before k) (get after k) (omega (arith, size-get after k))),
    )

-- The patches that the diff finds between two states that hold nothing but JSON, under names that no object
-- inherits, apply to the first, where their paths are pointers that can be read, and lead to a state that
-- equals the second up to the order in which objects list their fields.
pub diff_json_objects-apply :
    (foreign : Differ) (before after : Fields) (patches : List Patch)
    → FieldsArePlain before
    → FieldsArePlain after
    → diff_json_objects foreign before after ≡ ok patches
    → All IsReadable patches
    → (next : Fields) × (apply_canonical_patches before patches ≡ ok next)
      × Alike (some (object next)) (some (object after))
diff_json_objects-apply foreign before after patches pb pa e =
    plain_objects-apply before after patches
      (sym (diff_json_objects-plain_objects foreign before after pb pa) ∙ e)
