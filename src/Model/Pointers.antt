-- ===== src/Model/Pointers.antt =====
-- The paths that packages/model/src/index.ts writes, as packages/domain-json/src/index.ts reads them.
use collabhub.Prelude.{
  ℕ, ◌≤◌, Text, ◌≡◌, refl, sym, ◌∙◌, ap, true, false, not, ◌||◌, List, [], ◌∷◌, ◌++◌, map, length,
  any, All, le→ltb, ◌==◌, ==_iff, ◌===◌, arith, Bool-cases, inl, inr,
}
use mathlib.Core.List.{append_assoc, append-nil}
use collabhub.Errors.{ok, ◌>>=◌, Ensures}
use collabhub.DomainJson.Pointer.{
  split, replace_all, unescape, pointer_segments, is_safe_property_name, is_unsafe_name,
}
use collabhub.Model.{replace_char, escape, escape_pointer, child_path, path_from}

replace_all-other :
    (a b by c : ℕ) (s : Text)
    → c == a ≡ false
    → replace_all a b by (c ∷ s) ≡ c ∷ replace_all a b by s
unfolding replace_all
replace_all-other a b by c [] h = refl
replace_all-other a b by c (d ∷ s) h = rw (h, replace_all) refl

-- Tildes alone, escaped and read back
replace_all-tildes :
    (s : Text) → replace_all b'~' b'0' b'~' (replace_char b'~' (b'~' ∷ b'0' ∷ []) s) ≡ s
unfolding replace_char replace_all
replace_all-tildes [] = refl
replace_all-tildes (c ∷ s) = elim (Bool-cases (c == b'~')) [
  | inl e ↦ rw (e, replace_all-tildes s) (ap (λ x. x ∷ s) (sym ((==_iff c b'~').0 e)))
  | inr e ↦ rw (e, replace_all-other b'~' b'0' b'~' c _ e, replace_all-tildes s) refl
]

module _ (c : ℕ) (s : Text) where
  escape-tilde : c == b'~' ≡ true → escape (c ∷ s) ≡ b'~' ∷ b'0' ∷ escape s
  unfolding escape replace_char
  escape-tilde e = rw e refl

  escape-slash : c == b'/' ≡ true → escape (c ∷ s) ≡ b'~' ∷ b'1' ∷ escape s
  unfolding escape replace_char
  escape-slash e = rw (not_tilde, e) refl
    where
      not_tilde : c == b'~' ≡ false
      not_tilde = rw ((==_iff c b'/').0 e) refl

  escape-other : c == b'~' ≡ false → c == b'/' ≡ false → escape (c ∷ s) ≡ c ∷ escape s
  unfolding escape replace_char
  escape-other e f = rw (e, f) refl

replace_all-slashes :
    (s : Text) → replace_all b'~' b'1' b'/' (escape s) ≡ replace_char b'~' (b'~' ∷ b'0' ∷ []) s
unfolding replace_char replace_all escape
replace_all-slashes [] = refl
replace_all-slashes (c ∷ s) = elim (Bool-cases (c == b'~')) [
  | inl e ↦
      rw
        (
          escape-tilde c s e,
          e,
          replace_all-other b'~' b'1' b'/' b'0' (escape s) refl,
          replace_all-slashes s,
        )
        refl
  | inr e ↦ elim (Bool-cases (c == b'/')) [
    | inl f ↦
        rw (escape-slash c s f, e, replace_all-slashes s)
          (ap (λ x. x ∷ replace_char b'~' (b'~' ∷ b'0' ∷ []) s) (sym ((==_iff c b'/').0 f)))
    | inr f ↦
        rw
          (
            escape-other c s e f,
            e,
            replace_all-other b'~' b'1' b'/' c (escape s) e,
            replace_all-slashes s,
          )
          refl
  ]
]

pub unescape-escape : (s : Text) → unescape (escape s) ≡ s
unfolding unescape
unescape-escape s = rw (replace_all-slashes s) (replace_all-tildes s)

-- No slash in a text
abbrev IsPart : Text → Type 0
IsPart = All (λ c. c == b'/' ≡ false)

escape-IsPart : (s : Text) → IsPart (escape s)
unfolding escape replace_char
escape-IsPart [] = tt
escape-IsPart (c ∷ s) = elim (Bool-cases (c == b'~')) [
  | inl e ↦ rw (escape-tilde c s e) (refl, (refl, escape-IsPart s))
  | inr e ↦ elim (Bool-cases (c == b'/')) [
    | inl f ↦ rw (escape-slash c s f) (refl, (refl, escape-IsPart s))
    | inr f ↦ rw (escape-other c s e f) (f, escape-IsPart s)
  ]
]

split-append :
    (s t : Text) (rest : List Text) → IsPart s → split t ≡ [] ∷ rest → split (s ++ t) ≡ s ∷ rest
unfolding split
split-append [] t rest h e = e
split-append (c ∷ s) t rest h e = rw (split-append s t rest h.1 e, h.0) refl

-- The path behind some keys
unfoldable pub path_text : List Text → Text
path_text [] = []
path_text (k ∷ ks) = b'/' ∷ escape k ++ path_text ks

pub split-path_text : (ks : List Text) → split (path_text ks) ≡ [] ∷ map escape ks
unfolding path_text split
split-path_text [] = refl
split-path_text (k ∷ ks) =
    rw
      (
        split-append (escape k) (path_text ks) (map escape ks) (escape-IsPart k)
            (split-path_text ks),
        split,
      )
      refl

pub map-unescape : (ks : List Text) → map unescape (map escape ks) ≡ ks
map-unescape [] = refl
map-unescape (k ∷ ks) = rw (unescape-escape k, map-unescape ks) refl

abbrev pub AreSafe : List Text → Type 0
AreSafe = All (λ k. is_safe_property_name k ≡ true)

is_safe_property_name-named :
    (k : Text) → is_safe_property_name k ≡ true → (k === [] || is_unsafe_name k) ≡ false
unfolding is_safe_property_name ◌===◌
is_safe_property_name-named [] h = ground arith
is_safe_property_name-named (c ∷ s) h = ground arith

escape_pointer-safe : (k : Text) → is_safe_property_name k ≡ true → escape_pointer k ≡ ok (escape k)
unfolding escape_pointer
escape_pointer-safe k h = rw (is_safe_property_name-named k h) refl

path_from-safe :
    (path : Text) (ks : List Text) → AreSafe ks → path_from path ks ≡ ok (path ++ path_text ks)
unfolding path_from child_path path_text
path_from-safe path [] h = ap (λ t. ok t) (sym (append-nil path))
path_from-safe path (k ∷ ks) h = rw (escape_pointer-safe k h.0) (
    path_from-safe (path ++ b'/' ∷ escape k) ks h.1
    ∙ ap (λ t. ok t) (append_assoc path (b'/' ∷ escape k) (path_text ks)))

none_unsafe : (ks : List Text) → AreSafe ks → any (λ s. not (is_safe_property_name s)) ks ≡ false
unfolding any
none_unsafe [] h = refl
none_unsafe (k ∷ ks) h = rw (h.0, none_unsafe ks h.1) refl

pointer_segments-path_text :
    (k : Text) (ks : List Text)
    → AreSafe (k ∷ ks)
    → length (k ∷ ks) ≤ 64
    → length (path_text (k ∷ ks)) ≤ 4096
    → pointer_segments (path_text (k ∷ ks)) ≡ ok (k ∷ ks)
unfolding pointer_segments path_text
pointer_segments-path_text k ks safe few fits =
    rw
      (
        le→ltb 4096 (length (path_text (k ∷ ks))) fits,
        split-path_text (k ∷ ks),
        unescape-escape k,
        map-unescape ks,
        some_segment,
        le→ltb 64 (length (k ∷ ks)) few,
        none_unsafe (k ∷ ks) safe,
      )
      refl
  where
    some_segment : length (k ∷ ks) == 0 ≡ false
    some_segment = ground arith

-- The path that is written behind keys that pointers allow, at most 64 of them and in at most 4096
-- characters, is read as those keys.
pub pointer_segments-path_from :
    (k : Text) (ks : List Text)
    → AreSafe (k ∷ ks)
    → length (k ∷ ks) ≤ 64
    → Ensures (λ path. length path ≤ 4096) (path_from [] (k ∷ ks))
    → (path_from [] (k ∷ ks) >>= pointer_segments) ≡ ok (k ∷ ks)
pointer_segments-path_from k ks safe few short =
    rw (path_from-safe [] (k ∷ ks) safe)
      (pointer_segments-path_text k ks safe few (rw (path_from-safe [] (k ∷ ks) safe) at short))
