-- ===== src/Model.antt =====
-- packages/model/src/index.ts: escapePointer, and how a path grows by a key on the way into a state.
pub mod Pointers
pub mod Diff
pub mod Plain
pub mod Changes
pub mod Keys
pub mod Effects
pub mod RoundTrip
pub mod Returns
pub mod Commands
use collabhub.Prelude.{
  ℕ, Text, text, Bool, true, false, ◌||◌, List, [], ◌∷◌, ◌++◌, ◌==◌, ◌===◌, if◌then◌else◌,
}
use collabhub.Errors.{Message, Result, ok, throws, ◌>>=◌, unsafe_state_key}
use collabhub.DomainJson.Pointer.{is_unsafe_name}

-- value.replaceAll(of one character, by a text)
unfoldable pub replace_char : ℕ → Text → Text → Text
replace_char c by [] = []
replace_char c by (x ∷ s) = if x == c then by ++ replace_char c by s else x ∷ replace_char c by s

unfoldable pub escape : Text → Text
escape value = replace_char b'/' (b'~' ∷ b'1' ∷ []) (replace_char b'~' (b'~' ∷ b'0' ∷ []) value)

-- escapePointer
unfoldable pub escape_pointer : Text → Result Text
escape_pointer value =
    if value === [] || is_unsafe_name value
    then throws (unsafe_state_key value)
    else ok (escape value)

-- `${path}/${escapePointer(key)}`
unfoldable pub child_path : Text → Text → Result Text
child_path path key = do escaped ← escape_pointer key; ok (path ++ b'/' ∷ escaped)

-- The path that diffValue is called with behind some keys
unfoldable pub path_from : Text → List Text → Result Text
path_from path [] = ok path
path_from path (key ∷ keys) = do child ← child_path path key; path_from child keys
