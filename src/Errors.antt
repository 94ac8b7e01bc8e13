-- ===== src/Errors.antt =====
-- What the code throws, and what a function that may throw returns.
use collabhub.Prelude.{ℕ, Text, ◌≡◌, refl, subst, ap, ◌⊎◌, inl, inr}

-- One constructor for each message of the packages, with the values that the template text shows.
pub data Message : Type 0 where
  text : Text → Message
  not_an_object : Message
  not_a_non_empty_string not_at_most_256 : Text → Message
  bad_base_version payload_required : Message
  exceeds_nodes exceeds_depth exceeds_entries : ℕ → Message
  not_json_compatible : Message
  empty_migration_version : Message
  migration_targets_itself multiple_migrations migration_cycle : Text → Message
  no_migration non_object_state : Text → Text → Message
  unbounded_pointer bad_pointer_depth unsafe_segment : Message
  unsafe_collection unbounded_entity_id : Message
  not_a_list : Text → Message
  schema_not_supported : Text → Message
  version_ahead : ℕ → ℕ → Message
  outside_history : Message
  strategy_unsupported : (id version operation_type : Text) → Message
  invariant_failed : (id verdict : Text) → Message
  another_document : Message
  mixed_schemas : Text → Text → Message
  not_positive : Text → Message
  -- the engine's own TypeError, where code reads a property of undefined or null
  type_error : Message
  property_set_requires_value unsafe_entity transaction_requires_patches patch_not_object : Message
  entity_missing entity_exists requires_value : Text → Message
  expected_version : (current received : ℕ) → Message
  unsafe_state_key : Text → Message
  command_type_required state_not_object command_required : Message
  state_required : Text → Message
  command_based_on : Text → (submitted current : ℕ) → Message
  document_missing snapshot_pointer_invalid not_created : Message
  -- the database's own error for a second row of one key
  unique_violation : Message
  fingerprint_reused : Message
  ownership_changed : Message
  changed_during_migration : (version : ℕ) (schema_version : Text) → Message
  context_required : Message
  not_bound : Text → Message

pub data Result {ℓ} (A : Type ℓ) : Type ℓ where
  ok : A → Result A
  throws : Message → Result A

infixl 5 ◌>>=◌ ◌>>◌
abbrev pub ◌>>=◌ {ℓ κ} : {A : Type ℓ} {B : Type κ} → Result A → (A → Result B) → Result B
ok a >>= f = f a
throws e >>= f = throws e

abbrev pub ◌>>◌ {ℓ κ} : {A : Type ℓ} {B : Type κ} → Result A → Result B → Result B
m >> k = m >>= λ _. k

-- A bind that succeeds went through a value of its first part.
pub bind-ok {ℓ κ} :
    {A : Type ℓ} {B : Type κ} {k : A → Result B} {b : B} (r : Result A)
    → (r >>= k) ≡ ok b
    → record { value : A; rest : k value ≡ ok b; first : r ≡ ok value }
bind-ok (throws e) h = cc
bind-ok (ok v) h = record { value = v; rest = h; first = refl }

-- What holds of the result, if there is one.
abbrev pub Ensures {ℓ κ} : {A : Type ℓ} → (A → Type κ) → Result A → Type κ
Ensures P (ok a) = P a
Ensures P (throws e) = Unit

pub Ensures-bind {ℓ κ μ} :
    {A : Type ℓ} {B : Type κ} (P : B → Type μ) (m : Result A) (f : A → Result B)
    → ((a : A) → m ≡ ok a → Ensures P (f a))
    → Ensures P (m >>= f)
Ensures-bind P (ok a) f h = h a refl
Ensures-bind P (throws e) f h = tt

pub Ensures-ok {ℓ κ} :
    {A : Type ℓ} (P : A → Type κ) (r : Result A) (a : A) → r ≡ ok a → Ensures P r → P a
Ensures-ok P r a e h = subst (Ensures P) e h

pub Result-cases {ℓ} :
    {A : Type ℓ} (r : Result A) → ((a : A) × (r ≡ ok a)) ⊎ ((e : Message) × (r ≡ throws e))
Result-cases (ok a) = inl (a, refl)
Result-cases (throws e) = inr (e, refl)

pub unwrap {ℓ} : {A : Type ℓ} {a b : A} → ok a ≡ ok b → a ≡ b
unwrap {A = A} {a = a} e = ap (λ r. value_of r) e
  where
    value_of : Result A → A
    value_of (ok x) = x
    value_of (throws m) = a
