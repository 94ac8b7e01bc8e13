-- ===== src/Distributed/Store/Runs.antt =====
-- Logs whose versions follow one another without a gap, as the store of
-- packages/server-distributed/src/postgres-store.ts keeps them.
use collabhub.Prelude.{
  ℕ, suc, ◌≤◌, ◌<◌, ◌≡◌, refl, Bool, true, false, some, List, [], ◌∷◌, ◌++◌, ltb, leb, find, any,
  keep, ap, gt→leb, le→leb, All, All-map, insert_by, subst, ltb→lt, lt→ltb, ltb→le, sort_by, arith,
  Bool-cases, inl, inr,
}
use collabhub.Errors.{Result, ok, throws, ◌>>=◌}
use collabhub.Protocol.Json.{Fields}
use collabhub.DomainJson.Patches.{apply_canonical_patches}
use collabhub.Distributed.Rows.{WalRow}
use collabhub.Distributed.Store.{is_newer, apply_wal}

some_is_none : true ≡ false → ⊥
some_is_none h = cc

module _ {ℓ} {A : Type ℓ} where
  pub keep-append : (p : A → Bool) (xs ys : List A) → keep p (xs ++ ys) ≡ keep p xs ++ keep p ys
  unfolding keep
  keep-append p [] ys = refl
  keep-append p (x ∷ xs) ys = ground (arith, keep-append p xs ys)

  pub keep-All : (p : A → Bool) (xs : List A) → All (λ x. p x ≡ true) xs → keep p xs ≡ xs
  unfolding keep
  keep-All p [] h = refl
  keep-All p (x ∷ xs) h = rw (h.0, keep-All p xs h.1) refl

  pub keep-none : (p : A → Bool) (xs : List A) → All (λ x. p x ≡ false) xs → keep p xs ≡ []
  unfolding keep
  keep-none p [] h = refl
  keep-none p (x ∷ xs) h = rw (h.0, keep-none p xs h.1) refl

  pub find-append :
      (p : A → Bool) (xs ys : List A) (x : A) → find p xs ≡ some x → find p (xs ++ ys) ≡ some x
  unfolding find
  find-append p [] ys x h = cc
  find-append p (y ∷ xs) ys x h = elim (Bool-cases (p y)) [
    | inl e ↦ rw e (rw e at h)
    | inr e ↦ rw e (find-append p xs ys x (rw e at h))
  ]

  pub find-append_last :
      (p : A → Bool) (xs : List A) (x : A)
      → any p xs ≡ false
      → p x ≡ true
      → find p (xs ++ x ∷ []) ≡ some x
  unfolding find any
  find-append_last p [] x h e = rw e refl
  find-append_last p (y ∷ xs) x h e = elim (Bool-cases (p y)) [
    | inl f ↦ absurd (some_is_none (rw f at h))
    | inr f ↦ rw f (find-append_last p xs x (rw f at h) e)
  ]

  pub any-find : (p : A → Bool) (xs : List A) → any p xs ≡ true → (x : A) × (find p xs ≡ some x)
  unfolding find any
  any-find p [] h = cc
  any-find p (y ∷ xs) h = elim (Bool-cases (p y)) [
    | inl e ↦ (y, rw e refl)
    | inr e ↦ let rest = any-find p xs (rw e at h) in (rest.0, rw e rest.1)
  ]

  pub keep-keep :
      (p q : A → Bool) (xs : List A)
      → ((x : A) → p x ≡ true → q x ≡ true)
      → keep p (keep q xs) ≡ keep p xs
  unfolding keep
  keep-keep p q [] h = refl
  keep-keep p q (x ∷ xs) h = ground (arith, keep-keep p q xs h, h x)

  pub find-keep :
      (p q : A → Bool) (xs : List A)
      → ((x : A) → p x ≡ true → q x ≡ true)
      → find p (keep q xs) ≡ find p xs
  unfolding find keep
  find-keep p q [] h = refl
  find-keep p q (x ∷ xs) h = ground (arith, find-keep p q xs h, h x)

-- The versions base + 1 to last, one after the other
abbrev pub IsRun : ℕ → List WalRow → ℕ → Type 0
IsRun base [] last = base ≡ last
IsRun base (r ∷ rs) last = (r.version ≡ suc base) × IsRun (suc base) rs last

pub IsRun-le : (base : ℕ) (rs : List WalRow) (last : ℕ) → IsRun base rs last → base ≤ last
IsRun-le base [] last h = omega arith
IsRun-le base (r ∷ rs) last h = omega (arith, IsRun-le (suc base) rs last h.1)

pub IsRun-append :
    (base : ℕ) (rs : List WalRow) (last : ℕ) (r : WalRow)
    → IsRun base rs last
    → r.version ≡ suc last
    → IsRun base (rs ++ r ∷ []) (suc last)
IsRun-append base [] last r h e = (omega arith, omega arith)
IsRun-append base (q ∷ rs) last r h e = (h.0, IsRun-append (suc base) rs last r h.1 e)

pub IsRun-All :
    (base : ℕ) (rs : List WalRow) (last : ℕ)
    → IsRun base rs last
    → All (λ (r : WalRow). (base < r.version) × (r.version ≤ last)) rs
IsRun-All base [] last h = tt
IsRun-All base (r ∷ rs) last h =
    let later = IsRun-le (suc base) rs last h.1 in
    (
      (omega arith, omega arith),
      All-map (λ x within. (omega arith, within.1)) rs (IsRun-All (suc base) rs last h.1),
    )

insert_by-first :
    (base : ℕ) (r : WalRow) (rs : List WalRow) (last : ℕ)
    → IsRun base (r ∷ rs) last
    → insert_by (λ (q : WalRow). q.version) r rs ≡ r ∷ rs
unfolding insert_by
insert_by-first base r [] last h = refl
insert_by-first base r (q ∷ rs) last h = ground arith

-- A run is in order.
pub IsRun-sorted :
    (base : ℕ) (rs : List WalRow) (last : ℕ)
    → IsRun base rs last
    → sort_by (λ (r : WalRow). r.version) rs ≡ rs
unfolding sort_by
IsRun-sorted base [] last h = refl
IsRun-sorted base (r ∷ rs) last h =
    rw (IsRun-sorted (suc base) rs last h.1) (insert_by-first base r rs last h)

pub run-above :
    (base : ℕ) (rs : List WalRow) (last v : ℕ)
    → IsRun base rs last
    → v ≤ base
    → keep (is_newer v) rs ≡ rs
run-above base rs last v h le =
    keep-All (is_newer v) rs
      (All-map (λ r within. lt→ltb v r.version (omega arith)) rs (IsRun-All base rs last h))

abbrev pub is_upto : ℕ → WalRow → Bool
is_upto v r = leb r.version v

none-upto :
    (base : ℕ) (rs : List WalRow) (last v : ℕ)
    → IsRun base rs last
    → v ≤ base
    → keep (is_upto v) rs ≡ []
none-upto base rs last v h le =
    keep-none (is_upto v) rs
      (All-map (λ r within. gt→leb r.version v (omega arith)) rs (IsRun-All base rs last h))

-- What is above a version of the run is a run from there.
pub IsRun-newer :
    (base : ℕ) (rs : List WalRow) (last v : ℕ)
    → IsRun base rs last
    → base ≤ v
    → v ≤ last
    → IsRun v (keep (is_newer v) rs) last
unfolding keep
IsRun-newer base [] last v h lo hi = omega arith
IsRun-newer base (r ∷ rs) last v h lo hi = elim (Bool-cases (ltb v r.version)) [
  | inl newer ↦
      let same : base ≡ v = omega (arith, ltb→lt v r.version newer) in
      rw newer (
        subst (λ b. r.version ≡ suc b) same h.0,
        rw (run-above (suc base) rs last v h.1 (omega arith))
            (subst (λ b. IsRun (suc b) rs last) same h.1),
      )
  | inr older ↦
      rw older (IsRun-newer (suc base) rs last v h.1 (omega (arith, ltb→le v r.version older)) hi)
]

pub run-empty : (v : ℕ) (rs : List WalRow) → IsRun v rs v → rs ≡ []
run-empty v [] h = refl
run-empty v (r ∷ rs) h = absurd (omega (arith, IsRun-le (suc v) rs v h.1))

-- A run is what it holds up to a version, and then the rest.
pub run-split :
    (base : ℕ) (rs : List WalRow) (last v : ℕ)
    → IsRun base rs last
    → rs ≡ keep (is_upto v) rs ++ keep (is_newer v) rs
unfolding keep
run-split base [] last v h = refl
run-split base (r ∷ rs) last v h = elim (Bool-cases (ltb v r.version)) [
  | inl newer ↦
      let above : v ≤ base = omega (arith, ltb→lt v r.version newer) in
      rw
        (
          newer,
          gt→leb r.version v (ltb→lt v r.version newer),
          none-upto (suc base) rs last v h.1 (omega arith),
          run-above (suc base) rs last v h.1 (omega arith),
        )
        refl
  | inr older ↦
      rw (older, le→leb r.version v (ltb→le v r.version older))
        (ap (◌∷◌ r) (run-split (suc base) rs last v h.1))
]

pub apply_wal-append :
    (s : Fields) (xs ys : List WalRow)
    → apply_wal s (xs ++ ys) ≡ (apply_wal s xs >>= λ t. apply_wal t ys)
unfolding apply_wal
apply_wal-append s [] ys = refl
apply_wal-append s (x ∷ xs) ys =
    next (apply_canonical_patches s x.patches) λ t. apply_wal-append t xs ys
  where
    next :
        (r : Result Fields)
        → ((t : Fields) → apply_wal t (xs ++ ys) ≡ (apply_wal t xs >>= λ u. apply_wal u ys))
        → (r >>= λ t. apply_wal t (xs ++ ys))
          ≡ ((r >>= λ t. apply_wal t xs) >>= λ u. apply_wal u ys)
    next (ok t) rest = rest t
    next (throws m) rest = refl
