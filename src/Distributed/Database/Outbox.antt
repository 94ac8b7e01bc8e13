-- ===== src/Distributed/Database/Outbox.antt =====
-- The outbox of packages/server-distributed/src/postgres-store.ts: what a claim takes and what it leaves.
use mathlib.Core.Logic.Or
use mathlib.Core.List.{Mem, Perm, mem-cons, not-mem-nil, mem-cons_self, mem-cons_of_mem}
use mathlib.Core.List.Perm
use collabhub.Prelude.{
  subst, ℕ, zero, suc, ◌+◌, ◌≤◌, ◌<◌, Text, ◌≡◌, refl, sym, ◌∙◌, ap, true, false, List, [], ◌∷◌,
  map, ltb, ◌==◌, ==_iff, keep, take, take-zero, drop, drop-zero, All, All-map, arith, Bool-cases,
  inl, inr,
}
use collabhub.Distributed.Rows.{OutboxRow}
use collabhub.Distributed.Database.{is_claimable, lock_ms, locked_row, claim_rows, delivered_row}

-- The ids grow from the first row on, the first being a number at least.
abbrev pub IsNumbered : ℕ → List OutboxRow → Type 0
IsNumbered n [] = Unit
IsNumbered n (r ∷ rs) = (n ≤ r.id) × IsNumbered (suc r.id) rs

-- No row that may be claimed has the id.
abbrev pub IsSettled : ℕ → ℕ → List OutboxRow → Type 0
IsSettled now id = All (λ (r : OutboxRow). is_claimable now r ≡ true → ¬ (r.id ≡ id))

IsSettled-prop : (now id : ℕ) (rs : List OutboxRow) → IsProp (IsSettled now id rs)
IsSettled-prop now id [] = hlevel
IsSettled-prop now id (r ∷ rs) = hlevel (IsSettled-prop now id rs)

module _ (P : OutboxRow → Type 0) where
  All-Mem :
      ((r : OutboxRow) → IsProp (P r))
      → (rs : List OutboxRow) (r : OutboxRow) → All P rs
      → Mem r rs
      → P r
  All-Mem prop [] r h m = absurd (not-mem-nil m)
  All-Mem prop (x ∷ rs) r h m =
      Or.elim (prop r) (mem-cons.0 m) (λ e. subst P (sym e) h.0) (All-Mem prop rs r h.1)

  Mem-All : (rs : List OutboxRow) → ((r : OutboxRow) → Mem r rs → P r) → All P rs
  Mem-All [] h = tt
  Mem-All (r ∷ rs) h = (h r mem-cons_self, Mem-All rs (λ x m. h x (mem-cons_of_mem r m)))

-- What is settled of some rows is so in any order of them.
pub IsSettled-Perm :
    (now : ℕ) (rows : List OutboxRow) {cs ds : List OutboxRow}
    → Perm cs ds
    → All (λ (c : OutboxRow). IsSettled now c.id rows) cs
    → All (λ (c : OutboxRow). IsSettled now c.id rows) ds
IsSettled-Perm now rows {cs = cs} {ds = ds} p h =
    Mem-All (λ c. IsSettled now c.id rows) ds
      (λ c m.
        All-Mem (λ c. IsSettled now c.id rows) (λ c. IsSettled-prop now c.id rows) cs c h
          ((Perm.mem_iff p).1 m))

pub IsNumbered-above :
    (m n : ℕ) (rs : List OutboxRow) → m < n → IsNumbered n rs → All (λ (r : OutboxRow). m < r.id) rs
IsNumbered-above m n [] lt h = tt
IsNumbered-above m n (r ∷ rs) lt h =
    (omega (arith, h.0), IsNumbered-above m (suc r.id) rs (omega (arith, h.0)) h.1)

pub delivered_row-IsNumbered :
    (now id n : ℕ) (rs : List OutboxRow)
    → IsNumbered n rs
    → IsNumbered n (map (delivered_row now id) rs)
delivered_row-IsNumbered now id n [] h = tt
delivered_row-IsNumbered now id n (r ∷ rs) h = elim (Bool-cases (r.id == id)) [
  | inl e ↦ rw e (h.0, delivered_row-IsNumbered now id (suc r.id) rs h.1)
  | inr e ↦ rw e (h.0, delivered_row-IsNumbered now id (suc r.id) rs h.1)
]

-- Marking a row that may not be claimed leaves those that may.
pub keep-delivered_row :
    (now id : ℕ) (rs : List OutboxRow)
    → IsSettled now id rs
    → keep (is_claimable now) (map (delivered_row now id) rs) ≡ keep (is_claimable now) rs
unfolding keep is_claimable
keep-delivered_row now id [] h = refl
keep-delivered_row now id (r ∷ rs) h = elim (Bool-cases (r.id == id)) [
  | inr other ↦ rw (other, keep-delivered_row now id rs h.1) refl
  | inl same ↦ elim (Bool-cases (is_claimable now r)) [
    | inl free ↦ absurd (h.0 free ((==_iff r.id id).0 same))
    | inr held ↦ rw (same, held, keep-delivered_row now id rs h.1) refl
  ]
]

-- Marking one settles no less.
pub delivered_row-IsSettled :
    (now id other : ℕ) (rs : List OutboxRow)
    → IsSettled now other rs
    → IsSettled now other (map (delivered_row now id) rs)
unfolding is_claimable
delivered_row-IsSettled now id other [] h = tt
delivered_row-IsSettled now id other (r ∷ rs) h = elim (Bool-cases (r.id == id)) [
  | inl e ↦ rw e ((λ free. absurd (clash free)), delivered_row-IsSettled now id other rs h.1)
  | inr e ↦ rw e (h.0, delivered_row-IsSettled now id other rs h.1)
]
  where
    clash : false ≡ true → ⊥
    clash e = cc

module _ (now : ℕ) (instance_id : Text) where
  locked-held : (r : OutboxRow) → is_claimable now (locked_row now instance_id r) ≡ false
  unfolding is_claimable
  locked-held r = elim (Bool-cases (ltb (now + lock_ms) now)) [
    | inl e ↦ absurd (ground arith)
    | inr e ↦ rw e (ground arith)
  ]

  -- A claim takes the first rows that may be claimed, up to its limit.
  pub claim_rows-take :
      (limit : ℕ) (rs : List OutboxRow)
      → (claim_rows now instance_id limit rs).0 ≡ take limit (keep (is_claimable now) rs)
  unfolding claim_rows keep take
  claim_rows-take limit [] = refl
  claim_rows-take zero (r ∷ rs) = sym (take-zero (keep (is_claimable now) (r ∷ rs)))
  claim_rows-take (suc limit) (r ∷ rs) = elim (Bool-cases (is_claimable now r)) [
    | inl e ↦ rw (e, claim_rows) (ap (λ xs. r ∷ xs) (claim_rows-take limit rs))
    | inr e ↦ rw (e, claim_rows) (claim_rows-take (suc limit) rs)
  ]

  pub keep-claim_rows :
      (limit : ℕ) (rs : List OutboxRow)
      → keep (is_claimable now) (claim_rows now instance_id limit rs).1
        ≡ drop limit (keep (is_claimable now) rs)
  unfolding claim_rows keep drop
  keep-claim_rows limit [] = refl
  keep-claim_rows zero (r ∷ rs) = sym (drop-zero (keep (is_claimable now) (r ∷ rs)))
  keep-claim_rows (suc limit) (r ∷ rs) = elim (Bool-cases (is_claimable now r)) [
    | inl e ↦ rw (e, claim_rows, locked-held r) (keep-claim_rows limit rs)
    | inr e ↦ rw (e, claim_rows) (rw e (keep-claim_rows (suc limit) rs))
  ]

  pub claim_rows-IsNumbered :
      (limit n : ℕ) (rs : List OutboxRow)
      → IsNumbered n rs
      → IsNumbered n (claim_rows now instance_id limit rs).1
  unfolding claim_rows
  claim_rows-IsNumbered limit n [] h = tt
  claim_rows-IsNumbered zero n (r ∷ rs) h = h
  claim_rows-IsNumbered (suc limit) n (r ∷ rs) h = elim (Bool-cases (is_claimable now r)) [
    | inl e ↦ rw (e, claim_rows) (h.0, claim_rows-IsNumbered limit (suc r.id) rs h.1)
    | inr e ↦ rw (e, claim_rows) (h.0, claim_rows-IsNumbered (suc limit) (suc r.id) rs h.1)
  ]

  -- What a claim takes is not left to be claimed.
  pub claim_rows-IsSettled :
      (limit n : ℕ) (rs : List OutboxRow)
      → IsNumbered n rs
      → All
          (λ (c : OutboxRow). IsSettled now c.id (claim_rows now instance_id limit rs).1)
          (claim_rows now instance_id limit rs).0
  unfolding claim_rows
  claim_rows-IsSettled limit n [] h = tt
  claim_rows-IsSettled zero n (r ∷ rs) h = tt
  claim_rows-IsSettled (suc limit) n (r ∷ rs) h = elim (Bool-cases (is_claimable now r)) [
    | inl e ↦
        let left = claim_rows now instance_id limit rs in
        rw (e, claim_rows)
          (
            (
              (λ free. absurd (clash (sym (locked-held r) ∙ free))),
              All-map (λ q lt free same. absurd (omega (arith, lt, same))) left.1
                  (IsNumbered-above r.id (suc r.id) left.1 (omega arith)
                    (claim_rows-IsNumbered limit (suc r.id) rs h.1)),
            ),
            All-map (λ c settled. ((λ free. absurd (clash (sym (locked-held r) ∙ free))), settled))
                left.0 (claim_rows-IsSettled limit (suc r.id) rs h.1),
          )
    | inr e ↦
        let left = claim_rows now instance_id (suc limit) rs in
        rw (e, claim_rows)
          (All-map (λ c settled. ((λ free. absurd (clash (sym e ∙ free))), settled)) left.0
            (claim_rows-IsSettled (suc limit) (suc r.id) rs h.1))
  ]
    where
      clash : false ≡ true → ⊥
      clash e = cc
