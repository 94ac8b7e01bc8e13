-- ===== src/Protocol/Complexity/Accepts.antt =====
-- The loop accepts exactly the values that a recursive description of the bounds admits.
use collabhub.Prelude.{
  ℕ, zero, suc, ◌+◌, ◌≤◌, ◌<◌, ◌≡◌, refl, Bool, ◌⊎◌, inl, inr, ◌↔◌, Option, some, List, [], ◌∷◌,
  arith, ltb, length, All, ltb→lt, ltb→le, Bool-cases,
}
use collabhub.Errors.{Message, Result, ok, throws}
use collabhub.Protocol.Json.{
  Value, null, boolean, integer, number, string, array, object, other, Items, nil, cons, Fields,
  end, field, to_list, values,
}
use collabhub.Protocol.Complexity.{
  Limits, leaf, collection, shape, Entry, push_all, visit, check_pending, assert_json_complexity,
}

-- The nodes of a value, itself included.
unfoldable mutual
  pub count : Value → ℕ
  count null = 1
  count (boolean b) = 1
  count (integer n) = 1
  count (number t) = 1
  count (string s) = 1
  count (array vs) = suc (count_items vs)
  count (object fs) = suc (count_fields fs)
  count other = 1

  pub count_items : Items → ℕ
  count_items nil = 0
  count_items (cons v vs) = count v + count_items vs

  pub count_fields : Fields → ℕ
  count_fields end = 0
  count_fields (field k v fs) = count v + count_fields fs

-- Every collection is short enough, no value lies too deep, and all is JSON; `depth` is the value's.
unfoldable mutual
  pub Admits : Limits → ℕ → Value → Type 0
  Admits l depth null = depth ≤ l.max_depth
  Admits l depth (boolean b) = depth ≤ l.max_depth
  Admits l depth (integer n) = depth ≤ l.max_depth
  Admits l depth (number t) = depth ≤ l.max_depth
  Admits l depth (string s) = depth ≤ l.max_depth
  Admits l depth (array vs) =
      (depth ≤ l.max_depth)
      × (length (to_list vs) ≤ l.max_collection_length)
      × AdmitsItems l (depth + 1) vs
  Admits l depth (object fs) =
      (depth ≤ l.max_depth)
      × (length (values fs) ≤ l.max_collection_length)
      × AdmitsFields l (depth + 1) fs
  Admits l depth other = ⊥

  pub AdmitsItems : Limits → ℕ → Items → Type 0
  AdmitsItems l depth nil = Unit
  AdmitsItems l depth (cons v vs) = Admits l depth v × AdmitsItems l depth vs

  pub AdmitsFields : Limits → ℕ → Fields → Type 0
  AdmitsFields l depth end = Unit
  AdmitsFields l depth (field k v fs) = Admits l depth v × AdmitsFields l depth fs

count_all : List Value → ℕ
count_all [] = 0
count_all (v ∷ vs) = count v + count_all vs

total : List Entry → ℕ
total [] = 0
total (e ∷ es) = count e.0 + total es

abbrev AllAdmitted : Limits → List Entry → Type 0
AllAdmitted l es = All (λ (e : Entry). Admits l e.1 e.0) es

count_all-to_list : (vs : Items) → count_all (to_list vs) ≡ count_items vs
unfolding count_all to_list count
count_all-to_list nil = refl
count_all-to_list (cons v vs) = rw (count_all-to_list vs)

count_all-values : (fs : Fields) → count_all (values fs) ≡ count_fields fs
unfolding count_all values count
count_all-values end = refl
count_all-values (field k v fs) = rw (count_all-values fs)

count_pos : (v : Value) → 0 < count v
unfolding count
count_pos (array vs) = omega arith
count_pos _ = omega arith

total-push_all :
    (vs : List Value) (depth : ℕ) (es : List Entry)
    → total (push_all vs depth es) ≡ count_all vs + total es
unfolding total push_all count_all
total-push_all [] depth es = omega arith
total-push_all (v ∷ vs) depth es = omega (arith, total-push_all vs depth ((v, depth) ∷ es))

module _ (l : Limits) where
  AdmitsItems-All :
      (depth : ℕ) (vs : Items) → AdmitsItems l depth vs ↔ All (λ v. Admits l depth v) (to_list vs)
  unfolding Admits to_list
  AdmitsItems-All depth nil = (λ h. h, λ h. h)
  AdmitsItems-All depth (cons v vs) =
      (λ h. (h.0, (AdmitsItems-All depth vs).0 h.1), λ h. (h.0, (AdmitsItems-All depth vs).1 h.1))

  AdmitsFields-All :
      (depth : ℕ) (fs : Fields) → AdmitsFields l depth fs ↔ All (λ v. Admits l depth v) (values fs)
  unfolding Admits values
  AdmitsFields-All depth end = (λ h. h, λ h. h)
  AdmitsFields-All depth (field k v fs) =
      (λ h. (h.0, (AdmitsFields-All depth fs).0 h.1), λ h. (h.0, (AdmitsFields-All depth fs).1 h.1))

  AllAdmitted-push_all :
      (vs : List Value) (depth : ℕ) (es : List Entry)
      → AllAdmitted l (push_all vs depth es) ↔ (All (λ v. Admits l depth v) vs × AllAdmitted l es)
  unfolding push_all
  AllAdmitted-push_all [] depth es = (λ h. (tt, h), λ h. h.1)
  AllAdmitted-push_all (v ∷ vs) depth es =
      let ih = AllAdmitted-push_all vs depth ((v, depth) ∷ es) in
      (λ h. (((ih.0 h).1.0, (ih.0 h).0), (ih.0 h).1.1), λ h. ih.1 (h.0.1, (h.0.0, h.1)))

  -- A round takes one node off the total and keeps what is to be admitted, or finds the fault.
  abbrev Visited : Value → ℕ → List Entry → Result (List Entry) → Type 0
  Visited v depth es (ok rest) =
      (suc (total rest) ≡ count v + total es)
      × (AllAdmitted l rest ↔ (Admits l depth v × AllAdmitted l es))
  Visited v depth es (throws m) = ¬ Admits l depth v

  abbrev too_deep : ℕ → Bool
  too_deep depth = ltb l.max_depth depth

  visit_leaf :
      (v : Value) (depth : ℕ) (es : List Entry)
      → shape v ≡ leaf
      → count v ≡ 1
      → (Admits l depth v ↔ (depth ≤ l.max_depth))
      → Visited v depth es (visit l (v, depth) es)
  unfolding visit
  visit_leaf v depth es s c a = elim (Bool-cases (ltb l.max_depth depth)) [
    | inl deep ↦ rw (deep, visit) (λ h. absurd (omega (arith, a.0 h, ltb→lt _ _ deep)))
    | inr fine ↦ rw (fine, s, visit) (omega arith, ((λ h. (a.1 (ltb→le _ _ fine), h)), (λ h. h.1)))
  ]

  visit_collection :
      (v : Value) (depth : ℕ) (es : List Entry) (vs : List Value)
      → shape v ≡ collection vs
      → count v ≡ suc (count_all vs)
      → (Admits l depth v ↔ (
          (depth ≤ l.max_depth)
          × (length vs ≤ l.max_collection_length)
          × All (λ w. Admits l (depth + 1) w) vs))
      → Visited v depth es (visit l (v, depth) es)
  unfolding visit
  visit_collection v depth es vs s c a = elim (Bool-cases (ltb l.max_depth depth)) [
    | inl deep ↦ rw (deep, visit) (λ h. absurd (omega (arith, (a.0 h).0, ltb→lt _ _ deep)))
    | inr fine ↦ elim (Bool-cases (ltb l.max_collection_length (length vs))) [
      | inl long ↦
          rw (fine, s, long, visit) (λ h. absurd (omega (arith, (a.0 h).1, ltb→lt _ _ long)))
      | inr short ↦
          rw (fine, s, short, visit)
            (
              omega (arith, total-push_all vs (depth + 1) es),
              (
                (λ h.
                    let g = (AllAdmitted-push_all vs (depth + 1) es).0 h in
                    (a.1 (ltb→le _ _ fine, ltb→le _ _ short, g.0), g.1)),
                (λ h. (AllAdmitted-push_all vs (depth + 1) es).1 ((a.0 h.0).2, h.1)),
              ),
            )
    ]
  ]

  visit-Visited :
      (v : Value) (depth : ℕ) (es : List Entry) → Visited v depth es (visit l (v, depth) es)
  unfolding Admits shape count
  visit-Visited (array vs) depth es =
      visit_collection (array vs) depth es (to_list vs) refl (omega (arith, count_all-to_list vs)) (
        (λ h. (h.0, h.1, (AdmitsItems-All (depth + 1) vs).0 h.2)),
        (λ h. (h.0, h.1, (AdmitsItems-All (depth + 1) vs).1 h.2)),
      )
  visit-Visited (object fs) depth es =
      visit_collection (object fs) depth es (values fs) refl (omega (arith, count_all-values fs)) (
        (λ h. (h.0, h.1, (AdmitsFields-All (depth + 1) fs).0 h.2)),
        (λ h. (h.0, h.1, (AdmitsFields-All (depth + 1) fs).1 h.2)),
      )
  visit-Visited other depth es =
      unfold visit in
      elim (Bool-cases (ltb l.max_depth depth)) [
        | inl deep ↦ rw (deep, visit) (λ h. h)
        | inr fine ↦ rw (fine, visit) (λ h. h)
      ]
  visit-Visited v depth es = visit_leaf v depth es refl refl ((λ h. h), (λ h. h))

  abbrev Accepted : List Entry → ℕ → Type 0
  Accepted es nodes = (nodes + total es ≤ l.max_nodes) × AllAdmitted l es

  -- The loop has an answer, and it accepts exactly what is to be accepted.
  abbrev Decides : List Entry → ℕ → Option (Result (Unit {0})) → Type 0
  Decides es nodes r =
      ((r ≡ some (ok tt)) × Accepted es nodes)
      ⊎ ((m : Message) × (r ≡ some (throws m)) × (¬ Accepted es nodes))

  decide-Visited :
      (v : Value) (depth : ℕ) (es : List Entry) (nodes : ℕ) (r : Result (List Entry))
      (next : List Entry → Option (Result (Unit {0})))
      → Visited v depth es r
      → ((rest : List Entry) → Decides rest (suc nodes) (next rest))
      → Decides
          ((v, depth) ∷ es)
          nodes
          (elim r [ ok rest ↦ next rest | throws m ↦ some (throws m) ])
  unfolding total
  decide-Visited v depth es nodes (throws m) next h ih = inr (m, refl, λ a. h a.1.0)
  decide-Visited v depth es nodes (ok rest) next h ih = elim (ih rest) [
    | inl (e, a) ↦ inl (e, (omega (arith, h.0, a.0), h.1.0 a.1))
    | inr (m, e, no_way) ↦ inr (m, e, λ a. no_way (omega (arith, h.0, a.0), h.1.1 a.1))
  ]

  check_pending-Decides :
      (fuel : ℕ) (es : List Entry) (nodes : ℕ)
      → nodes ≤ l.max_nodes
      → l.max_nodes < fuel + nodes
      → Decides es nodes (check_pending l fuel es nodes)
  unfolding check_pending
  check_pending-Decides fuel [] nodes h enough = unfold total in inl (refl, (omega arith, tt))
  check_pending-Decides zero (e ∷ es) nodes h enough = absurd (omega arith)
  check_pending-Decides (suc fuel) ((v, depth) ∷ es) nodes h enough =
      elim (Bool-cases (ltb l.max_nodes (suc nodes))) [
        | inl full ↦
            unfold total in
            rw (full, check_pending)
              (inr (_, refl, λ a. absurd (omega (arith, a.0, ltb→lt _ _ full, count_pos v))))
        | inr room ↦
            rw (room, check_pending)
              (decide-Visited v depth es nodes (visit l (v, depth) es)
                (λ rest. check_pending l fuel rest (suc nodes)) (visit-Visited v depth es)
                (λ rest.
                  check_pending-Decides fuel rest (suc nodes) (ltb→le _ _ room) (omega arith)))
      ]

-- The bounds that a value is to keep.
abbrev pub InBounds : Limits → Value → Type 0
InBounds l v = (count v ≤ l.max_nodes) × Admits l 0 v

-- The check of a value ends without running out of rounds. It accepts exactly the values of at most
-- `max_nodes` nodes in which all is JSON, no value lies deeper than `max_depth`, and no array or
-- object has more than `max_collection_length` entries.
pub assert_json_complexity-InBounds :
    (l : Limits) (v : Value)
    → ((assert_json_complexity l v ≡ some (ok tt)) × InBounds l v)
      ⊎ ((m : Message) × (assert_json_complexity l v ≡ some (throws m)) × (¬ InBounds l v))
unfolding assert_json_complexity total
assert_json_complexity-InBounds l v =
    elim (check_pending-Decides l (suc l.max_nodes) ((v, 0) ∷ []) 0 (omega arith) (omega arith)) [
      | inl (e, a) ↦ inl (e, (omega (arith, a.0), a.1.0))
      | inr (m, e, no_way) ↦ inr (m, e, λ a. no_way (omega (arith, a.0), (a.1, tt)))
    ]
