-- ===== src/ServerCore/Evictions/Plan.antt =====
-- What planRoomEvictions of packages/server-core/src/index.ts plans.
use mathlib.Core.List.{Mem, mem-cons_self, mem-cons_of_mem}
use collabhub.Prelude.{
  ℕ, ◌+◌, ◌-◌, ◌≤◌, Text, ◌≡◌, refl, sym, subst, ◌↔◌, ◌⊎◌, inl, inr, Bool, true, ◌||◌, List, [],
  ◌∷◌, ◌++◌, map, leb, ◌===◌, ===-refl, length, length-append, keep, any, All, All-append, All-map,
  sort_with-All, leb→le, arith, Bool-cases,
}
use collabhub.ServerCore.Evictions.{
  RoomCacheEntry, EvictionReason, EvictionDecision, idle, capacity, is_evictable, is_idle, decision,
  comes_before, is_chosen, choose_for_capacity, evictable_entries, plan_room_evictions,
}

-- The entry is one of these, of a room that nobody is connected to and that has nothing to do.
abbrev Unused : List RoomCacheEntry → RoomCacheEntry → Type 0
Unused entries e = Mem e entries × (e.active_connections ≡ 0) × (e.queued_operations ≡ 0)

-- A room to evict is one of the entries, nobody is connected to it and it has nothing to do; one that goes
-- for being idle was last used its time to live ago, at least.
pub record IsUnused (entries : List RoomCacheEntry) (ttl now : ℕ) (d : EvictionDecision)
    : Type 0 where
  pub entry : RoomCacheEntry
  pub known : Mem entry entries
  pub same_key : d.key ≡ entry.key
  pub no_connections : entry.active_connections ≡ 0
  pub no_operations : entry.queued_operations ≡ 0
  pub long_idle : (d.reason ≡ capacity) ⊎ (entry.last_access_at + ttl ≤ now)

module _ {ℓ κ} {A : Type ℓ} (P : A → Type κ) (p : A → Bool) where
  All-keep : (xs : List A) → All P xs → All (λ x. P x × (p x ≡ true)) (keep p xs)
  unfolding keep
  All-keep [] h = tt
  All-keep (x ∷ xs) h = elim (Bool-cases (p x)) [
    | inl e ↦ rw (e, keep) ((h.0, e), All-keep xs h.1)
    | inr e ↦ rw (e, keep) (All-keep xs h.1)
  ]

any-append {ℓ} :
    {A : Type ℓ} (p : A → Bool) (xs ys : List A) → any p (xs ++ ys) ≡ (any p xs || any p ys)
unfolding any
any-append p [] ys = refl
any-append p (x ∷ xs) ys = ground (arith, any-append p xs ys)

Mem-All : (es : List RoomCacheEntry) → All (λ (e : RoomCacheEntry). Mem e es) es
Mem-All [] = tt
Mem-All (e ∷ es) = (mem-cons_self, All-map (λ x h. mem-cons_of_mem e h) es (Mem-All es))

is_evictable-zero :
    (e : RoomCacheEntry)
    → is_evictable e ≡ true
    → (e.active_connections ≡ 0) × (e.queued_operations ≡ 0)
is_evictable-zero e h = (ground arith, ground arith)

-- Each evictable entry is unused.
keep-Unused : (entries : List RoomCacheEntry) → All (Unused entries) (keep is_evictable entries)
keep-Unused entries =
    All-map (λ e h. let zeros = is_evictable-zero e h.1 in (h.0, zeros.0, zeros.1)) _
      (All-keep (λ e. Mem e entries) is_evictable entries (Mem-All entries))

choose_for_capacity-All :
    (P : EvictionDecision → Type 0) (max : ℕ) (chosen : List EvictionDecision)
    (es : List RoomCacheEntry) (remaining : ℕ)
    → All (λ (e : RoomCacheEntry). P (decision capacity e)) es
    → All P (choose_for_capacity max chosen es remaining)
unfolding choose_for_capacity
choose_for_capacity-All P max chosen [] remaining h = tt
choose_for_capacity-All P max chosen (e ∷ es) remaining h = elim (Bool-cases (leb remaining max)) [
  | inl few ↦ rw (few, choose_for_capacity) tt
  | inr many ↦ elim (Bool-cases (is_chosen e.key chosen)) [
    | inl skip ↦
        rw (many, skip, choose_for_capacity) (choose_for_capacity-All P max chosen es remaining h.1)
    | inr new ↦
        rw (many, new, choose_for_capacity)
          (h.0, choose_for_capacity-All P max chosen es (remaining - 1) h.1)
  ]
]

-- Few enough of the remaining rooms stay, or every entry is chosen.
abbrev Enough : ℕ → List EvictionDecision → List RoomCacheEntry → ℕ → List EvictionDecision → Type 0
Enough max chosen es remaining ds =
    (remaining ≤ max + length ds)
    ⊎ All (λ (e : RoomCacheEntry). is_chosen e.key (chosen ++ ds) ≡ true) es

module _ (chosen : List EvictionDecision) where
  chosen-append :
      (k : Text) (ds : List EvictionDecision)
      → is_chosen k (chosen ++ ds) ≡ (is_chosen k chosen || is_chosen k ds)
  chosen-append k ds = any-append (λ (d : EvictionDecision). d.key === k) chosen ds

  skipped-Enough :
      (max remaining : ℕ) (e : RoomCacheEntry) (es : List RoomCacheEntry)
      (ds : List EvictionDecision)
      → is_chosen e.key chosen ≡ true
      → Enough max chosen es remaining ds
      → Enough max chosen (e ∷ es) remaining ds
  skipped-Enough max remaining e es ds skip (inl enough) = inl enough
  skipped-Enough max remaining e es ds skip (inr all) =
      inr (rw (chosen-append e.key ds, skip) refl, all)

  added-Enough :
      (max remaining : ℕ) (e : RoomCacheEntry) (es : List RoomCacheEntry)
      (ds : List EvictionDecision)
      → Enough max chosen es (remaining - 1) ds
      → Enough max chosen (e ∷ es) remaining (decision capacity e ∷ ds)
  unfolding any
  added-Enough max remaining e es ds (inl enough) = inl (omega arith)
  added-Enough max remaining e es ds (inr all) = inr (added, All-map kept es all)
    where
      added : is_chosen e.key (chosen ++ decision capacity e ∷ ds) ≡ true
      added = rw (chosen-append e.key (decision capacity e ∷ ds), ===-refl e.key) (ground arith)

      kept :
          (x : RoomCacheEntry)
          → is_chosen x.key (chosen ++ ds) ≡ true
          → is_chosen x.key (chosen ++ decision capacity e ∷ ds) ≡ true
      kept x h =
          rw (chosen-append x.key (decision capacity e ∷ ds))
            (ground (arith, chosen-append x.key ds))

choose_for_capacity-Enough :
    (max : ℕ) (chosen : List EvictionDecision) (es : List RoomCacheEntry) (remaining : ℕ)
    → Enough max chosen es remaining (choose_for_capacity max chosen es remaining)
unfolding choose_for_capacity
choose_for_capacity-Enough max chosen [] remaining = inr tt
choose_for_capacity-Enough max chosen (e ∷ es) remaining = elim (Bool-cases (leb remaining max)) [
  | inl few ↦ at [] (rw few refl) (inl (ground arith))
  | inr many ↦ elim (Bool-cases (is_chosen e.key chosen)) [
    | inl skip ↦ at (choose_for_capacity max chosen es remaining) (rw (many, skip) refl) (
        skipped-Enough chosen max remaining e es _ skip
          (choose_for_capacity-Enough max chosen es remaining))
    | inr new ↦
        at (decision capacity e ∷ choose_for_capacity max chosen es (remaining - 1))
          (rw (many, new) refl)
          (added-Enough chosen max remaining e es _
            (choose_for_capacity-Enough max chosen es (remaining - 1)))
  ]
]
  where
    at :
        (ds : List EvictionDecision)
        → choose_for_capacity max chosen (e ∷ es) remaining ≡ ds
        → Enough max chosen (e ∷ es) remaining ds
        → Enough max chosen (e ∷ es) remaining (choose_for_capacity max chosen (e ∷ es) remaining)
    at ds same h = subst (Enough max chosen (e ∷ es) remaining) (sym same) h

module _ (before : Text → Text → Bool) (entries : List RoomCacheEntry) (ttl max now : ℕ) where
  evictable-All :
      (P : RoomCacheEntry → Type 0)
      → All P (keep is_evictable entries) ↔ All P (evictable_entries before entries)
  unfolding evictable_entries
  evictable-All P = sort_with-All (comes_before before) P (keep is_evictable entries)

  -- Each room planned to go is one of the entries, without connections and queued operations; one that is
  -- planned to go for being idle was last used the time to live ago, at least.
  pub plan_room_evictions-IsUnused :
      All (IsUnused entries ttl now) (plan_room_evictions before entries ttl max now)
  unfolding plan_room_evictions
  plan_room_evictions-IsUnused =
      All-append _ _ _
        (idle-All (keep (is_idle ttl now) es) (All-keep (Unused entries) (is_idle ttl now) es all))
        (choose_for_capacity-All (IsUnused entries ttl now) max _ es _
          (All-map (λ e h. planned capacity e h (inl refl)) es all))
    where
      es : List RoomCacheEntry
      es = evictable_entries before entries

      all : All (Unused entries) (evictable_entries before entries)
      all = (evictable-All (Unused entries)).0 (keep-Unused entries)

      planned :
          (reason : EvictionReason) (e : RoomCacheEntry)
          → Unused entries e
          → (reason ≡ capacity) ⊎ (e.last_access_at + ttl ≤ now)
          → IsUnused entries ttl now (decision reason e)
      planned reason e h long = record {
        entry = e;
        known = h.0;
        same_key = refl;
        no_connections = h.1;
        no_operations = h.2;
        long_idle = long;
      }

      idle-All :
          (xs : List RoomCacheEntry)
          → All (λ e. Unused entries e × (is_idle ttl now e ≡ true)) xs
          → All (IsUnused entries ttl now) (map (decision idle) xs)
      idle-All [] h = tt
      idle-All (x ∷ xs) h = (planned idle x h.0.0 (inr (leb→le _ _ h.0.1)), idle-All xs h.1)

  -- After the planned evictions at most `max_warm_rooms` rooms remain, or each room without
  -- connections and queued operations is planned to go.
  pub plan_room_evictions-Enough :
      (length entries ≤ max + length (plan_room_evictions before entries ttl max now))
      ⊎ All
          (λ (e : RoomCacheEntry).
            is_chosen e.key (plan_room_evictions before entries ttl max now) ≡ true)
          (keep is_evictable entries)
  unfolding plan_room_evictions
  plan_room_evictions-Enough =
      elim (choose_for_capacity-Enough max chosen es (length entries - length chosen)) [
        | inl enough ↦ inl (
            omega (
              arith,
              length-append chosen
                  (choose_for_capacity max chosen es (length entries - length chosen)),
            ))
        | inr all ↦ inr ((evictable-All _).1 all)
      ]
    where
      es : List RoomCacheEntry
      es = evictable_entries before entries

      chosen : List EvictionDecision
      chosen = map (decision idle) (keep (is_idle ttl now) es)
