-- ===== src/ServerCore/Evictions.antt =====
-- resolveRoomCachePolicy and planRoomEvictions of packages/server-core/src/index.ts.
pub mod Plan
use collabhub.Prelude.{
  ℕ, ◌+◌, ◌-◌, ◌^◌, Text, text, Bool, ◌&&◌, ◌||◌, Option, none, some, List, [], ◌∷◌, ◌++◌, map, ltb,
  leb, ◌==◌, ◌===◌, length, keep, any, sort_with, if◌then◌else◌,
}
use collabhub.Errors.{Result, ok, throws, ◌>>=◌, not_positive}
use collabhub.Protocol.Json.{Value, integer}

-- RoomCachePolicy
pub record RoomCachePolicy : Type 0 where
  pub idle_ttl_ms : ℕ
  pub max_warm_rooms : ℕ
  pub scan_interval_ms : ℕ

abbrev pub default_room_cache_policy : RoomCachePolicy
default_room_cache_policy = record {
  idle_ttl_ms = 60_000;
  max_warm_rooms = 1000;
  scan_interval_ms = 3000;
}

-- Partial<RoomCachePolicy>, as it comes from configuration
pub record PartialPolicy : Type 0 where
  pub idle_ttl_ms : Option Value
  pub max_warm_rooms : Option Value
  pub scan_interval_ms : Option Value

-- Number.isSafeInteger(value) && value > 0, of what overrides a default
unfoldable pub positive_integer : Text → ℕ → Option Value → Result ℕ
positive_integer key fallback input = elim input [
  | none ↦ checked fallback
  | some (integer n) ↦ checked n
  | some _ ↦ throws (not_positive key)
]
  where
    checked : ℕ → Result ℕ
    checked n = if leb n 0 || leb (2 ^ 53) n then throws (not_positive key) else ok n

unfoldable pub resolve_room_cache_policy : PartialPolicy → RoomCachePolicy → Result RoomCachePolicy
resolve_room_cache_policy input defaults = do
  idle ← positive_integer (text "idleTtlMs") defaults.idle_ttl_ms input.idle_ttl_ms
  warm ← positive_integer (text "maxWarmRooms") defaults.max_warm_rooms input.max_warm_rooms
  scan ← positive_integer (text "scanIntervalMs") defaults.scan_interval_ms input.scan_interval_ms
  ok (record { idle_ttl_ms = idle; max_warm_rooms = warm; scan_interval_ms = scan })

-- RoomCacheEntry
pub record RoomCacheEntry : Type 0 where
  pub key : Text
  pub last_access_at : ℕ
  pub active_connections : ℕ
  pub queued_operations : ℕ

pub data EvictionReason : Type 0 where
  idle capacity : EvictionReason

-- RoomEvictionDecision
pub record EvictionDecision : Type 0 where
  pub key : Text
  pub reason : EvictionReason

abbrev pub is_evictable : RoomCacheEntry → Bool
is_evictable e = e.active_connections == 0 && e.queued_operations == 0

-- now - entry.lastAccessAt >= idleTtlMs, also where the clock went back
abbrev pub is_idle : ℕ → ℕ → RoomCacheEntry → Bool
is_idle ttl now e = leb (e.last_access_at + ttl) now

abbrev pub decision : EvictionReason → RoomCacheEntry → EvictionDecision
decision reason e = record { key = e.key; reason = reason }

abbrev pub is_chosen : Text → List EvictionDecision → Bool
is_chosen key ds = any (λ (d : EvictionDecision). d.key === key) ds

-- The second loop: the least recently used go until at most `max_warm_rooms` remain.
unfoldable pub choose_for_capacity :
    ℕ → List EvictionDecision → List RoomCacheEntry → ℕ → List EvictionDecision
choose_for_capacity max chosen [] remaining = []
choose_for_capacity max chosen (e ∷ es) remaining =
    let skipped = choose_for_capacity max chosen es remaining in
    let rest = choose_for_capacity max chosen es (remaining - 1) in
    if leb remaining max
    then []
    else if is_chosen e.key chosen
    then skipped
    else decision capacity e ∷ rest

-- `before` is localeCompare's order of keys: that the first does not come after the second.
module _ (before : Text → Text → Bool) where
  abbrev pub comes_before : RoomCacheEntry → RoomCacheEntry → Bool
  comes_before a b =
      ltb a.last_access_at b.last_access_at
      || a.last_access_at == b.last_access_at && before a.key b.key

  unfoldable pub evictable_entries : List RoomCacheEntry → List RoomCacheEntry
  evictable_entries entries = sort_with comes_before (keep is_evictable entries)

  unfoldable pub plan_room_evictions :
      List RoomCacheEntry → (idle_ttl_ms max_warm_rooms now : ℕ) → List EvictionDecision
  plan_room_evictions entries ttl max now =
      let evictable = evictable_entries entries in
      let idle_ones = map (decision idle) (keep (is_idle ttl now) evictable) in
      idle_ones ++ choose_for_capacity max idle_ones evictable (length entries - length idle_ones)
