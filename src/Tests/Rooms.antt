-- ===== src/Tests/Rooms.antt =====
-- Tests and instances for the warm rooms.
use collabhub.Prelude.{
  ℕ, ◌≤◌, ◌+◌, Text, text, ◌≡◌, refl, ◌⊎◌, Bool, true, List, [], ◌∷◌, length, keep, any, All, leb,
  ◌===◌, sort_with, insert_sorted, none, some, false, lookup,
}
use collabhub.ServerCore.Evictions.{
  RoomCacheEntry, idle, capacity, is_chosen, is_evictable, plan_room_evictions, evictable_entries,
  choose_for_capacity,
}
use collabhub.ServerCore.Evictions.Plan.{
  IsUnused, plan_room_evictions-IsUnused, plan_room_evictions-Enough,
}
use collabhub.ServerCore.Storage.{empty_storage}
use collabhub.ServerCore.Session.{no_faults, start_session}
use collabhub.ServerCore.Rooms.{Room, Rooms, CoreOptions, saving, room_step, save_finished}
use collabhub.ServerCore.Rooms.Kept.{Stays, room_step-Stays}
use collabhub.Tests.Data.{options}

abbrev by_length : Text → Text → Bool
by_length a b = leb (length a) (length b)

abbrev room : Text → ℕ → ℕ → RoomCacheEntry
room key last active = record {
  key = key;
  last_access_at = last;
  active_connections = active;
  queued_operations = 0;
}

abbrev rooms : List RoomCacheEntry
rooms =
    room (text "busy") 0 1
    ∷ room (text "late") 90 0
    ∷ room (text "later") 95 0
    ∷ room (text "old") 10 0
    ∷ []

planned :
    plan_room_evictions by_length rooms 50 2 100
    ≡ record { key = text "old"; reason = idle }
      ∷ record { key = text "late"; reason = capacity }
      ∷ []
unfolding plan_room_evictions evictable_entries choose_for_capacity sort_with insert_sorted keep any
    ◌===◌ text
planned = refl

plan_room_evictions-IsUnused_example :
    All (IsUnused rooms 50 100) (plan_room_evictions by_length rooms 50 2 100)
plan_room_evictions-IsUnused_example = plan_room_evictions-IsUnused by_length rooms 50 2 100

plan_room_evictions-Enough_example :
    (length rooms ≤ 2 + length (plan_room_evictions by_length rooms 50 2 100))
    ⊎ All
        (λ (e : RoomCacheEntry).
          is_chosen e.key (plan_room_evictions by_length rooms 50 2 100) ≡ true)
        (keep is_evictable rooms)
plan_room_evictions-Enough_example = plan_room_evictions-Enough by_length rooms 50 2 100

abbrev core_options : CoreOptions
core_options = record {
  pipeline = options.pipeline;
  snapshot_interval = none;
  room_cache_policy = none;
  delete_data = false;
}

-- A client has come while the room's snapshot was being saved.
abbrev joined_room : Room
joined_room = record {
  identity = 0;
  tenant_id = text "t";
  document_id = text "d";
  session = some (start_session options none);
  active_connections = 1;
  queued_operations = 0;
  last_access_at = 5;
  initializing = false;
  eviction = some saving;
}

abbrev warm_rooms : Rooms
warm_rooms = record {
  sessions = (text "r", joined_room) ∷ [];
  next_identity = 1;
  storage = empty_storage;
}

room_step-Stays_example : Stays joined_room (
    lookup
      (room_step core_options warm_rooms (save_finished no_faults (text "r") 0)).sessions
      (text "r"))
unfolding lookup ◌===◌ text
room_step-Stays_example =
    room_step-Stays core_options warm_rooms (text "r") joined_room refl
      ((start_session options none, refl), refl) (save_finished no_faults (text "r") 0) tt
