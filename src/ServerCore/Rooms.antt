-- ===== src/ServerCore/Rooms.antt =====
-- CollaborationServerCore of packages/server-core/src/index.ts: the warm rooms. A method that awaits is
-- cut where it awaits, so that its parts are steps that interleave with those of the others.
pub mod Kept
use collabhub.Prelude.{
  ℕ, ◌+◌, ◌-◌, Text, Bool, true, false, not, ◌&&◌, ◌||◌, Option, none, some, List, [], ◌∷◌, map,
  ltb, ◌==◌, length, Dictionary, lookup, insert, erase, if◌then◌else◌,
}
use collabhub.Errors.{Result, ok, throws}
use collabhub.Protocol.Json.{Value}
use collabhub.ServerCore.Pipeline.{PipelineOptions}
use collabhub.ServerCore.Storage.{Storage, storage_key, delete_document}
use collabhub.ServerCore.Evictions.{
  RoomCacheEntry, RoomCachePolicy, EvictionDecision, plan_room_evictions,
}
use collabhub.ServerCore.Session.{
  Session, SessionOptions, Faults, Outcome, load, process, persist_snapshot,
}

-- What an eviction waits for: the snapshot's save, or the deletion of the data.
pub data Eviction : Type 0 where
  saving deleting : Eviction

-- ManagedDocumentSession. The identity stands for the object's; the session is there once it is loaded.
pub record Room : Type 0 where
  pub identity : ℕ
  pub tenant_id : Text
  pub document_id : Text
  pub session : Option Session
  pub active_connections : ℕ
  pub queued_operations : ℕ
  pub last_access_at : ℕ
  pub initializing : Bool
  pub eviction : Option Eviction

-- SessionFactoryOptions; `delete_data` is roomDataRetention === 'delete'
pub record CoreOptions : Type 0 where
  pub pipeline : PipelineOptions
  pub snapshot_interval : Option ℕ
  pub room_cache_policy : Option RoomCachePolicy
  pub delete_data : Bool

pub record Rooms : Type 0 where
  pub sessions : Dictionary Room
  pub next_identity : ℕ
  pub storage : Storage

abbrev pub session_options : CoreOptions → Room → SessionOptions
session_options o r = record {
  tenant_id = r.tenant_id;
  document_id = r.document_id;
  pipeline = o.pipeline;
  snapshot_interval = o.snapshot_interval;
}

-- entry.initializing || entry.activeConnections > 0 || queuedOperationCount > 0
abbrev pub is_busy : Room → Bool
is_busy r = r.initializing || ltb 0 r.active_connections || ltb 0 r.queued_operations

-- A change of the room of a key, if it still is the one of an identity; `none` deletes it.
unfoldable pub at_room : Text → ℕ → (Room → Option Room) → Rooms → Rooms
at_room key identity f c = elim (lookup c.sessions key) [
  | none ↦ c
  | some r ↦
      if r.identity == identity
      then elim (f r) [
        | none ↦ record c { sessions = erase c.sessions key }
        | some next ↦ record c { sessions = insert c.sessions key next }
      ]
      else c
]

abbrev pub new_room : Rooms → ℕ → Text → Text → Room
new_room c now tenant document = record {
  identity = c.next_identity;
  tenant_id = tenant;
  document_id = document;
  session = none;
  active_connections = 0;
  queued_operations = 0;
  last_access_at = now;
  initializing = true;
  eviction = none;
}

-- session, up to the await of initialize: where an eviction is under way it waits.
unfoldable pub enter : ℕ → Text → Text → Rooms → Rooms
enter now tenant document c =
    let key = storage_key tenant document in
    elim (lookup c.sessions key) [
      | none ↦ record c {
        sessions = insert c.sessions key (new_room c now tenant document);
        next_identity = c.next_identity + 1;
      }
      | some r ↦ elim r.eviction [
        | some waited ↦ c
        | none ↦ record c { sessions = insert c.sessions key (record r { last_access_at = now }) }
      ]
    ]

-- The session of a room that initialize loads, if it is not loaded yet.
abbrev pub initialized : CoreOptions → Faults → Storage → Room → Result (Session × Storage)
initialized o faults storage r = elim r.session [
  | some s ↦ ok (s, storage)
  | none ↦ load (session_options o r) faults storage
]

abbrev pub ready_room : Session → Room → Option Room
ready_room s r = some (record r { session = some s; initializing = false })

-- session, once initialize has ended: a room that cannot be loaded is deleted.
unfoldable pub finish_session : CoreOptions → Faults → Text → ℕ → Rooms → Rooms
finish_session o faults key identity c = elim (lookup c.sessions key) [
  | none ↦ c
  | some r ↦ elim (initialized o faults c.storage r) [
    | ok (s, storage) ↦ at_room key identity (ready_room s) (record c { storage = storage })
    | throws m ↦ at_room key identity (λ r. none) c
  ]
]

abbrev pub acquired : ℕ → Room → Option Room
acquired now r =
    some (record r { active_connections = r.active_connections + 1; last_access_at = now })

-- acquireRoom, once the session is there: if the room is another one by then, it starts again.
unfoldable pub acquire : ℕ → Text → ℕ → Rooms → Rooms
acquire now key identity c = at_room key identity (acquired now) c

abbrev pub released : ℕ → Room → Option Room
released now r =
    some (record r { active_connections = r.active_connections - 1; last_access_at = now })

-- release, of a lease that has not been released
unfoldable pub release : ℕ → Text → ℕ → Rooms → Rooms
release now key identity c = at_room key identity (released now) c

abbrev pub queued : Room → Option Room
queued r = some (record r { queued_operations = r.queued_operations + 1 })

-- AuthoritativeDocumentSession.submit, up to its turn
unfoldable pub enqueue : Text → ℕ → Rooms → Rooms
enqueue key identity c = at_room key identity queued c

abbrev pub answered : Session → Room → Option Room
answered s r = some (record r { session = some s; queued_operations = r.queued_operations - 1 })

-- A queued operation's turn
unfoldable pub process_queued : CoreOptions → Faults → Text → Text → ℕ → Value → Rooms → Rooms
process_queued o faults now key identity raw c = elim (lookup c.sessions key) [
  | none ↦ c
  | some r ↦ elim r.session [
    | none ↦ c
    | some s ↦
        let out = process (session_options o r) faults now s c.storage raw in
        at_room key identity (answered out.session) (record c { storage = out.storage })
  ]
]

abbrev pub evicting : Room → Option Room
evicting r = elim r.eviction [
  | some under_way ↦ some r
  | none ↦ some (if is_busy r then r else record r { eviction = some saving })
]

-- evict, up to the await of persistSnapshot
unfoldable pub start_eviction : Text → ℕ → Rooms → Rooms
start_eviction key identity c = at_room key identity evicting c

abbrev pub kept_room : Room → Option Room
kept_room r = some (record r { eviction = none })

abbrev pub after_save : CoreOptions → Room → Option Room
after_save o r =
    if is_busy r
    then kept_room r
    else if o.delete_data
    then some (record r { eviction = some deleting })
    else none

-- What persistSnapshot writes, of a session that is loaded
abbrev pub saved : CoreOptions → Faults → Storage → Room → Result Storage
saved o faults storage r = elim r.session [
  | none ↦ ok storage
  | some s ↦ persist_snapshot (session_options o r) faults s storage
]

-- finishEviction, once persistSnapshot has ended
unfoldable pub finish_save : CoreOptions → Faults → Text → ℕ → Rooms → Rooms
finish_save o faults key identity c = elim (lookup c.sessions key) [
  | none ↦ c
  | some r ↦ elim r.eviction [
    | some saving ↦ elim (saved o faults c.storage r) [
      | ok storage ↦ at_room key identity (after_save o) (record c { storage = storage })
      | throws m ↦ at_room key identity kept_room c
    ]
    | _ ↦ c
  ]
]

-- finishEviction, once deleteDocument has ended, of a storage that may throw
unfoldable pub finish_deletion : (fails : Bool) → Text → ℕ → Rooms → Rooms
finish_deletion fails key identity c = elim (lookup c.sessions key) [
  | none ↦ c
  | some r ↦ elim r.eviction [
    | some deleting ↦
        if fails
        then at_room key identity kept_room c
        else at_room key identity (λ x. none)
            (record c { storage = delete_document c.storage r.tenant_id r.document_id })
    | _ ↦ c
  ]
]

-- The entries that runSweep plans with
unfoldable pub cache_entries : Dictionary Room → List RoomCacheEntry
cache_entries [] = []
cache_entries ((key, r) ∷ m) =
    record {
      key = key;
      last_access_at = r.last_access_at;
      active_connections = r.active_connections;
      queued_operations = r.queued_operations + (if r.initializing then 1 else 0);
    }
    ∷ cache_entries m

-- runSweep's plan; each decision is evicted in turn.
unfoldable pub sweep_plan :
    (Text → Text → Bool)
    → RoomCachePolicy
    → (now max_warm_rooms : ℕ) → Rooms
    → List EvictionDecision
sweep_plan before policy now max c =
    plan_room_evictions before (cache_entries c.sessions) policy.idle_ttl_ms max now

-- The parts of the methods, each of the room that it was started for
pub data RoomEvent : Type 0 where
  entered : (now : ℕ) (tenant document : Text) → RoomEvent
  session_finished : Faults → (key : Text) (identity : ℕ) → RoomEvent
  room_acquired room_released : (now : ℕ) (key : Text) (identity : ℕ) → RoomEvent
  operation_queued : (key : Text) (identity : ℕ) → RoomEvent
  operation_processed : Faults → (now key : Text) (identity : ℕ) → Value → RoomEvent
  eviction_started : (key : Text) (identity : ℕ) → RoomEvent
  save_finished : Faults → (key : Text) (identity : ℕ) → RoomEvent
  deletion_finished : (fails : Bool) (key : Text) (identity : ℕ) → RoomEvent

-- A part of a room that is no longer under its key leaves the rooms as they are.
abbrev pub is_current : Text → ℕ → Rooms → Bool
is_current key identity c = elim (lookup c.sessions key) [
  | none ↦ false
  | some r ↦ r.identity == identity
]

abbrev pub if_current : Text → ℕ → Rooms → Rooms → Rooms
if_current key identity c next = if is_current key identity c then next else c

unfoldable pub room_step : CoreOptions → Rooms → RoomEvent → Rooms
room_step o c (entered now tenant document) = enter now tenant document c
room_step o c (session_finished faults key identity) =
    if_current key identity c (finish_session o faults key identity c)
room_step o c (room_acquired now key identity) = acquire now key identity c
room_step o c (room_released now key identity) = release now key identity c
room_step o c (operation_queued key identity) = enqueue key identity c
room_step o c (operation_processed faults now key identity raw) =
    if_current key identity c (process_queued o faults now key identity raw c)
room_step o c (eviction_started key identity) = start_eviction key identity c
room_step o c (save_finished faults key identity) =
    if_current key identity c (finish_save o faults key identity c)
room_step o c (deletion_finished fails key identity) =
    if_current key identity c (finish_deletion fails key identity c)
