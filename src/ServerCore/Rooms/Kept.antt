-- ===== src/ServerCore/Rooms/Kept.antt =====
-- Evictions in packages/server-core/src/index.ts against the rooms in use.
use collabhub.Prelude.{
  ℕ, Text, ◌≡◌, refl, sym, ◌∙◌, ap, subst, true, false, ◌||◌, Option, none, some, ltb, ◌==◌, lookup,
  insert, lookup-insert, lookup-erase, ◌===◌, ===_iff, ===-refl, arith, Bool-cases, Option-cases,
  inl, inr,
}
use collabhub.Errors.{Message, ok, throws, Result-cases}
use collabhub.Protocol.Json.{Value}
use collabhub.ServerCore.Storage.{Storage, storage_key}
use collabhub.ServerCore.Session.{Session, Faults}
use collabhub.ServerCore.Rooms.{
  Room, Rooms, CoreOptions, is_current, if_current, Eviction, saving, deleting, is_busy, at_room,
  enter, finish_session, acquire, release, enqueue, process_queued, start_eviction, finish_save,
  finish_deletion, evicting, after_save, saved, kept_room, ready_room, initialized, acquired,
  released, queued, new_room, room_step, RoomEvent, entered, session_finished, room_acquired,
  room_released, operation_queued, operation_processed, eviction_started, save_finished,
  deletion_finished,
}

-- A loaded room with a connection or a queued operation
abbrev pub IsInUse : Room → Type 0
IsInUse r =
    ((s : Session) × (r.session ≡ some s))
    × ((ltb 0 r.active_connections || ltb 0 r.queued_operations) ≡ true)

-- The same room is there.
abbrev pub Stays : Room → Option Room → Type 0
Stays r found = (next : Room) × (found ≡ some next) × (next.identity ≡ r.identity)

-- A change of the room itself
at_room-here :
    (identity : ℕ) (f : Room → Option Room) (c : Rooms) (k : Text) (r next : Room)
    → lookup c.sessions k ≡ some r
    → f r ≡ some next
    → next.identity ≡ r.identity
    → Stays r (lookup (at_room k identity f c).sessions k)
unfolding at_room
at_room-here identity f c k r next found e same = elim (Bool-cases (r.identity == identity)) [
  | inl is_it ↦
      rw (found, is_it, e, at_room)
        (next, rw (lookup-insert c.sessions k k next, ===-refl k) refl, same)
  | inr is_not ↦ rw (found, is_not, at_room) (r, found, refl)
]

-- A change of the room of another key
at_room-there :
    (key : Text) (identity : ℕ) (f : Room → Option Room) (c : Rooms) (k : Text)
    → key === k ≡ false
    → lookup (at_room key identity f c).sessions k ≡ lookup c.sessions k
unfolding at_room
at_room-there key identity f c k other = elim (Option-cases (lookup c.sessions key)) [
  | inl e ↦ rw (e, at_room) refl
  | inr (q, e) ↦ elim (Bool-cases (q.identity == identity)) [
    | inr is_not ↦ rw (e, is_not, at_room) refl
    | inl is_it ↦ elim (Option-cases (f q)) [
      | inl gone ↦ rw (e, is_it, gone, at_room) (rw (lookup-erase c.sessions key k, other) refl)
      | inr (next, new) ↦
          rw (e, is_it, new, at_room) (rw (lookup-insert c.sessions key k next, other) refl)
    ]
  ]
]

-- A room stays where a change of its own key keeps it, which is asked of that key only.
at_room-Stays :
    (key : Text) (identity : ℕ) (f : Room → Option Room) (c : Rooms) (k : Text) (r : Room)
    → lookup c.sessions k ≡ some r
    → Stays r (f r)
    → Stays r (lookup (at_room key identity f c).sessions k)
at_room-Stays key identity f c k r found (next, e, same) = elim (Bool-cases (key === k)) [
  | inl h ↦
      subst (λ j. Stays r (lookup (at_room j identity f c).sessions k)) (sym ((===_iff key k).0 h))
        (at_room-here identity f c k r next found e same)
  | inr other ↦ rw (at_room-there key identity f c k other) (r, found, refl)
]

module _ (o : CoreOptions) (c : Rooms) (k : Text) (r : Room) (found : lookup c.sessions k ≡ some r)
    (used : IsInUse r) where
  abbrev StaysIn : Rooms → Type 0
  StaysIn next = Stays r (lookup next.sessions k)

  impossible : (next : Rooms) (s : Session × Storage) (m : Message) → ok s ≡ throws m → StaysIn next
  impossible next s m e = cc

  same_room : (q : Room) → some q ≡ some r → q ≡ r
  same_room q e = cc

  unmoved : StaysIn c
  unmoved = (r, found, refl)

  busy : is_busy r ≡ true
  busy = ground (arith, used.1)

  if_current-StaysIn :
      (key : Text) (identity : ℕ) (next : Rooms)
      → StaysIn next
      → StaysIn (if_current key identity c next)
  if_current-StaysIn key identity next h = elim (Bool-cases (is_current key identity c)) [
    | inl e ↦ rw e h
    | inr e ↦ rw e unmoved
  ]

  start_eviction-StaysIn : (key : Text) (identity : ℕ) → StaysIn (start_eviction key identity c)
  unfolding start_eviction
  start_eviction-StaysIn key identity = at_room-Stays key identity evicting c k r found kept
    where
      kept : Stays r (evicting r)
      kept = elim (Option-cases r.eviction) [
        | inr (under_way, e) ↦ (r, rw e refl, refl)
        | inl e ↦ (r, rw (e, busy) refl, refl)
      ]

  put-Stays :
      (j : Text) (q : Room)
      → (j === k ≡ true → q.identity ≡ r.identity)
      → Stays r (lookup (insert c.sessions j q) k)
  put-Stays j q same = elim (Bool-cases (j === k)) [
    | inl e ↦ (q, rw (lookup-insert c.sessions j k q, e) refl, same e)
    | inr e ↦ (r, rw (lookup-insert c.sessions j k q, e) found, refl)
  ]

  -- What is under the key of the room is the room.
  found-at :
      (j : Text) (held : Option Room) → lookup c.sessions j ≡ held → j === k ≡ true → held ≡ some r
  found-at j held e same = sym e ∙ ap (lookup c.sessions) ((===_iff j k).0 same) ∙ found

  enter-StaysIn : (now : ℕ) (t d : Text) → StaysIn (enter now t d c)
  unfolding enter
  enter-StaysIn now t d = elim (Option-cases (lookup c.sessions (storage_key t d))) [
    | inl e ↦
        rw (e, enter)
          (put-Stays (storage_key t d) (new_room c now t d)
            (λ same. absent (found-at _ none e same)))
    | inr (q, e) ↦ elim (Option-cases q.eviction) [
      | inr (under_way, f) ↦ rw (e, f, enter) unmoved
      | inl f ↦
          rw (e, f, enter)
            (put-Stays (storage_key t d) (record q { last_access_at = now })
              (λ same. identities q (found-at _ (some q) e same)))
    ]
  ]
    where
      absent : none ≡ some r → (new_room c now t d).identity ≡ r.identity
      absent e = cc

      identities : (q : Room) → some q ≡ some r → q.identity ≡ r.identity
      identities q e = cc

  finish_save-StaysIn :
      (faults : Faults) (key : Text) (identity : ℕ) → StaysIn (finish_save o faults key identity c)
  unfolding finish_save
  finish_save-StaysIn faults key identity = elim (Option-cases (lookup c.sessions key)) [
    | inl e ↦ rw (e, finish_save) unmoved
    | inr (q, e) ↦ after q e q.eviction refl
  ]
    where
      kept : Stays r (after_save o r)
      kept = rw busy (record r { eviction = none }, refl, refl)

      after :
          (q : Room)
          → lookup c.sessions key ≡ some q
          → (phase : Option Eviction) → q.eviction ≡ phase
          → StaysIn (finish_save o faults key identity c)
      after q e none h = rw (e, h, finish_save) unmoved
      after q e (some deleting) h = rw (e, h, finish_save) unmoved
      after q e (some saving) h = elim (Result-cases (saved o faults c.storage q)) [
        | inl (storage, f) ↦
            rw (e, h, f, finish_save)
              (at_room-Stays key identity (after_save o) (record c { storage = storage }) k r found
                kept)
        | inr (m, f) ↦
            rw (e, h, f, finish_save)
              (at_room-Stays key identity kept_room c k r found
                (record r { eviction = none }, refl, refl))
      ]

  process_queued-StaysIn :
      (faults : Faults) (now key : Text) (identity : ℕ) (raw : Value)
      → StaysIn (process_queued o faults now key identity raw c)
  unfolding process_queued
  process_queued-StaysIn faults now key identity raw = elim (Option-cases (lookup c.sessions key)) [
    | inl e ↦ rw (e, process_queued) unmoved
    | inr (q, e) ↦ elim (Option-cases q.session) [
      | inl f ↦ rw (e, f, process_queued) unmoved
      | inr (s, f) ↦
          rw (e, f, process_queued)
            (at_room-Stays key identity _ (record c { storage = _ }) k r found (_, refl, refl))
    ]
  ]

  finish_session-StaysIn :
      (faults : Faults) (key : Text) (identity : ℕ)
      → StaysIn (finish_session o faults key identity c)
  unfolding finish_session
  finish_session-StaysIn faults key identity = elim (Option-cases (lookup c.sessions key)) [
    | inl e ↦ rw (e, finish_session) unmoved
    | inr (q, e) ↦ elim (Result-cases (initialized o faults c.storage q)) [
      | inl ((s, storage), f) ↦
          rw (e, f, finish_session)
            (at_room-Stays key identity (ready_room s) (record c { storage = storage }) k r found
              (_, refl, refl))
      | inr (m, f) ↦ elim (Bool-cases (key === k)) [
        | inl same ↦ loaded q m f (found-at key (some q) e same)
        | inr other ↦
            rw (e, f, finish_session)
              (rw (at_room-there key identity (λ x. none) c k other) unmoved)
      ]
    ]
  ]
    where
      is_loaded : (q : Room) → q ≡ r → initialized o faults c.storage q ≡ ok (used.0.0, c.storage)
      is_loaded q e = rw (e, used.0.1) refl

      loaded :
          (q : Room) (m : Message)
          → initialized o faults c.storage q ≡ throws m
          → some q ≡ some r
          → StaysIn (finish_session o faults key identity c)
      loaded q m f e =
          impossible (finish_session o faults key identity c) (used.0.0, c.storage) m
            (sym (is_loaded q (same_room q e)) ∙ f)

  abbrev pub IsNoDeletion : RoomEvent → Type 0
  IsNoDeletion (deletion_finished fails key identity) = fails ≡ true
  IsNoDeletion e = Unit

  finish_deletion-StaysIn :
      (key : Text) (identity : ℕ) → StaysIn (finish_deletion true key identity c)
  unfolding finish_deletion
  finish_deletion-StaysIn key identity = elim (Option-cases (lookup c.sessions key)) [
    | inl e ↦ rw (e, finish_deletion) unmoved
    | inr (q, e) ↦ after q e q.eviction refl
  ]
    where
      after :
          (q : Room)
          → lookup c.sessions key ≡ some q
          → (phase : Option Eviction) → q.eviction ≡ phase
          → StaysIn (finish_deletion true key identity c)
      after q e none h = rw (e, h, finish_deletion) unmoved
      after q e (some saving) h = rw (e, h, finish_deletion) unmoved
      after q e (some deleting) h =
          rw (e, h, finish_deletion)
            (at_room-Stays key identity kept_room c k r found
              (record r { eviction = none }, refl, refl))

  -- Whatever part of a method runs next, but for the end of a deletion of data that succeeds, a
  -- room that is loaded and has a connection or a queued operation stays the room of its key.
  pub room_step-Stays :
      (e : RoomEvent) → IsNoDeletion e → Stays r (lookup (room_step o c e).sessions k)
  unfolding room_step acquire release enqueue
  room_step-Stays (entered now t d) h = enter-StaysIn now t d
  room_step-Stays (session_finished faults key i) h =
      if_current-StaysIn key i _ (finish_session-StaysIn faults key i)
  room_step-Stays (room_acquired now key i) h =
      at_room-Stays key i (acquired now) c k r found (_, refl, refl)
  room_step-Stays (room_released now key i) h =
      at_room-Stays key i (released now) c k r found (_, refl, refl)
  room_step-Stays (operation_queued key i) h =
      at_room-Stays key i queued c k r found (_, refl, refl)
  room_step-Stays (operation_processed faults now key i raw) h =
      if_current-StaysIn key i _ (process_queued-StaysIn faults now key i raw)
  room_step-Stays (eviction_started key i) h = start_eviction-StaysIn key i
  room_step-Stays (save_finished faults key i) h =
      if_current-StaysIn key i _ (finish_save-StaysIn faults key i)
  room_step-Stays (deletion_finished fails key i) h =
      if_current-StaysIn key i _ (rw h (finish_deletion-StaysIn key i))
