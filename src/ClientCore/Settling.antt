-- ===== src/ClientCore/Settling.antt =====
-- How often a submission of the client in packages/client-core/src/index.ts is pending or settled,
-- and how the edits of the pending operations and the methods that settle none change that.
pub mod Moves
pub mod Promises
pub mod Accounts
use collabhub.Prelude.{
  ℕ, ◌+◌, ◌≡◌, refl, Text, Bool, true, false, not, ◌&&◌, ◌||◌, Option, none, some, List, [], ◌∷◌,
  ◌++◌, map, ltb, leb, ◌==◌, any, ◌===◌, find, arith, if◌then◌else◌, Bool-cases, Option-cases, inl,
  inr,
}
use collabhub.Errors.{Result, ok, throws, Result-cases}
use collabhub.Protocol.Messages.{Operation, Patch, ClientMessage}
use collabhub.ClientCore.State.{
  ready, Mutation, PendingOperation, Settled, ClientOptions, Client, is_open, is_online, mark_sent,
  of_operation, update_first, remove_first, waiting_result, settled_by, left_by, send,
  persist_mutation, request_recovery, flush, project, Run, reproject, PersistedOperation,
}
use collabhub.ClientCore.Handlers.{then_flush, filled, is_full, submit_operation}
use collabhub.ClientCore.Events.{
  Token, token, no_token, connect, open_socket, socket_opened, send_hello, socket_closed, reconnect,
  set_network_available, retry_due, unsent_again, restore_entries, restore_pending,
}

-- How many of the pending operations are of a key, and how many of the settled ones.
unfoldable pub pending_of : ℕ → List PendingOperation → ℕ
pending_of k [] = 0
pending_of k (p ∷ ps) = (if p.key == k then 1 else 0) + pending_of k ps

unfoldable pub settled_of : ℕ → List Settled → ℕ
settled_of k [] = 0
settled_of k (s ∷ ss) = (if s.key == k then 1 else 0) + settled_of k ss

pub settled_of-append :
    (k : ℕ) (ss ts : List Settled) → settled_of k (ss ++ ts) ≡ settled_of k ss + settled_of k ts
unfolding settled_of
settled_of-append k [] ts = omega arith
settled_of-append k (s ∷ ss) ts = ground (arith, settled_of-append k ss ts)

pub pending_of-append :
    (k : ℕ) (ps qs : List PendingOperation)
    → pending_of k (ps ++ qs) ≡ pending_of k ps + pending_of k qs
unfolding pending_of
pending_of-append k [] qs = omega arith
pending_of-append k (p ∷ ps) qs = ground (arith, pending_of-append k ps qs)

pub pending_of-map :
    (k : ℕ) (f : PendingOperation → PendingOperation) (ps : List PendingOperation)
    → ((p : PendingOperation) → (f p).key ≡ p.key)
    → pending_of k (map f ps) ≡ pending_of k ps
unfolding pending_of
pending_of-map k f [] same = refl
pending_of-map k f (p ∷ ps) same = rw (same p, pending_of-map k f ps same) refl

pub pending_of-update_first :
    (k : ℕ) (id : Text) (f : PendingOperation → PendingOperation) (ps : List PendingOperation)
    → ((p : PendingOperation) → (f p).key ≡ p.key)
    → pending_of k (update_first id f ps) ≡ pending_of k ps
unfolding pending_of update_first
pending_of-update_first k id f [] same = refl
pending_of-update_first k id f (p ∷ ps) same = elim (Bool-cases (of_operation id p)) [
  | inl e ↦ rw (e, same p) refl
  | inr e ↦ rw (e, pending_of-update_first k id f ps same) refl
]

-- The first operation of an id leaves the list when it is removed, and no other.
pub pending_of-remove_first :
    (k : ℕ) (id : Text) (ps : List PendingOperation) (p : PendingOperation)
    → find (of_operation id) ps ≡ some p
    → pending_of k ps ≡ (if p.key == k then 1 else 0) + pending_of k (remove_first id ps)
unfolding pending_of remove_first find
pending_of-remove_first k id [] p h = cc
pending_of-remove_first k id (q ∷ ps) p h = elim (Bool-cases (of_operation id q)) [
  | inl e ↦ rw (e, found (rw e at h)) refl
  | inr e ↦ rw e (ground (arith, pending_of-remove_first k id ps p (rw e at h)))
]
  where
    found : some q ≡ some p → q ≡ p
    found e = cc

-- A snapshot settles a pending operation or leaves it.
pub pending_of-left_by :
    (k version : ℕ) (ps : List PendingOperation)
    → pending_of k (left_by version ps) + settled_of k (settled_by version ps) ≡ pending_of k ps
unfolding pending_of settled_of left_by settled_by
pending_of-left_by k version [] = refl
pending_of-left_by k version (p ∷ ps) = elim (Option-cases (waiting_result version p)) [
  | inl e ↦ rw (e, left_by, settled_by) (ground (arith, pending_of-left_by k version ps))
  | inr (r, e) ↦ rw (e, left_by, settled_by) (ground (arith, pending_of-left_by k version ps))
]

-- A key below `next_key` is that of one submission, which is pending or settled; a later key is of none.
abbrev pub IsAccounted {ℓ} : {S : Type ℓ} → ℕ → Client S → Type 0
IsAccounted k c =
    pending_of k c.pending + settled_of k c.settled ≡ (if ltb k c.next_key then 1 else 0)

module _ {ℓ} {S : Type ℓ} (o : ClientOptions S) (k : ℕ) where
  abbrev Accounted : Client S → Type 0
  Accounted = IsAccounted k

  pub send-IsAccounted : (m : ClientMessage) (c : Client S) → Accounted c → Accounted (send o m c)
  unfolding send
  send-IsAccounted m c h = ground arith

  pub persist_mutation-IsAccounted :
      (m : Mutation) (c : Client S) → Accounted c → Accounted (persist_mutation o m c)
  unfolding persist_mutation
  persist_mutation-IsAccounted m c h = ground arith

  pub marked-IsAccounted :
      (f : PendingOperation → PendingOperation) (c : Client S)
      → ((p : PendingOperation) → (f p).key ≡ p.key)
      → Accounted c
      → Accounted (record c { pending = map f c.pending })
  marked-IsAccounted f c same h = rw (pending_of-map k f c.pending same) h

  pub flush-IsAccounted : (c : Client S) → Accounted c → Accounted (flush o c)
  unfolding flush
  flush-IsAccounted c h = elim (Bool-cases (is_open c.socket && is_online c.connection)) [
    | inl e ↦ rw (e, flush) (marked-IsAccounted (mark_sent true) c (λ p. refl) h)
    | inr e ↦ rw (e, flush) h
  ]

  pub reproject-IsAccounted : (c : Client S) → Accounted c → Accounted (reproject o c).client
  unfolding reproject
  reproject-IsAccounted c h = elim (Option-cases c.canonical) [
    | inl e ↦ rw (e, reproject) h
    | inr (s, e) ↦ elim (Result-cases (project o s c.pending)) [
      | inl (p, f) ↦ rw (e, f, reproject) h
      | inr (m, f) ↦ rw (e, f, reproject) h
    ]
  ]

  pub then_flush-IsAccounted : (r : Run S) → Accounted r.client → Accounted (then_flush o r).client
  then_flush-IsAccounted r h = elim (Option-cases r.failure) [
    | inl e ↦ rw e (flush-IsAccounted _ h)
    | inr (m, e) ↦ rw e h
  ]

  pub connect-IsAccounted : (c : Client S) → Accounted c → Accounted (connect o c)
  unfolding connect
  connect-IsAccounted c h = ground arith

  pub open_socket-IsAccounted : (c : Client S) → Accounted c → Accounted (open_socket o c)
  unfolding open_socket
  open_socket-IsAccounted c h = ground arith

  pub socket_opened-IsAccounted : (c : Client S) → Accounted c → Accounted (socket_opened o c)
  unfolding socket_opened
  socket_opened-IsAccounted c h = ground arith

  pub reconnect-IsAccounted : (c : Client S) → Accounted c → Accounted (reconnect o c)
  unfolding reconnect
  reconnect-IsAccounted c h = elim (Bool-cases c.reconnect_timer) [
    | inl e ↦ rw (e, reconnect) (connect-IsAccounted _ h)
    | inr e ↦ rw (e, reconnect) h
  ]

  pub network-IsAccounted :
      (b : Bool) (c : Client S) → Accounted c → Accounted (set_network_available o b c)
  unfolding set_network_available
  network-IsAccounted false c h = h
  network-IsAccounted true c h = elim (Bool-cases c.manually_closed) [
    | inl e ↦ rw (e, set_network_available) h
    | inr e ↦ rw (e, set_network_available) (connect-IsAccounted _ h)
  ]

  pub retry_due-IsAccounted : (key : ℕ) (c : Client S) → Accounted c → Accounted (retry_due o key c)
  unfolding retry_due
  retry_due-IsAccounted key c h =
      elim (Bool-cases (any (λ (p : PendingOperation). p.key == key) c.pending)) [
        | inl e ↦
            rw (e, retry_due)
              (flush-IsAccounted _ (marked-IsAccounted (unsent_again o key) c keeps_key h))
        | inr e ↦ rw (e, retry_due) h
      ]
    where
      keeps_key : (p : PendingOperation) → (unsent_again o key p).key ≡ p.key
      keeps_key p = ground arith
