-- ===== src/ServerCore/Session/Replay.antt =====
-- How a replay of the log goes on with one more record, and how it goes over a newer snapshot.
use collabhub.Prelude.{
  ◌≤◌, Text, ◌≡◌, refl, Bool, true, false, List, [], ◌∷◌, ◌++◌, arith, ltb, le→ltb, All, ◌===◌,
  Dictionary, insert, if◌then◌else◌,
}
use collabhub.Errors.{Result, ok, throws, ◌>>=◌, bind-ok}
use collabhub.Protocol.Json.{Fields}
use collabhub.Protocol.Messages.{OperationResult}
use collabhub.Strategy.{Committed, DomainPack}
use collabhub.DomainJson.Patches.{apply_canonical_patches}
use collabhub.ServerCore.Storage.{WalRecord}
use collabhub.ServerCore.Session.{Session, replay_record, replay_records, accepted_at}

pub replay_records-append :
    (h : Bool) (stored : Text) (pack : DomainPack) (s : Session) (rs : List WalRecord)
    (r : WalRecord)
    → replay_records h stored pack s (rs ++ r ∷ [])
      ≡ (replay_records h stored pack s rs >>= λ t. replay_record h stored t r pack)
unfolding replay_records
replay_records-append h stored pack s [] r = go (replay_record h stored s r pack)
  where
    go : (m : Result Session) → (m >>= λ t. ok t) ≡ m
    go (ok t) = refl
    go (throws e) = refl
replay_records-append h stored pack s (x ∷ rs) r =
    go (replay_record h stored s x pack) (λ t. replay_records-append h stored pack t rs r)
  where
    go :
        (m : Result Session)
        → ((t : Session)
            → replay_records h stored pack t (rs ++ r ∷ [])
              ≡ (replay_records h stored pack t rs >>= λ t. replay_record h stored t r pack))
        → (m >>= λ t. replay_records h stored pack t (rs ++ r ∷ [])) ≡ (
            (m >>= λ t. replay_records h stored pack t rs) >>= λ t. replay_record h stored t r pack)
    go (ok t) ih = ih t
    go (throws e) ih = refl

-- The session that a record of the next version makes of the one before it.
abbrev pub extended : Session → WalRecord → Fields → Session
extended s r next = record {
  state = next;
  version = r.version;
  results = insert s.results r.operation.operation_id (accepted_at r.operation r.version r.patches);
  operations =
      s.operations ++ record { canonical_version = r.version; operation = r.operation } ∷ [];
}

pub replay_record-next :
    (h : Bool) (stored : Text) (pack : DomainPack) (s : Session) (r : WalRecord) (next : Fields)
    → ltb s.version r.version ≡ true
    → r.operation.schema_version === stored ≡ true
    → r.operation.schema_version === pack.schema_version ≡ true
    → apply_canonical_patches s.state r.patches ≡ ok next
    → replay_record h stored s r pack ≡ ok (extended s r next)
unfolding replay_record
replay_record-next true stored pack s r next newer same same' applies = rw (newer, applies, same')
replay_record-next false stored pack s r next newer same same' applies =
    rw (same, newer, applies, same')

-- What every replayed record adds to the session's memory.
abbrev noted_results : Session → WalRecord → Dictionary OperationResult
noted_results s r =
    insert s.results r.operation.operation_id (accepted_at r.operation r.version r.patches)

abbrev noted_operations : DomainPack → Session → WalRecord → List Committed
noted_operations pack s r =
    if r.operation.schema_version === pack.schema_version
    then s.operations ++ record { canonical_version = r.version; operation = r.operation } ∷ []
    else s.operations

replay_record-notes :
    (h : Bool) (stored : Text) (pack : DomainPack) (a b : Session) (r : WalRecord)
    → replay_record h stored a r pack ≡ ok b
    → (b.results ≡ noted_results a r) × (b.operations ≡ noted_operations pack a r)
unfolding replay_record
replay_record-notes h stored pack a b r e = ground arith

replay_record-old :
    (other : Text) (pack : DomainPack) (c : Session) (r : WalRecord)
    → r.version ≤ c.version
    → replay_record true other c r pack
      ≡ ok (record c { results = noted_results c r; operations = noted_operations pack c r })
unfolding replay_record
replay_record-old other pack c r old = rw (le→ltb c.version r.version old)

-- Records that a later snapshot holds already change neither its state nor its version, and are
-- noted as they were.
pub replay_records-old :
    (h : Bool) (stored other : Text) (pack : DomainPack) (a c b : Session) (rs : List WalRecord)
    → c.results ≡ a.results
    → c.operations ≡ a.operations
    → All (λ (r : WalRecord). r.version ≤ c.version) rs
    → replay_records h stored pack a rs ≡ ok b
    → replay_records true other pack c rs ≡ ok (record b { state = c.state; version = c.version })
unfolding replay_records
replay_records-old h stored other pack a c b [] er eo old e = ground arith
replay_records-old h stored other pack a c b (r ∷ rs) er eo old e =
    let record { value = t; rest = rest; first = et } =
      bind-ok (replay_record h stored a r pack) e in
    let (nr, no') = replay_record-notes h stored pack a t r et in
    rw (replay_record-old other pack c r old.0) (
      replay_records-old h stored other pack t
        (record c { results = noted_results c r; operations = noted_operations pack c r }) b rs
        (ground arith) (ground arith) old.1 rest)
