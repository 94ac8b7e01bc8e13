-- ===== src/Distributed/Worker/Dispatch.antt =====
-- dispatchOutbox of packages/server-distributed/src/worker.ts. What the coordinator's publishEvent and the
-- store's markOutboxDelivered do with an event is a parameter.
use mathlib.Core.List.{Perm}
use mathlib.Core.List.Perm
use collabhub.Prelude.{
  subst, sym, ℕ, zero, suc, ◌*◌, ◌≤◌, Text, ◌≡◌, refl, ◌∙◌, List, [], ◌∷◌, ◌++◌, length, keep, take,
  drop, take-drop, length-drop, All, All-map, arith,
}
use collabhub.Distributed.Rows.{OutboxRow, Database}
use collabhub.Distributed.Database.{is_claimable, claim_rows, claim_outbox, mark_delivered}
use collabhub.Distributed.Database.Outbox.{
  IsNumbered, IsSettled, IsSettled-Perm, delivered_row-IsNumbered, keep-delivered_row,
  delivered_row-IsSettled, claim_rows-take, keep-claim_rows, claim_rows-IsNumbered,
  claim_rows-IsSettled,
}

-- An event is published and marked, published and not marked, or not published.
pub data Delivery : Type 0 where
  delivered unmarked failed : Delivery

abbrev pub after_delivery : ℕ → OutboxRow → Delivery → Database → Database
after_delivery now r delivered db = mark_delivered now r.id db
after_delivery now r _ db = db

abbrev pub published_of : OutboxRow → Delivery → List OutboxRow
published_of r failed = []
published_of r _ = r ∷ []

-- The loop over the claimed items: what is published, and the database
unfoldable pub publish_all :
    ℕ → (OutboxRow → Delivery) → List OutboxRow → Database → List OutboxRow × Database
publish_all now deliver [] db = ([], db)
publish_all now deliver (r ∷ rs) db =
    let rest = publish_all now deliver rs (after_delivery now r (deliver r) db) in
    (published_of r (deliver r) ++ rest.0, rest.1)

-- dispatchOutbox, of a database that returns claimed rows in its order
unfoldable pub dispatch_outbox :
    (List OutboxRow → List OutboxRow)
    → ℕ
    → Text
    → (OutboxRow → Delivery)
    → Database
    → List OutboxRow × Database
dispatch_outbox returning now instance_id deliver db =
    let claimed = claim_outbox returning now instance_id 100 db in
    publish_all now deliver claimed.0 claimed.1

-- The timer's dispatches, one after the other
unfoldable pub dispatch_times :
    ℕ
    → (List OutboxRow → List OutboxRow)
    → ℕ
    → Text
    → (OutboxRow → Delivery)
    → Database
    → List OutboxRow × Database
dispatch_times zero returning now instance_id deliver db = ([], db)
dispatch_times (suc n) returning now instance_id deliver db =
    let first = dispatch_outbox returning now instance_id deliver db in
    let rest = dispatch_times n returning now instance_id deliver first.1 in
    (first.0 ++ rest.0, rest.1)

module _ (now : ℕ) (instance_id : Text) (deliver : OutboxRow → Delivery) where
  abbrev claimable : Database → List OutboxRow
  claimable db = keep (is_claimable now) db.outbox

  -- What a delivery of a claimed row leaves to be claimed, and of its number
  after_delivery-lem :
      (r : OutboxRow) (how : Delivery) (db : Database) (n : ℕ)
      → IsNumbered n db.outbox
      → IsSettled now r.id db.outbox
      → IsNumbered n (after_delivery now r how db).outbox
        × (claimable (after_delivery now r how db) ≡ claimable db)
        × ((id : ℕ)
            → IsSettled now id db.outbox
            → IsSettled now id (after_delivery now r how db).outbox)
  unfolding mark_delivered
  after_delivery-lem r delivered db n numbered settled = (
    delivered_row-IsNumbered now r.id n db.outbox numbered,
    keep-delivered_row now r.id db.outbox settled,
    λ id h. delivered_row-IsSettled now r.id id db.outbox h,
  )
  after_delivery-lem r unmarked db n numbered settled = (numbered, refl, λ id h. h)
  after_delivery-lem r failed db n numbered settled = (numbered, refl, λ id h. h)

  publish_all-lem :
      (rs : List OutboxRow) (db : Database) (n : ℕ)
      → IsNumbered n db.outbox
      → All (λ (r : OutboxRow). IsSettled now r.id db.outbox) rs
      → IsNumbered n (publish_all now deliver rs db).1.outbox
        × (claimable (publish_all now deliver rs db).1 ≡ claimable db)
  unfolding publish_all
  publish_all-lem [] db n numbered settled = (numbered, refl)
  publish_all-lem (r ∷ rs) db n numbered settled =
      let one = after_delivery-lem r (deliver r) db n numbered settled.0 in
      let rest =
        publish_all-lem rs (after_delivery now r (deliver r) db) n one.0
          (All-map (λ q h. one.2 q.id h) rs settled.1) in
      (rest.0, rest.1 ∙ one.1)

  module _ (returning : List OutboxRow → List OutboxRow)
      (reorders : (rs : List OutboxRow) → Perm (returning rs) rs) where
    -- A dispatch leaves to be claimed what is behind the first hundred.
    dispatch_outbox-lem :
        (db : Database) (n : ℕ)
        → IsNumbered n db.outbox
        → IsNumbered n (dispatch_outbox returning now instance_id deliver db).1.outbox
          × (claimable (dispatch_outbox returning now instance_id deliver db).1
              ≡ drop 100 (claimable db))
    unfolding dispatch_outbox claim_outbox
    dispatch_outbox-lem db n numbered =
        let claimed = claim_rows now instance_id 100 db.outbox in
        let all =
          publish_all-lem (returning claimed.0) (record db { outbox = claimed.1 }) n
            (claim_rows-IsNumbered now instance_id 100 n db.outbox numbered)
            (IsSettled-Perm now claimed.1 (Perm.symm (reorders claimed.0))
              (claim_rows-IsSettled now instance_id 100 n db.outbox numbered)) in
        (all.0, all.1 ∙ keep-claim_rows now instance_id 100 db.outbox)

    module _ (reliable : (r : OutboxRow) → ¬ (deliver r ≡ failed)) where
      published_of-reliable :
          (r : OutboxRow) (how : Delivery) → ¬ (how ≡ failed) → published_of r how ≡ r ∷ []
      published_of-reliable r delivered h = refl
      published_of-reliable r unmarked h = refl
      published_of-reliable r failed h = absurd (h refl)

      publish_all-all :
          (rs : List OutboxRow) (db : Database) → (publish_all now deliver rs db).0 ≡ rs
      unfolding publish_all
      publish_all-all [] db = refl
      publish_all-all (r ∷ rs) db =
          rw
            (
              published_of-reliable r (deliver r) (reliable r),
              publish_all-all rs (after_delivery now r (deliver r) db),
            )
            refl

      dispatch_outbox-take :
          (db : Database)
          → Perm (dispatch_outbox returning now instance_id deliver db).0 (take 100 (claimable db))
      unfolding dispatch_outbox claim_outbox
      dispatch_outbox-take db =
          let claimed = (claim_rows now instance_id 100 db.outbox).0 in
          subst (λ rs. Perm rs (take 100 (claimable db)))
            (sym (publish_all-all (returning claimed) _))
            (subst (λ rs. Perm (returning claimed) rs)
              (claim_rows-take now instance_id 100 db.outbox) (reorders claimed))

      no_more : (xs : List OutboxRow) → length xs ≤ 0 → [] ≡ xs
      no_more [] h = refl
      no_more (x ∷ xs) h = absurd (omega (arith, h))

      -- While the coordinator takes every event, dispatches at one time publish each event that may be
      -- claimed by then, and each once, if they are as many as a hundred events each call for; of an
      -- outbox whose ids grow, and in whatever order the database returns what a dispatch has claimed.
      pub dispatch_times-publishes :
          (times : ℕ) (db : Database) (n : ℕ)
          → IsNumbered n db.outbox
          → length (keep (is_claimable now) db.outbox) ≤ times * 100
          → Perm
              (dispatch_times times returning now instance_id deliver db).0
              (keep (is_claimable now) db.outbox)
      unfolding dispatch_times
      dispatch_times-publishes zero db n numbered enough =
          subst (λ rs. Perm [] rs)
            (no_more (keep (is_claimable now) db.outbox) (omega (arith, enough))) Perm.nil
      dispatch_times-publishes (suc times) db n numbered enough =
          let one = dispatch_outbox-lem db n numbered in
          let rest =
            dispatch_times-publishes times (dispatch_outbox returning now instance_id deliver db).1
              n one.0 (rw one.1 (omega (arith, length-drop 100 (claimable db), enough))) in
          let first = dispatch_outbox returning now instance_id deliver db in
          let others = (dispatch_times times returning now instance_id deliver first.1).0 in
          subst (λ rs. Perm (first.0 ++ others) rs) (take-drop 100 (claimable db))
            (Perm.append (dispatch_outbox-take db) (subst (λ rs. Perm others rs) one.1 rest))
