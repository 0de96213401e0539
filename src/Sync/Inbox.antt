-- ===== src/Sync/Inbox.antt =====
-- `processIncomingEvents` of src/backchannel/rolesSync.ts: a verified envelope's events, in order.
-- `payload_digest` stands for `inboxDigest`. Each event carries the instant at which its turn comes.
pub mod Replay
mod Tests
use dreamsso.Common.{
  ℕ, String, Bool, true, false, not, ◌&&◌, ◌||◌, Option, none, some, List, [], ◌∷◌, ◌==◌, is_some,
  if◌then◌else◌, nat_eq, string_eq, option_eq,
}
use dreamsso.Common.Result.{Result, ok, err, ◌>>=◌, ◌>>◌, fail_if, or_fail}
use dreamsso.Store.{Store, RoleSyncState, OauthClient, Receipt, legacy, revisioned, write₂}
use dreamsso.Rbac.Errors.{RoleError, fail}
use dreamsso.Rbac.Changes.{ensure_role_sync_state}
use dreamsso.Sync.Order.{
  RoleCatalog, CatalogOrder, apply, same, stale, EnvelopeTime, assert_envelope_current,
}
use dreamsso.Sync.Catalog.{apply_catalog, is_legacy}

pub record IncomingEvent : Type 0 where
  pub id : ℕ
  pub type : String
  pub digest : ℕ
  pub catalog : Option RoleCatalog

-- A revisioned client must name its epoch.
pub check_epoch : RoleSyncState → RoleCatalog → Result RoleError (Unit {0})
check_epoch state cat =
    if is_legacy state.catalog_mode
    then ok tt
    else or_fail cat.version (fail 409 "catalog_revision_required") >>= λ v.
        fail_if (not (state.catalog_epoch == some v.0)) (fail 409 "catalog_epoch_conflict")

-- Receipts from before an upgrade bind neither type nor content.
abbrev pub historical : Option Receipt → Bool
historical none = false
historical (some r) = not (is_some r.event_type) && not (is_some r.payload_digest)

-- A sender without revisions may recompose its report under a stable id.
abbrev pub legacy_mutable : Option RoleCatalog → Option Receipt → Bool
legacy_mutable none prior = false
legacy_mutable (some cat) none = false
legacy_mutable (some cat) (some r) =
    not (is_some cat.version) && r.event_type == some "roles.sync" && is_some r.payload_digest

abbrev pub bound_to : Option Receipt → ℕ → Bool
bound_to none digest = false
bound_to (some r) digest = r.payload_digest == some digest

abbrev pub needs_repair : Option RoleSyncState → Bool
needs_repair none = false
needs_repair (some state) = not (is_some state.catalog_digest)

pub write_receipt : Store → String → IncomingEvent → Store
write_receipt db client event = record db {
  processed_events =
      write₂ client event.id
        (some (record { event_type = some event.type; payload_digest = some event.digest }))
        db.processed_events;
}

module _ (digest : RoleCatalog → ℕ) (new_epoch : String → ℕ) where
  pub prepare :
      Store → String → Option RoleCatalog → Result RoleError (Store × Option RoleSyncState)
  prepare db client none = ok (db, none)
  prepare db client (some cat) = do
    (db', state) ← ensure_role_sync_state new_epoch db client
    check_epoch state cat
    ok (db', some state)

  -- An event with a report always has a state, from `prepare`.
  abbrev apply_event :
      Store
      → String
      → ℕ
      → Option RoleCatalog
      → Option RoleSyncState
      → Result RoleError (Store × Option CatalogOrder)
  apply_event db client iat none state = ok (db, none)
  apply_event db client iat (some cat) none = ok (db, none)
  apply_event db client iat (some cat) (some state) =
      apply_catalog digest new_epoch db client iat cat state >>= λ r. ok (r.0, some r.1)

  abbrev is_stale : Option CatalogOrder → Bool
  is_stale (some stale) = true
  is_stale _ = false

  pub accept_event :
      Store
      → String
      → ℕ
      → IncomingEvent
      → Option Receipt
      → Option RoleSyncState
      → Result RoleError Store
  accept_event db client iat event prior state = do
    fail_if (is_some prior && not (historical prior) && not (legacy_mutable event.catalog prior))
        (fail 409 "event_identity_conflict")
    (db', order) ← apply_event db client iat event.catalog state
    ok (if historical prior && is_stale order then db' else write_receipt db' client event)

  pub process_event : Store → String → EnvelopeTime → IncomingEvent → ℕ → Result RoleError Store
  process_event db client time event now = do
    assert_envelope_current time now
    let prior = db.processed_events client event.id
    (db', state) ← prepare db client event.catalog
    let accepted = accept_event db' client time.iat event prior state
    if bound_to prior event.digest && not (needs_repair state) then ok db' else accepted

  pub process_events :
      Store → String → EnvelopeTime → List (IncomingEvent × ℕ) → Result RoleError Store
  process_events db client time [] = ok db
  process_events db client time ((event, now) ∷ rest) = do
    db' ← process_event db client time event now
    process_events db' client time rest

  abbrev enabled : Option OauthClient → Bool
  enabled none = false
  enabled (some c) = not c.disabled

  -- The envelope must be current before, at each event, and after.
  pub process_incoming_events :
      Store → String → EnvelopeTime → ℕ → List (IncomingEvent × ℕ) → ℕ → Result RoleError Store
  process_incoming_events db client time start events end = do
    assert_envelope_current time start
    fail_if (not (enabled (db.oauth_clients client))) (fail 401 "unknown_client")
    db' ← process_events db client time events
    assert_envelope_current time end
    ok db'
