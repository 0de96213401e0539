-- ===== src/Sync/Inbox/Replay.antt =====
-- The immutability of an event's identity in src/backchannel/rolesSync.ts.
use dreamsso.Common.{
  ℕ, String, none, some, ◌≡◌, ◌==◌, if◌then◌else◌, arith, nat_eq, string_eq, option_eq,
}
use dreamsso.Common.Result.{ok, err}
use dreamsso.Store.{Store}
use dreamsso.Rbac.Errors.{fail}
use dreamsso.Sync.Order.{RoleCatalog, EnvelopeTime, assert_envelope_current}
use dreamsso.Sync.Inbox.{IncomingEvent, process_event, prepare, accept_event}

-- An event other than a report, whose id has a receipt with a type and a digest, is a replay without
-- any effect when its digest is the receipt's, and is refused as a conflict when it is another.
pub process_event_replay :
    (digest : RoleCatalog → ℕ) (new_epoch : String → ℕ) (db : Store) (client : String)
    (time : EnvelopeTime) (event : IncomingEvent) (now : ℕ) (kind : String) (stored : ℕ)
    → assert_envelope_current time now ≡ ok tt
    → event.catalog ≡ none
    → db.processed_events client event.id
      ≡ some (record { event_type = some kind; payload_digest = some stored })
    → process_event digest new_epoch db client time event now
      ≡ (if stored == event.digest then ok db else err (fail 409 "event_identity_conflict"))
unfolding process_event prepare accept_event
process_event_replay digest new_epoch db client time event now kind stored current plain bound =
    ground arith
