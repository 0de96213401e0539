-- ===== src/Sync/Inbox/Tests.antt =====
-- Reports and replays on a small store.
use dreamsso.Common.{ℕ, String, none, some, ◌≡◌, refl, ◌==◌, string_eq, nat_eq, if◌then◌else◌, ◌&&◌}
use dreamsso.Common.Result.{ok, err}
use dreamsso.Store.{Store}
use dreamsso.Store.Sample.{sample}
use dreamsso.Rbac.Errors.{fail}
use dreamsso.Sync.Order.{RoleCatalog, EnvelopeTime, assert_envelope_current}
use dreamsso.Sync.Inbox.{IncomingEvent, process_event}
use dreamsso.Sync.Inbox.Replay.{process_event_replay}

abbrev digest : RoleCatalog → ℕ
digest cat = 2

abbrev epoch : String → ℕ
epoch client = 77

abbrev event : IncomingEvent
event = record { id = 9; type = "member.joined"; digest = 5; catalog = none }

abbrev received : Store
received = record sample {
  processed_events = λ c id.
      if c == "videosite" && id == 9
      then some (record { event_type = some "member.joined"; payload_digest = some 4 })
      else none;
}

abbrev time : EnvelopeTime
time = record { iat = 1000; exp = 1300 }

envelope_run : assert_envelope_current time 1005000 ≡ ok tt
unfolding assert_envelope_current
envelope_run = refl

process_event_replay_example :
    process_event digest epoch received "videosite" time event 1005000
    ≡ (if ◌==◌ {A = ℕ} 4 5 then ok received else err (fail 409 "event_identity_conflict"))
process_event_replay_example =
    process_event_replay digest epoch received "videosite" time event 1005000 "member.joined" 4
      envelope_run refl refl
