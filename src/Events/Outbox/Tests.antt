-- ===== src/Events/Outbox/Tests.antt =====
-- The lease theorems on a queue of one event.
use dreamsso.Common.{
  true, false, none, some, ◌≡◌, refl, [], ◌∷◌, if◌then◌else◌, ◌==◌, string_eq, nat_eq, list_eq,
  arith,
}
use dreamsso.Events.Outbox.{Queue, OutboxRow, DestinationClaim, pending, claim, claim_leased}
use dreamsso.Events.Outbox.Lease.{claim_exclusive}

abbrev event : OutboxRow
event = record {
  id = 1 ∷ [];
  kind = "account.roles_change";
  target = "videosite";
  payload = "{}";
  version = 0;
  status = pending;
  attempts = 0;
  next_attempt_at = 1000;
  last_error = none;
}

abbrev queue : Queue
queue = record {
  rows = event ∷ [];
  destinations = λ c.
      if c == "videosite"
      then some (record { lease = none; next_attempt_at = 1000; failures = 0 })
      else none;
  clients = λ c.
      if c == "videosite"
      then some (record { events_uri = some "https://video.example/events"; disabled = false })
      else none;
}

abbrev leased : Queue
leased = (claim 2000 2000 queue "videosite" (7 ∷ [])).0

abbrev granted : DestinationClaim
granted = record {
  client_id = "videosite";
  token = 7 ∷ [];
  uri = some "https://video.example/events";
  disabled = false;
  failures = 0;
  events =
      record {
        id = 1 ∷ [];
        type = "account.roles_change";
        payload = "{}";
        attempts = 0;
        due = true;
      }
      ∷ [];
}

claim_run : claim 2000 2000 queue "videosite" (7 ∷ []) ≡ (leased, some granted)
unfolding claim claim_leased
claim_run = refl

claim_exclusive_example : claim 31000 31999 leased "videosite" (8 ∷ []) ≡ (leased, none)
claim_exclusive_example =
    claim_exclusive 2000 2000 queue "videosite" (7 ∷ []) leased granted claim_run 31000 31999
      (8 ∷ []) (omega arith)

abbrev late : DestinationClaim
late = record granted { token = 6 ∷ [] }
