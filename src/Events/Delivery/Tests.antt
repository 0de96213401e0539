-- ===== src/Events/Delivery/Tests.antt =====
-- The delivery theorems on a queue of one event.
use dreamsso.Common.{
  ℕ, Bool, true, false, none, some, ◌≡◌, ◌⊎◌, refl, List, [], ◌∷◌, if◌then◌else◌, ◌==◌, string_eq,
  nat_eq, list_eq, length, ◌*◌, neq_beq, arith,
}
use dreamsso.Events.Outbox.{
  Queue, OutboxRow, DestinationClaim, PendingRow, pending, claim, claim_leased, renew, settle,
  settle_rows, settle_row, release,
}
use dreamsso.Events.Delivery.{
  BatchEvent, World, bounded_batch, collect, deliver_destination, deliver_claimed, deliver_batch,
  sign_batch, send_batch,
}
use dreamsso.Events.Delivery.Batch.{IsBatch, IsFirstTry, IsRetry, bounded_batch-IsBatch}
use dreamsso.Events.Delivery.Progress.{deliver_destination-succeeds}
use dreamsso.Events.Delivery.Outcome.{Acknowledged, deliver_destination-Acknowledged}

abbrev event : OutboxRow
event = record {
  id = 1 ∷ [];
  kind = "account.roles_change";
  target = "videosite";
  payload = "{}";
  version = 0;
  status = pending;
  attempts = 0;
  next_attempt_at = 1000;
  last_error = none;
}

abbrev queue : Queue
queue = record {
  rows = event ∷ [];
  destinations = λ c.
      if c == "videosite"
      then some (record { lease = none; next_attempt_at = 1000; failures = 0 })
      else none;
  clients = λ c.
      if c == "videosite"
      then some (record { events_uri = some "https://video.example/events"; disabled = false })
      else none;
}

abbrev size : List BatchEvent → ℕ
size batch = 100 * length batch

abbrev world : World
world = record {
  token = 7 ∷ [];
  timing = record { claimed = (2000, 2000); renewed = 2100; settled = (2200, 2200) };
  sign = λ client batch. some "signed";
  send = λ uri token. some 204;
  jitter = 0;
}

abbrev row : ℕ → Bool → PendingRow
row attempts due = record {
  id = 1 ∷ [];
  type = "t";
  payload = "{}";
  attempts = attempts;
  due = due;
}

abbrev retried : List PendingRow
retried = row 3 true ∷ row 0 true ∷ row 0 false ∷ []

bounded_batch-IsBatch_example :
    (IsFirstTry retried × IsBatch size 100 [] retried (bounded_batch size retried))
    ⊎ (IsRetry retried × IsBatch size 1 [] retried (bounded_batch size retried))
bounded_batch-IsBatch_example = bounded_batch-IsBatch size retried

abbrev after : Queue
after = (deliver_destination size world queue "videosite").0

delivery_run : deliver_destination size world queue "videosite" ≡ (after, true)
unfolding deliver_destination deliver_claimed deliver_batch sign_batch send_batch bounded_batch
    collect claim claim_leased renew settle settle_rows settle_row release
delivery_run = refl

deliver_destination-Acknowledged_example :
    (q₁ : Queue) × (c : DestinationClaim) × (claim 2000 2000 queue "videosite" (7 ∷ [])
      ≡ (q₁, some c))
    × Acknowledged world q₁ c (bounded_batch size c.events) after
deliver_destination-Acknowledged_example =
    deliver_destination-Acknowledged size world queue "videosite" after delivery_run

deliver_destination-succeeds_example : (deliver_destination size world queue "videosite").1 ≡ true
deliver_destination-succeeds_example =
    deliver_destination-succeeds size world queue "videosite" "https://video.example/events"
      (record { lease = none; next_attempt_at = 1000; failures = 0 }) event []
      (record { events_uri = some "https://video.example/events"; disabled = false }) refl refl refl
      (omega arith) refl refl refl (neq_beq "https://video.example/events" "" refl) (omega arith)
      (λ batch. refl) (λ signed. refl) (omega arith) (omega arith)
