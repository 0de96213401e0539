-- ===== src/Events/Delivery.antt =====
-- The delivery of src/events/outboxStore.ts: `boundedBatch`, `backoffMs`, `deliverDestination` and
-- `drainDestination`. What signs and sends is a parameter: no token when `sign` throws, no status
-- when `send` throws. The store's transactions happen at the instants that a `Timing` names.
pub mod Batch
pub mod Outcome
pub mod Progress
mod Tests
use dreamsso.Common.{
  ℕ, zero, suc, ◌+◌, ◌-◌, ◌*◌, ◌^◌, String, Bool, true, false, not, ◌&&◌, ◌||◌, Option, none, some,
  List, [], ◌∷◌, ◌++◌, ◌==◌, map, ltb, min, if◌then◌else◌, nat_eq, string_eq, get_or,
}
use dreamsso.Events.Outbox.{
  Uuid, batch_max, PendingRow, DestinationClaim, Settlement, delivered_outcome, retry, dead_outcome,
  Queue, claim, renew, settle,
}
use dreamsso.Events.Intake.{event_bytes_max}

-- A claimed event on the wire.
pub record BatchEvent : Type 0 where
  pub id : Uuid
  pub type : String
  pub payload : String

abbrev pub wire_of : PendingRow → BatchEvent
wire_of row = record { id = row.id; type = row.type; payload = row.payload }

-- `jitter` stands for `Math.floor(random() * 15_000)`.
pub backoff_ms : ℕ → ℕ → ℕ
backoff_ms failures jitter = min (60000 * 2 ^ min (failures - 1) 6) 3600000 + jitter

-- The oldest row alone, once it has been attempted.
abbrev pub batch_limit : List PendingRow → ℕ
batch_limit [] = batch_max
batch_limit (row ∷ rows) = if ltb 0 row.attempts then 1 else batch_max

module _ (bytes : List BatchEvent → ℕ) where
  pub collect : ℕ → List BatchEvent → List PendingRow → List BatchEvent
  collect zero batch rows = batch
  collect (suc n) batch [] = batch
  collect (suc n) batch (row ∷ rows) =
      let longer = batch ++ wire_of row ∷ [] in
      let rest = collect n longer rows in
      if not row.due then batch else if ltb event_bytes_max (bytes longer) then batch else rest

  pub bounded_batch : List PendingRow → List BatchEvent
  bounded_batch rows = collect (batch_limit rows) [] rows

-- The instants of one delivery: (now, clock) of the claim, the clock of the renewal, and (now, clock)
-- of the settlement.
pub record Timing : Type 0 where
  pub claimed : ℕ × ℕ
  pub renewed : ℕ
  pub settled : ℕ × ℕ

-- What the outside world does in one delivery.
pub record World : Type 0 where
  pub token : Uuid
  pub timing : Timing
  pub sign : String → List BatchEvent → Option String
  pub send : String → String → Option ℕ
  pub jitter : ℕ

abbrev pub settle_at : Timing → Queue → DestinationClaim → List Uuid → Settlement → Queue × Bool
settle_at t q c ids outcome = settle t.settled.0 t.settled.1 q c ids outcome

abbrev pub ids_of : List BatchEvent → List Uuid
ids_of [] = []
ids_of (e ∷ es) = e.id ∷ ids_of es

abbrev pub outcome_of : DestinationClaim → ℕ → Option ℕ → Settlement
outcome_of c jitter none = retry "delivery_failed" (backoff_ms (c.failures + 1) jitter)
outcome_of c jitter (some status) =
    if status == 204
    then delivered_outcome
    else retry "http_rejected" (backoff_ms (c.failures + 1) jitter)

abbrev pub is_delivered : Settlement → Bool
is_delivered delivered_outcome = true
is_delivered _ = false

-- `deps.report?.('lease_lost')` has no effect on the queue.
pub send_batch : World → Queue → DestinationClaim → String → String → List BatchEvent → Queue × Bool
send_batch w q c uri token batch =
    let (q', renewed) = renew w.timing.renewed q c in
    let outcome = outcome_of c w.jitter (w.send uri token) in
    let (q'', settled) = settle_at w.timing q' c (ids_of batch) outcome in
    if not renewed then (q', false) else (q'', settled && is_delivered outcome)

pub sign_batch : World → Queue → DestinationClaim → String → List BatchEvent → Queue × Bool
sign_batch w q c uri batch = elim (w.sign c.client_id batch) [
  | none ↦
      let failed = retry "signing_failed" (backoff_ms (c.failures + 1) w.jitter) in
      ((settle_at w.timing q c (ids_of batch) failed).0, false)
  | some token ↦ send_batch w q c uri token batch
]

-- The oldest row is too large when it is due and still makes no batch.
abbrev pub drop_oversized : World → Queue → DestinationClaim → List PendingRow → Queue × Bool
drop_oversized w q c [] = (q, false)
drop_oversized w q c (row ∷ rows) =
    if row.due
    then ((settle_at w.timing q c (row.id ∷ []) (dead_outcome "event_too_large")).0, false)
    else (q, false)

pub deliver_batch : World → Queue → DestinationClaim → List BatchEvent → Queue × Bool
deliver_batch w q c [] = drop_oversized w q c c.events
deliver_batch w q c (e ∷ es) =
    let unavailable : Queue × Bool = (
      (settle_at w.timing q c (ids_of (e ∷ es)) (dead_outcome "destination_unavailable")).0,
      false,
    ) in
    elim c.uri [
      | none ↦ unavailable
      | some uri ↦ if uri == "" || c.disabled then unavailable else sign_batch w q c uri (e ∷ es)
    ]

module _ (bytes : List BatchEvent → ℕ) where
  pub deliver_claimed : World → Queue → Option DestinationClaim → Queue × Bool
  deliver_claimed w q none = (q, false)
  deliver_claimed w q (some c) = deliver_batch w q c (bounded_batch bytes c.events)

  pub deliver_destination : World → Queue → String → Queue × Bool
  deliver_destination w q client =
      let (q', c) = claim w.timing.claimed.0 w.timing.claimed.1 q client w.token in
      deliver_claimed w q' c

  abbrev pub success_claims_per_pass : ℕ
  success_claims_per_pass = 8

  -- One world for each pass of the loop; `stopping` before each.
  pub drain : ℕ → List (Bool × World) → Queue → String → Queue
  drain zero ws q client = q
  drain (suc n) [] q client = q
  drain (suc n) ((stopping, w) ∷ ws) q client =
      let (q', more) = deliver_destination w q client in
      let rest = drain n ws q' client in if stopping then q else if more then rest else q'

  pub drain_destination : List (Bool × World) → Queue → String → Queue
  drain_destination ws q client = drain success_claims_per_pass ws q client
