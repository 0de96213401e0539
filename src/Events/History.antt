-- ===== src/Events/History.antt =====
-- How the rows of event_outbox change over any sequence of the operations of
-- src/events/outboxStore.ts: enqueueing, claims, renewals, settlements and the legacy import.
pub mod Rows
mod Tests
use dreamsso.Common.{ℕ, ◌≤◌, String, Bool, Option, some, ◌≡◌, List, [], ◌∷◌}
use dreamsso.Common.Result.{ok}
use dreamsso.Json.{Json}
use dreamsso.Events.Outbox.{
  Uuid, OutboxRow, RowStatus, pending, Queue, DestinationClaim, Settlement, claim, renew, settle,
}
use dreamsso.Events.Intake.{
  OutboundEvent, WireEvent, LegacyEvent, insert_events, insert_legacy_event,
}

-- One operation of some process.
pub data Step (bytes : List WireEvent → ℕ) (stringify : Json → Option String)
    : Queue → Queue → Type 0 where
  inserted :
      (now : ℕ) (q : Queue) (client : String) (events : List (OutboundEvent × String)) (q' : Queue)
      (ids : List String)
      → insert_events bytes stringify now q client events ≡ ok (q', ids)
      → Step bytes stringify q q'
  imported :
      (now : ℕ) (q : Queue) (client : String) (e : LegacyEvent) (q' : Queue) (stored : Bool)
      → insert_legacy_event now q client e ≡ ok (q', stored)
      → Step bytes stringify q q'
  claimed :
      (now clock : ℕ) (q : Queue) (client : String) (token : Uuid)
      → Step bytes stringify q (claim now clock q client token).0
  renewed :
      (clock : ℕ) (q : Queue) (c : DestinationClaim) → Step bytes stringify q (renew clock q c).0
  settled :
      (now clock : ℕ) (q : Queue) (c : DestinationClaim) (ids : List Uuid) (outcome : Settlement)
      → Step bytes stringify q (settle now clock q c ids outcome).0

pub data Steps (bytes : List WireEvent → ℕ) (stringify : Json → Option String)
    : Queue → Queue → Type 0 where
  done : (q : Queue) → Steps bytes stringify q q
  then_step :
      (q q₁ q₂ : Queue)
      → Step bytes stringify q q₁
      → Steps bytes stringify q₁ q₂
      → Steps bytes stringify q q₂

-- A later state of a row: the event is the same, attempts only grow, and a row that was delivered or
-- given up keeps its status.
pub record RowEvolves (r r' : OutboxRow) : Type 0 where
  pub id_kept : r'.id ≡ r.id
  pub kind_kept : r'.kind ≡ r.kind
  pub target_kept : r'.target ≡ r.target
  pub payload_kept : r'.payload ≡ r.payload
  pub version_kept : r'.version ≡ r.version
  pub attempts_grow : r.attempts ≤ r'.attempts
  pub terminal : (s : RowStatus) → r.status ≡ s → (s ≡ pending → ⊥) → r'.status ≡ s

-- Rows keep their places, and new ones follow.
pub RowsEvolve : List OutboxRow → List OutboxRow → Type 0
RowsEvolve [] rows' = Unit
RowsEvolve (r ∷ rows) [] = ⊥
RowsEvolve (r ∷ rows) (r' ∷ rows') = RowEvolves r r' × RowsEvolve rows rows'
