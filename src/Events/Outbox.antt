-- ===== src/Events/Outbox.antt =====
-- `PostgresOutboxStore` of src/events/outboxStore.ts over the tables event_outbox, whose rows stand
-- in the order of their sequence, event_destinations and oauth_clients. Each operation is one
-- transaction: `now` is the instant at which it started, `clock` the instant of the statement.
pub mod Lease
mod Tests
use dreamsso.Common.{
  ℕ, ◌+◌, String, Bool, true, false, not, ◌&&◌, ◌||◌, Option, none, some, ◌≡◌, ◌↔◌, List, [], ◌∷◌,
  ◌==◌, filter, contains, take, leb, ltb, min, is_some, if◌then◌else◌, arith, Eq, string_eq, nat_eq,
  list_eq, option_eq,
}

abbrev pub batch_max : ℕ
batch_max = 100

abbrev pub max_attempts : ℕ
max_attempts = 50

abbrev pub lease_ms : ℕ
lease_ms = 30000

-- A uuid, as the code points of its lower case text.
abbrev pub Uuid : Type 0
Uuid = List ℕ

pub data RowStatus : Type 0 where
  pending delivered dead : RowStatus

abbrev row_status_beq : RowStatus → RowStatus → Bool
row_status_beq pending pending = true
row_status_beq delivered delivered = true
row_status_beq dead dead = true
row_status_beq _ _ = false

pub row_status_beq_iff : (a b : RowStatus) → (row_status_beq a b ≡ true) ↔ (a ≡ b)
row_status_beq_iff pending b = ground arith
row_status_beq_iff delivered b = ground arith
row_status_beq_iff dead b = ground arith

instance abbrev pub row_status_eq : Eq RowStatus
row_status_eq = record { beq = row_status_beq; beq_iff = row_status_beq_iff }

-- A row of event_outbox; the payload is its JSON text.
pub record OutboxRow : Type 0 where
  pub id : Uuid
  pub kind : String
  pub target : String
  pub payload : String
  pub version : ℕ
  pub status : RowStatus
  pub attempts : ℕ
  pub next_attempt_at : ℕ
  pub last_error : Option String

-- A row of event_destinations; the lease is its token and its end.
pub record Destination : Type 0 where
  pub lease : Option (Uuid × ℕ)
  pub next_attempt_at : ℕ
  pub failures : ℕ

pub record EventClient : Type 0 where
  pub events_uri : Option String
  pub disabled : Bool

pub record Queue : Type 0 where
  pub rows : List OutboxRow
  pub destinations : String → Option Destination
  pub clients : String → Option EventClient

abbrev pub write_destination : Queue → String → Destination → Queue
write_destination q client d = record q {
  destinations = λ c. if client == c then some d else q.destinations c;
}

pub record PendingRow : Type 0 where
  pub id : Uuid
  pub type : String
  pub payload : String
  pub attempts : ℕ
  pub due : Bool

pub record DestinationClaim : Type 0 where
  pub client_id : String
  pub token : Uuid
  pub uri : Option String
  pub disabled : Bool
  pub failures : ℕ
  pub events : List PendingRow

pub data Settlement : Type 0 where
  delivered_outcome : Settlement
  retry : String → ℕ → Settlement
  dead_outcome : String → Settlement

abbrev pub is_pending_for : String → OutboxRow → Bool
is_pending_for client r = r.target == client && r.status == pending

-- `ORDER BY sequence`: the pending rows of a client, oldest first.
abbrev pub pending_rows : Queue → String → List OutboxRow
pending_rows q client = filter (is_pending_for client) q.rows

abbrev pub head_attempt : List OutboxRow → ℕ → ℕ
head_attempt [] now = now
head_attempt (r ∷ rs) now = r.next_attempt_at

-- `lease_token = $2`.
abbrev pub holds_token : Destination → Uuid → Bool
holds_token d token = elim d.lease [ none ↦ false | some (t, until) ↦ t == token ]

-- `lease_token = $2 AND lease_until > clock_timestamp()`.
abbrev pub holds_lease : Destination → Uuid → ℕ → Bool
holds_lease d token clock = elim d.lease [
  | none ↦ false
  | some (t, until) ↦ t == token && ltb clock until
]

-- `lease_until IS NULL OR lease_until <= clock_timestamp()`.
abbrev pub lease_over : Destination → ℕ → Bool
lease_over d clock = elim d.lease [ none ↦ true | some (t, until) ↦ leb until clock ]

unfoldable pub release : ℕ → Queue → String → Uuid → ℕ → Queue
release now q client token failures = elim (q.destinations client) [
  | none ↦ q
  | some d ↦
      if holds_token d token
      then write_destination q client (record {
        lease = none;
        next_attempt_at = head_attempt (pending_rows q client) now;
        failures = failures;
      })
      else q
]

abbrev pub as_pending : ℕ → OutboxRow → PendingRow
as_pending now r = record {
  id = r.id;
  type = r.kind;
  payload = r.payload;
  attempts = r.attempts;
  due = leb r.next_attempt_at now;
}

abbrev pub map_pending : ℕ → List OutboxRow → List PendingRow
map_pending now [] = []
map_pending now (r ∷ rs) = as_pending now r ∷ map_pending now rs

abbrev pub head_due : List PendingRow → Bool
head_due [] = false
head_due (p ∷ ps) = p.due

-- `!client || client.disabled_at !== null`.
abbrev pub out_of_service : Option EventClient → Bool
out_of_service none = true
out_of_service (some c) = c.disabled

abbrev pub uri_of : Option EventClient → Option String
uri_of none = none
uri_of (some c) = c.events_uri

-- The lease is taken first; it is given back when the oldest pending row is not due.
unfoldable pub claim_leased : ℕ → Queue → String → Uuid → ℕ → Queue × Option DestinationClaim
claim_leased now q client token failures =
    let rows = map_pending now (take batch_max (pending_rows q client)) in
    if head_due rows
    then (
      q,
      some (record {
        client_id = client;
        token = token;
        uri = uri_of (q.clients client);
        disabled = out_of_service (q.clients client);
        failures = failures;
        events = rows;
      }),
    )
    else (release now q client token failures, none)

abbrev pub with_lease : Destination → Uuid → ℕ → Destination
with_lease d token clock = record d { lease = some (token, clock + lease_ms) }

unfoldable pub claim : ℕ → ℕ → Queue → String → Uuid → Queue × Option DestinationClaim
claim now clock q client token = elim (q.destinations client) [
  | none ↦ (q, none)
  | some d ↦
      if leb d.next_attempt_at now && lease_over d clock
      then claim_leased now (write_destination q client (with_lease d token clock)) client token
          d.failures
      else (q, none)
]

-- `c.disabled_at IS NULL AND c.events_uri = $4`, where a null uri equals nothing.
abbrev pub endpoint_unchanged : Option EventClient → Option String → Bool
endpoint_unchanged none uri = false
endpoint_unchanged (some c) none = false
endpoint_unchanged (some c) (some u) = not c.disabled && c.events_uri == some u

unfoldable pub renew : ℕ → Queue → DestinationClaim → Queue × Bool
renew clock q c = elim (q.destinations c.client_id) [
  | none ↦ (q, false)
  | some d ↦
      if holds_lease d c.token clock && endpoint_unchanged (q.clients c.client_id) c.uri
      then (write_destination q c.client_id (with_lease d c.token clock), true)
      else (q, false)
]

-- What a settlement does to a pending row of the batch.
unfoldable pub settle_row : ℕ → Settlement → OutboxRow → OutboxRow
settle_row now delivered_outcome r = record r { status = delivered; last_error = none }
settle_row now (dead_outcome code) r = record r { status = dead; last_error = some code }
settle_row now (retry code delay) r = record r {
  attempts = r.attempts + 1;
  status = if leb max_attempts (r.attempts + 1) then dead else pending;
  next_attempt_at = now + delay;
  last_error = some code;
}

abbrev pub is_settled_by : String → List Uuid → OutboxRow → Bool
is_settled_by client ids r = is_pending_for client r && contains ids r.id

unfoldable pub settle_rows : ℕ → String → List Uuid → Settlement → List OutboxRow → List OutboxRow
settle_rows now client ids outcome [] = []
settle_rows now client ids outcome (r ∷ rs) =
    (if is_settled_by client ids r then settle_row now outcome r else r)
    ∷ settle_rows now client ids outcome rs

abbrev pub failures_after : ℕ → Settlement → ℕ
failures_after failures delivered_outcome = 0
failures_after failures (dead_outcome code) = 0
failures_after failures (retry code delay) = min (failures + 1) max_attempts

unfoldable pub settle : ℕ → ℕ → Queue → DestinationClaim → List Uuid → Settlement → Queue × Bool
settle now clock q c ids outcome = elim (q.destinations c.client_id) [
  | none ↦ (q, false)
  | some d ↦
      if holds_lease d c.token clock
      then (
        release now (record q { rows = settle_rows now c.client_id ids outcome q.rows }) c.client_id
            c.token (failures_after c.failures outcome),
        true,
      )
      else (q, false)
]
