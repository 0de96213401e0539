-- ===== src/Events/Intake.antt =====
-- The producers' side of src/events/outboxStore.ts: `insertEvents` and `insertLegacyEvent`.
-- `bytes` stands for `eventBytes` (JSON.stringify and Buffer.byteLength) and `stringify` for
-- JSON.stringify with its throw, in the normal form of jsonb; `random` is the uuid that crypto.randomUUID would return.
pub mod Stored
pub mod Tests
use dreamsso.Common.{
  ℕ, zero, suc, ◌+◌, ◌-◌, ◌*◌, String, Bool, true, false, not, ◌&&◌, ◌||◌, Option, none, some, List,
  [], ◌∷◌, ◌++◌, ◌==◌, map, find?, length, leb, ltb, all, get_or, if◌then◌else◌, string_eq, nat_eq,
  list_eq,
}
use dreamsso.Common.Text.{codes, utf16_length, is_digit}
use dreamsso.Common.Result.{Result, ok, err, ◌>>=◌, ◌>>◌, fail_if, or_fail}
use dreamsso.Json.{Json, object}
use dreamsso.Events.Outbox.{
  Uuid, RowStatus, pending, dead, OutboxRow, Destination, Queue, write_destination, row_status_eq,
}

abbrev pub event_bytes_max : ℕ
event_bytes_max = 65536

abbrev pub max_bigint : ℕ
max_bigint = 9223372036854775807

pub record WireEvent : Type 0 where
  pub id : String
  pub type : String
  pub payload : String

pub record OutboundEvent : Type 0 where
  pub type : String
  pub payload : Json
  pub version : Option String
  pub id : Option String

pub record NormalizedEvent : Type 0 where
  pub wire : WireEvent
  pub version : ℕ

abbrev pub lower : ℕ → ℕ
lower c = if leb b'A' c && leb c b'Z' then c + 32 else c

unfoldable pub is_hex : ℕ → Bool
is_hex c = is_digit c || (leb b'a' (lower c) && leb (lower c) b'f')

-- The uuid column's value of a uuid's text.
abbrev pub uuid_of : String → Uuid
uuid_of s = map lower (codes s)

-- A text of groups of hexadecimal digits of the given sizes, with a dash between them.
abbrev pub is_grouped : List ℕ → List ℕ → Bool
unfolding is_hex
is_grouped [] cs = false
is_grouped (zero ∷ []) [] = true
is_grouped (zero ∷ []) (c ∷ cs) = false
is_grouped (zero ∷ n ∷ ns) [] = false
is_grouped (zero ∷ n ∷ ns) (c ∷ cs) = c == b'-' && is_grouped (n ∷ ns) cs
is_grouped (suc n ∷ ns) [] = false
is_grouped (suc n ∷ ns) (c ∷ cs) = is_hex c && is_grouped (n ∷ ns) cs

unfoldable pub is_uuid : String → Bool
is_uuid s = is_grouped (8 ∷ 4 ∷ 4 ∷ 4 ∷ 12 ∷ []) (codes s)

abbrev digits_value : ℕ → List ℕ → ℕ
digits_value n [] = n
digits_value n (c ∷ cs) = digits_value (n * 10 + (c - b'0')) cs

-- `/^(0|[1-9][0-9]{0,18})$/`, no more than a bigint.
abbrev version_value : List ℕ → Option ℕ
version_value [] = none
version_value (c ∷ cs) =
    let value = digits_value 0 (c ∷ cs) in
    if c == b'0'
    then (if leb (length cs) 0 then some 0 else none)
    else if is_digit c && all is_digit cs && leb (length cs) 18 && leb value max_bigint
    then some value
    else none

pub parse_version : String → Option ℕ
parse_version s = version_value (codes s)

abbrev is_object : Json → Bool
is_object (object fs) = true
is_object _ = false

abbrev is_type : String → Bool
is_type s = not (s == "") && leb (utf16_length s) 200

pub new_row : String → NormalizedEvent → ℕ → OutboxRow
new_row client e now = record {
  id = uuid_of e.wire.id;
  kind = e.wire.type;
  target = client;
  payload = e.wire.payload;
  version = e.version;
  status = pending;
  attempts = 0;
  next_attempt_at = now;
  last_error = none;
}

-- `id = $1 AND kind = $2 AND target_client_id = $3 AND payload = $4 AND version = $5`.
pub is_stored_as : String → NormalizedEvent → OutboxRow → Bool
is_stored_as client e r =
    r.id == uuid_of e.wire.id
    && r.kind == e.wire.type
    && r.target == client
    && r.payload == e.wire.payload
    && r.version == e.version

pub insert_row : ℕ → String → List OutboxRow → NormalizedEvent → Result String (List OutboxRow)
insert_row now client rows e = elim (find? (λ r. r.id == uuid_of e.wire.id) rows) [
  | none ↦ ok (rows ++ new_row client e now ∷ [])
  | some r ↦ if is_stored_as client e r then ok rows else err "event_id_conflict"
]

pub insert_rows :
    ℕ → String → List OutboxRow → List NormalizedEvent → Result String (List OutboxRow)
insert_rows now client rows [] = ok rows
insert_rows now client rows (e ∷ es) = do
  rows' ← insert_row now client rows e
  insert_rows now client rows' es

-- `INSERT INTO event_destinations ... ON CONFLICT DO NOTHING`; the row lock has no effect here.
unfoldable pub lock_destination : ℕ → Queue → String → Queue
lock_destination now q client = elim (q.destinations client) [
  | some d ↦ q
  | none ↦ write_destination q client (record { lease = none; next_attempt_at = now; failures = 0 })
]

abbrev pub lock_if_any : ℕ → Queue → String → List NormalizedEvent → Queue
lock_if_any now q client [] = q
lock_if_any now q client (e ∷ es) = lock_destination now q client

module _ (bytes : List WireEvent → ℕ) (stringify : Json → Option String) where
  pub normalized_event : OutboundEvent → String → Result String NormalizedEvent
  normalized_event event random = do
    let id = get_or event.id random
    fail_if (not (is_uuid id) || not (is_type event.type) || not (is_object event.payload))
        "invalid_event"
    version ← or_fail (parse_version (get_or event.version "0")) "invalid_event"
    payload ← or_fail (stringify event.payload) "invalid_event"
    let wire : WireEvent = record { id = id; type = event.type; payload = payload }
    fail_if (ltb event_bytes_max (bytes (wire ∷ []))) "event_too_large"
    ok (record { wire = wire; version = version })

  pub normalized_events : List (OutboundEvent × String) → Result String (List NormalizedEvent)
  normalized_events [] = ok []
  normalized_events ((event, random) ∷ rest) = do
    e ← normalized_event event random
    es ← normalized_events rest
    ok (e ∷ es)

  pub insert_events :
      ℕ → Queue → String → List (OutboundEvent × String) → Result String (Queue × List String)
  insert_events now q client events = do
    es ← normalized_events events
    let locked = lock_if_any now q client es
    rows ← insert_rows now client locked.rows es
    ok (record locked { rows = rows }, map (λ e. e.wire.id) es)

pub record LegacyEvent : Type 0 where
  pub wire : WireEvent
  pub attempts : ℕ
  pub due_at : ℕ

abbrev legacy_row : String → LegacyEvent → Bool → OutboxRow
legacy_row client e replaced = record {
  id = uuid_of e.wire.id;
  kind = e.wire.type;
  target = client;
  payload = e.wire.payload;
  version = 0;
  status = if replaced then dead else pending;
  attempts = e.attempts;
  next_attempt_at = e.due_at;
  last_error = if replaced then some "legacy_role_replaced" else none;
}

abbrev pub is_legacy_copy : String → LegacyEvent → OutboxRow → Bool
is_legacy_copy client e r =
    r.id == uuid_of e.wire.id
    && r.kind == e.wire.type
    && r.target == client
    && r.payload == e.wire.payload

-- `UPDATE event_outbox SET status = 'dead' ... WHERE id = $1`, where id is the primary key.
unfoldable pub retire_row : Uuid → List OutboxRow → List OutboxRow
retire_row id [] = []
retire_row id (r ∷ rs) =
    let rest = retire_row id rs in
    if r.id == id
    then record r { status = dead; last_error = some "legacy_role_replaced" } ∷ rs
    else r ∷ rest

unfoldable pub import_over :
    String → LegacyEvent → Queue → Option OutboxRow → Result String (Queue × Bool)
import_over client e locked none = ok (
  record locked {
    rows = locked.rows ++ legacy_row client e (e.wire.type == "account.roles_change") ∷ [];
  },
  true,
)
import_over client e locked (some r) =
    if is_legacy_copy client e r
    then (if e.wire.type == "account.roles_change" && r.status == pending
        then ok (record locked { rows = retire_row (uuid_of e.wire.id) locked.rows }, true)
        else ok (locked, false))
    else err "legacy_id_conflict"

-- The import of an earlier queue's event; the columns that keep its bytes are left out.
unfoldable pub insert_legacy_event : ℕ → Queue → String → LegacyEvent → Result String (Queue × Bool)
insert_legacy_event now q client e =
    let locked = lock_destination now q client in
    import_over client e locked (find? (λ r. r.id == uuid_of e.wire.id) locked.rows)
