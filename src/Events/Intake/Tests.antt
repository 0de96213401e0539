-- ===== src/Events/Intake/Tests.antt =====
-- The enqueueing of one event.
use dreamsso.Common.{ℕ, String, Option, none, some, ◌≡◌, refl, List, [], ◌∷◌, map, All, get_or}
use dreamsso.Common.Text.{utf16_length}
use dreamsso.Common.Result.{ok}
use dreamsso.Json.{Json, object, end}
use dreamsso.Events.Outbox.{Queue}
use dreamsso.Events.Intake.{
  OutboundEvent, NormalizedEvent, WireEvent, insert_events, normalized_events, normalized_event,
  insert_rows, insert_row, new_row, is_uuid, is_hex, lock_destination, parse_version,
}
use dreamsso.Events.Intake.Stored.{Appends, IsStored, insert_events-IsStored}

abbrev pub empty_queue : Queue
empty_queue = record { rows = []; destinations = λ c. none; clients = λ c. none }

abbrev pub size : List WireEvent → ℕ
size es = 200

abbrev pub to_text : Json → Option String
to_text j = some "{}"

abbrev pub events : List (OutboundEvent × String)
events =
    (
      record {
        type = "account.roles_change";
        payload = object end;
        version = some "12";
        id = none;
      },
      "0b9d1e0a-7c1f-4E5e-8c55-27a0f0d1c2b3",
    )
    ∷ []

abbrev pub ids : List String
ids = "0b9d1e0a-7c1f-4E5e-8c55-27a0f0d1c2b3" ∷ []

abbrev row : NormalizedEvent
row = record {
  wire = record {
    id = "0b9d1e0a-7c1f-4E5e-8c55-27a0f0d1c2b3";
    type = "account.roles_change";
    payload = "{}";
  };
  version = 12;
}

abbrev pub filled : Queue
unfolding new_row
filled = record empty_queue {
  rows = new_row "videosite" row 500 ∷ [];
  destinations = (lock_destination 500 empty_queue "videosite").destinations;
}

pub insert_run : insert_events size to_text 500 empty_queue "videosite" events ≡ ok (filled, ids)
unfolding filled insert_events normalized_events normalized_event insert_rows insert_row is_uuid
    is_hex lock_destination parse_version utf16_length
insert_run = refl

insert_events-IsStored_example :
    Appends empty_queue.rows filled.rows
    × All (IsStored to_text filled.rows "videosite") events
    × (ids ≡ map (λ given. get_or given.0.id given.1) events)
insert_events-IsStored_example =
    insert_events-IsStored size to_text 500 empty_queue "videosite" events filled ids insert_run
