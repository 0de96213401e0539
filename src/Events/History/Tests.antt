-- ===== src/Events/History/Tests.antt =====
-- An event that is enqueued, claimed and given up.
use dreamsso.Common.{none, true, [], ◌∷◌}
use dreamsso.Events.Outbox.{Queue, DestinationClaim, claim, settle, retry}
use dreamsso.Events.Intake.Tests.{size, to_text, empty_queue, events, ids, filled, insert_run}
use dreamsso.Events.History.{Steps, done, then_step, inserted, claimed, settled, RowsEvolve}
use dreamsso.Events.History.Rows.{steps-RowsEvolve}

abbrev claimed_queue : Queue
claimed_queue = (claim 600 600 filled "videosite" (7 ∷ [])).0

abbrev held : DestinationClaim
held = record {
  client_id = "videosite";
  token = 7 ∷ [];
  uri = none;
  disabled = true;
  failures = 0;
  events = [];
}

abbrev settled_queue : Queue
settled_queue = (settle 700 700 claimed_queue held ((1 ∷ []) ∷ []) (retry "http_rejected" 60000)).0

abbrev run : Steps size to_text filled settled_queue
run = then_step filled claimed_queue settled_queue (claimed 600 600 filled "videosite" (7 ∷ [])) (
    then_step claimed_queue settled_queue settled_queue
      (settled 700 700 claimed_queue held ((1 ∷ []) ∷ []) (retry "http_rejected" 60000))
      (done settled_queue))

steps-RowsEvolve_example : RowsEvolve empty_queue.rows settled_queue.rows
steps-RowsEvolve_example = steps-RowsEvolve size to_text empty_queue settled_queue (
    then_step empty_queue filled settled_queue
      (inserted 500 empty_queue "videosite" events filled ids insert_run) run)
