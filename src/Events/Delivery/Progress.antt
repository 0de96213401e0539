-- ===== src/Events/Delivery/Progress.antt =====
-- When a delivery of src/events/outboxStore.ts succeeds.
use dreamsso.Common.{
  ℕ, zero, suc, ◌+◌, ◌≤◌, ◌<◌, String, Bool, true, false, not, ◌&&◌, Option, some, ◌≡◌, ◌≢◌, refl,
  ap, subst, ◌∙◌, List, [], ◌∷◌, ◌++◌, ltb, leb, take, is_some, if◌then◌else◌, arith, Bool-cases,
  Option-cases, inl, inr, nat_eq, string_eq, list_eq, option_eq, beq_refl, beq_neq,
}
use dreamsso.Events.Outbox.{
  Queue, OutboxRow, Destination, DestinationClaim, EventClient, PendingRow, Uuid, claim,
  claim_leased, renew, settle, with_lease, write_destination, lease_over, lease_ms, pending_rows,
  map_pending, as_pending, batch_max, delivered_outcome,
}
use dreamsso.Events.Intake.{event_bytes_max}
use dreamsso.Events.Delivery.{
  BatchEvent, World, ids_of, outcome_of, is_delivered, send_batch, sign_batch, deliver_batch,
  wire_of, collect, batch_limit, deliver_claimed, deliver_destination, bounded_batch, settle_at,
}

module _ (bytes : List BatchEvent → ℕ) where
  collect-cons :
      (n : ℕ) (b : BatchEvent) (bs : List BatchEvent) (rows : List PendingRow)
      → (es : List BatchEvent) × (collect bytes n (b ∷ bs) rows ≡ b ∷ es)
  unfolding collect
  collect-cons zero b bs rows = (bs, refl)
  collect-cons (suc n) b bs [] = (bs, refl)
  collect-cons (suc n) b bs (row ∷ rows) =
      let (es, run) = collect-cons n b (bs ++ wire_of row ∷ []) rows in
      elim (Bool-cases (not row.due)) [
        | inl late ↦ (bs, ground arith)
        | inr due ↦ elim (Bool-cases (ltb event_bytes_max (bytes ((b ∷ bs) ++ wire_of row ∷ [])))) [
          | inl large ↦ (bs, ground arith)
          | inr fits ↦ (es, ground arith)
        ]
      ]

  collect-first :
      (n : ℕ) (row : PendingRow) (rows : List PendingRow)
      → row.due ≡ true
      → bytes (wire_of row ∷ []) ≤ event_bytes_max
      → collect bytes (suc n) [] (row ∷ rows) ≡ collect bytes n (wire_of row ∷ []) rows
  unfolding collect
  collect-first n row rows due fits = ground arith

  -- The oldest row leads the batch when it is due and fits alone.
  bounded_batch-cons :
      (row : PendingRow) (rows : List PendingRow)
      → row.due ≡ true
      → bytes (wire_of row ∷ []) ≤ event_bytes_max
      → (es : List BatchEvent) × (bounded_batch bytes (row ∷ rows) ≡ wire_of row ∷ es)
  unfolding bounded_batch
  bounded_batch-cons row rows due fits = elim (Bool-cases (ltb 0 row.attempts)) [
    | inl tried ↦
        let (es, run) = collect-cons 0 (wire_of row) [] rows in
        let limit : batch_limit (row ∷ rows) ≡ 1 = ground arith in
        (
          es,
          ap (λ k. collect bytes k [] (row ∷ rows)) limit ∙ collect-first 0 row rows due fits ∙ run,
        )
    | inr first ↦
        let (es, run) = collect-cons 99 (wire_of row) [] rows in
        let limit : batch_limit (row ∷ rows) ≡ 100 = ground arith in
        (
          es,
          ap (λ k. collect bytes k [] (row ∷ rows)) limit
              ∙ collect-first 99 row rows due fits
              ∙ run,
        )
  ]

-- A granted claim, its renewal and its settlement.
module _ (q : Queue) (client uri : String) (token : Uuid) (d : Destination) where
  claim-granted :
      (now clock : ℕ) (row : OutboxRow) (rows : List OutboxRow) (endpoint : EventClient)
      → q.destinations client ≡ some d
      → (leb d.next_attempt_at now && lease_over d clock) ≡ true
      → pending_rows q client ≡ row ∷ rows
      → row.next_attempt_at ≤ now
      → q.clients client ≡ some endpoint
      → ◌≡◌ {A = Queue × Option DestinationClaim} (claim now clock q client token) (
        write_destination q client (with_lease d token clock),
        some (record {
          client_id = client;
          token = token;
          uri = endpoint.events_uri;
          disabled = endpoint.disabled;
          failures = d.failures;
          events = map_pending now (take batch_max (row ∷ rows));
        }),
      )
  unfolding claim claim_leased
  claim-granted now clock row rows endpoint found free oldest due registered = ground arith

  renew-granted :
      (clock until : ℕ) (c : DestinationClaim) (endpoint : EventClient)
      → q.destinations client ≡ some (record d { lease = some (token, until) })
      → c.client_id ≡ client
      → c.token ≡ token
      → clock < until
      → q.clients client ≡ some endpoint
      → endpoint.disabled ≡ false
      → endpoint.events_uri ≡ some uri
      → c.uri ≡ some uri
      → renew clock q c ≡ (write_destination q client (with_lease d token clock), true)
  unfolding renew
  renew-granted clock until c endpoint found same_client same_token running registered serving
        addressed known =
      ground (arith, beq_refl token, beq_refl (some uri))

  settle-granted :
      (now clock until : ℕ) (c : DestinationClaim) (ids : List Uuid)
      → q.destinations client ≡ some (record d { lease = some (token, until) })
      → c.client_id ≡ client
      → c.token ≡ token
      → clock < until
      → (settle now clock q c ids delivered_outcome).1 ≡ true
  unfolding settle
  settle-granted now clock until c ids found same_client same_token running =
      ground (arith, beq_refl token)

gate :
    (renewed : Bool) (q₁ q₂ : Queue) (settled acked : Bool)
    → (if◌then◌else◌ {A = Queue × Bool} (not renewed) (q₁, false) (q₂, settled && acked)).1
      ≡ (renewed && (settled && acked))
gate true q₁ q₂ settled acked = refl
gate false q₁ q₂ settled acked = refl

send_batch-gate :
    (w : World) (q : Queue) (c : DestinationClaim) (uri signed : String) (batch : List BatchEvent)
    (r : Queue × Bool)
    → renew w.timing.renewed q c ≡ r
    → (send_batch w q c uri signed batch).1 ≡ (
        r.1
        && ((settle_at w.timing r.0 c (ids_of batch) (outcome_of c w.jitter (w.send uri signed))).1
            && is_delivered (outcome_of c w.jitter (w.send uri signed))))
unfolding send_batch
send_batch-gate w q c uri signed batch r run =
    subst
      (λ (r : Queue × Bool). (send_batch w q c uri signed batch).1 ≡ (
        r.1
        && ((settle_at w.timing r.0 c (ids_of batch) (outcome_of c w.jitter (w.send uri signed))).1
            && is_delivered (outcome_of c w.jitter (w.send uri signed)))))
      run
      (let made = renew w.timing.renewed q c in
        let outcome = outcome_of c w.jitter (w.send uri signed) in
        let ended = settle_at w.timing made.0 c (ids_of batch) outcome in
        gate made.1 made.0 ended.0 ended.1 (is_delivered outcome))

sign_batch-succeeds :
    (w : World) (q q' : Queue) (c : DestinationClaim) (uri signed : String)
    (batch : List BatchEvent)
    → w.sign c.client_id batch ≡ some signed
    → w.send uri signed ≡ some 204
    → renew w.timing.renewed q c ≡ (q', true)
    → (settle_at w.timing q' c (ids_of batch) delivered_outcome).1 ≡ true
    → (sign_batch w q c uri batch).1 ≡ true
unfolding sign_batch
sign_batch-succeeds w q q' c uri signed batch by_sign by_send renewed settled =
    let answered : outcome_of c w.jitter (w.send uri signed) ≡ delivered_outcome = ground arith in
    let kept : (settle_at w.timing q' c (ids_of batch)
          (outcome_of c w.jitter (w.send uri signed))).1
        ≡ true =
      ap (λ o. (settle_at w.timing q' c (ids_of batch) o).1) answered ∙ settled in
    let acked : is_delivered (outcome_of c w.jitter (w.send uri signed)) ≡ true =
      ap is_delivered answered in
    let sent : (send_batch w q c uri signed batch).1 ≡ true =
      send_batch-gate w q c uri signed batch (q', true) renewed ∙ ground arith in
    ground arith

deliver_batch-succeeds :
    (w : World) (q q' : Queue) (c : DestinationClaim) (uri signed : String) (e : BatchEvent)
    (es : List BatchEvent)
    → c.uri ≡ some uri
    → uri ≢ ""
    → c.disabled ≡ false
    → w.sign c.client_id (e ∷ es) ≡ some signed
    → w.send uri signed ≡ some 204
    → renew w.timing.renewed q c ≡ (q', true)
    → (settle_at w.timing q' c (ids_of (e ∷ es)) delivered_outcome).1 ≡ true
    → (deliver_batch w q c (e ∷ es)).1 ≡ true
unfolding deliver_batch
deliver_batch-succeeds w q q' c uri signed e es addressed filled serving by_sign by_send renewed
      settled =
    let sent = sign_batch-succeeds w q q' c uri signed (e ∷ es) by_sign by_send renewed settled in
    ground (arith, beq_neq uri "" filled)

-- A destination that is due and free, whose oldest event is due and fits, makes progress: when its
-- client is in service, signing succeeds, the client acknowledges with 204 whatever it is sent, and the
-- lease outlives the call, the delivery succeeds.
pub deliver_destination-succeeds :
    (bytes : List BatchEvent → ℕ) (w : World) (q : Queue) (client uri : String) (d : Destination)
    (row : OutboxRow) (rows : List OutboxRow) (endpoint : EventClient)
    → q.destinations client ≡ some d
    → (leb d.next_attempt_at w.timing.claimed.0 && lease_over d w.timing.claimed.1) ≡ true
    → pending_rows q client ≡ row ∷ rows
    → row.next_attempt_at ≤ w.timing.claimed.0
    → q.clients client ≡ some endpoint
    → endpoint.disabled ≡ false
    → endpoint.events_uri ≡ some uri
    → uri ≢ ""
    → bytes (wire_of (as_pending w.timing.claimed.0 row) ∷ []) ≤ event_bytes_max
    → ((batch : List BatchEvent) → is_some (w.sign client batch) ≡ true)
    → ((signed : String) → w.send uri signed ≡ some 204)
    → w.timing.renewed < w.timing.claimed.1 + lease_ms
    → w.timing.settled.1 < w.timing.renewed + lease_ms
    → (deliver_destination bytes w q client).1 ≡ true
unfolding deliver_destination deliver_claimed
deliver_destination-succeeds bytes w q client uri d row rows endpoint found free oldest due
      registered serving addressed filled fits signs sends renews settles =
    let now = w.timing.claimed.0 in
    let q₁ : Queue = write_destination q client (with_lease d w.token w.timing.claimed.1) in
    let c : DestinationClaim = record {
      client_id = client;
      token = w.token;
      uri = endpoint.events_uri;
      disabled = endpoint.disabled;
      failures = d.failures;
      events = map_pending now (take batch_max (row ∷ rows));
    } in
    let granted =
      claim-granted q client uri w.token d now w.timing.claimed.1 row rows endpoint found free
        oldest due registered in
    let (es, batch) =
      bounded_batch-cons bytes (as_pending now row) (map_pending now (take 99 rows)) (ground arith)
        fits in
    let first = wire_of (as_pending now row) in
    let q₂ : Queue = write_destination q₁ client (with_lease d w.token w.timing.renewed) in
    let leased : q₁.destinations client ≡ some (with_lease d w.token w.timing.claimed.1) =
      ground (arith, beq_refl client) in
    let released : q₂.destinations client ≡ some (with_lease d w.token w.timing.renewed) =
      ground (arith, beq_refl client) in
    let renewed =
      renew-granted q₁ client uri w.token d w.timing.renewed (w.timing.claimed.1 + lease_ms) c
        endpoint leased refl refl renews registered serving addressed addressed in
    let settled =
      settle-granted q₂ client uri w.token d w.timing.settled.0 w.timing.settled.1
        (w.timing.renewed + lease_ms) c (ids_of (first ∷ es)) released refl refl settles in
    elim (Option-cases (w.sign client (first ∷ es))) [
      | inl unsigned ↦ let never = signs (first ∷ es) in ground arith
      | inr (signed, by_sign) ↦
          ap (λ (r : Queue × Option DestinationClaim). (deliver_claimed bytes w r.0 r.1).1) granted
          ∙ ap (λ b. (deliver_batch w q₁ c b).1) batch
          ∙ deliver_batch-succeeds w q₁ q₂ c uri signed first es addressed filled serving by_sign
              (sends signed) renewed settled
    ]
