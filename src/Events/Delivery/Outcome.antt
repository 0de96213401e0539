-- ===== src/Events/Delivery/Outcome.antt =====
-- When `deliverDestination` of src/events/outboxStore.ts reports a delivery.
use dreamsso.Common.{
  ℕ, String, Bool, true, false, not, ◌&&◌, ◌||◌, Option, none, some, ◌≡◌, refl, ap, subst, List, [],
  ◌∷◌, ◌==◌, if◌then◌else◌, arith, Bool-cases, Option-cases, inl, inr, nat_eq, string_eq,
}
use dreamsso.Events.Outbox.{Queue, DestinationClaim, delivered_outcome, claim, renew, PendingRow}
use dreamsso.Events.Delivery.{
  BatchEvent, World, ids_of, outcome_of, is_delivered, send_batch, sign_batch, deliver_batch,
  deliver_claimed, deliver_destination, bounded_batch, drop_oversized, settle_at,
}

-- A batch that went out and was acknowledged: signed for its client, sent to the claimed address
-- under a renewed lease, answered with 204, and settled as delivered.
pub record Acknowledged (w : World) (q : Queue) (c : DestinationClaim) (batch : List BatchEvent)
    (q' : Queue) : Type 0 where
  pub uri : String
  pub token : String
  pub renewed_queue : Queue
  pub addressed : c.uri ≡ some uri
  pub in_service : c.disabled ≡ false
  pub signed : w.sign c.client_id batch ≡ some token
  pub renewed : renew w.timing.renewed q c ≡ (renewed_queue, true)
  pub answered : w.send uri token ≡ some 204
  pub settled : settle_at w.timing renewed_queue c (ids_of batch) delivered_outcome ≡ (q', true)

outcome-delivered :
    (c : DestinationClaim) (jitter : ℕ) (answer : Option ℕ)
    → is_delivered (outcome_of c jitter answer) ≡ true
    → (answer ≡ some 204) × (outcome_of c jitter answer ≡ delivered_outcome)
outcome-delivered c jitter none h = ground arith
outcome-delivered c jitter (some status) h = elim (Bool-cases (status == 204)) [
  | inl acked ↦ (ground arith, ground arith)
  | inr refused ↦ ground arith
]

gated :
    (renewed : Bool) (q₁ q₂ : Queue) (settled acked : Bool) (q' : Queue)
    → ◌≡◌ {A = Queue × Bool}
        (if not renewed then (q₁, false) else (q₂, settled && acked))
        (q', true)
    → (renewed ≡ true) × (◌≡◌ {A = Queue × Bool} (q₂, settled) (q', true)) × (acked ≡ true)
gated true q₁ q₂ true true q' h = (refl, h, refl)
gated true q₁ q₂ true false q' h = ground arith
gated true q₁ q₂ false acked q' h = ground arith
gated false q₁ q₂ settled acked q' h = ground arith

send_batch-delivered :
    (w : World) (q : Queue) (c : DestinationClaim) (uri token : String) (batch : List BatchEvent)
    (q' : Queue)
    → send_batch w q c uri token batch ≡ (q', true)
    → (q₁ : Queue) × (renew w.timing.renewed q c ≡ (q₁, true))
      × (w.send uri token ≡ some 204)
      × (settle_at w.timing q₁ c (ids_of batch) delivered_outcome ≡ (q', true))
unfolding send_batch
send_batch-delivered w q c uri token batch q' h =
    let r : Queue × Bool = renew w.timing.renewed q c in
    let outcome = outcome_of c w.jitter (w.send uri token) in
    let s : Queue × Bool = settle_at w.timing r.0 c (ids_of batch) outcome in
    let (held, kept, acked) = gated r.1 r.0 s.0 s.1 (is_delivered outcome) q' h in
    let (answered, settled) = outcome-delivered c w.jitter (w.send uri token) acked in
    (
      r.0,
      ap (λ b. (r.0, b)) held,
      answered,
      subst (λ o. settle_at w.timing r.0 c (ids_of batch) o ≡ (q', true)) settled kept,
    )

sign_batch-delivered :
    (w : World) (q : Queue) (c : DestinationClaim) (uri : String) (batch : List BatchEvent)
    (q' : Queue)
    → c.uri ≡ some uri
    → c.disabled ≡ false
    → sign_batch w q c uri batch ≡ (q', true)
    → Acknowledged w q c batch q'
unfolding sign_batch
sign_batch-delivered w q c uri batch q' addressed serving h =
    elim (Option-cases (w.sign c.client_id batch)) [
      | inl unsigned ↦ ground arith
      | inr (token, signed) ↦
          let (q₁, renewed, answered, settled) =
            send_batch-delivered w q c uri token batch q' (ground arith) in
          record {
            uri = uri;
            token = token;
            renewed_queue = q₁;
            addressed = addressed;
            in_service = serving;
            signed = signed;
            renewed = renewed;
            answered = answered;
            settled = settled;
          }
    ]

drop_oversized-false :
    (w : World) (q : Queue) (c : DestinationClaim) (rows : List PendingRow)
    → (drop_oversized w q c rows).1 ≡ false
drop_oversized-false w q c [] = refl
drop_oversized-false w q c (row ∷ rows) = ground arith

deliver_batch-delivered :
    (w : World) (q : Queue) (c : DestinationClaim) (batch : List BatchEvent) (q' : Queue)
    → deliver_batch w q c batch ≡ (q', true)
    → Acknowledged w q c batch q'
unfolding deliver_batch
deliver_batch-delivered w q c [] q' h = ground (arith, drop_oversized-false w q c c.events)
deliver_batch-delivered w q c (e ∷ es) q' h = elim (Option-cases c.uri) [
  | inl nowhere ↦ ground arith
  | inr (uri, addressed) ↦ elim (Bool-cases (uri == "" || c.disabled)) [
    | inl unavailable ↦ ground arith
    | inr usable ↦
        sign_batch-delivered w q c uri (e ∷ es) q' addressed (ground arith) (ground arith)
  ]
]

-- A delivery is reported only when a claim was granted, its batch was signed and sent to the claimed
-- address of a client in service under a renewed lease, the answer was 204, and the batch was then
-- settled as delivered.
pub deliver_destination-Acknowledged :
    (bytes : List BatchEvent → ℕ) (w : World) (q : Queue) (client : String) (q' : Queue)
    → deliver_destination bytes w q client ≡ (q', true)
    → (q₁ : Queue) × (c : DestinationClaim) × (claim w.timing.claimed.0 w.timing.claimed.1 q client
          w.token
        ≡ (q₁, some c))
      × Acknowledged w q₁ c (bounded_batch bytes c.events) q'
unfolding deliver_destination deliver_claimed
deliver_destination-Acknowledged bytes w q client q' h =
    let r : Queue × Option DestinationClaim =
      claim w.timing.claimed.0 w.timing.claimed.1 q client w.token in
    elim (Option-cases r.1) [
      | inl refused ↦ ground arith
      | inr (c, granted) ↦ (
        r.0,
        c,
        ap (λ o. (r.0, o)) granted,
        deliver_batch-delivered w r.0 c (bounded_batch bytes c.events) q' (ground arith),
      )
    ]
