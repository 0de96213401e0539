-- ===== src/Events/History/Rows.antt =====
-- The rows of event_outbox under the operations of src/events/outboxStore.ts.
use dreamsso.Common.{
  ℕ, ◌≤◌, String, Bool, true, false, ◌&&◌, Option, none, some, ◌≡◌, refl, sym, ap, subst, ◌∙◌, List,
  [], ◌∷◌, ◌++◌, ◌==◌, if◌then◌else◌, arith, Bool-cases, Option-cases, inl, inr, nat_eq, string_eq,
  list_eq, find?, take,
}
use dreamsso.Common.Result.{ok, ok-injective}
use dreamsso.Json.{Json}
use dreamsso.Events.Outbox.{
  Uuid, OutboxRow, pending, dead, Queue, DestinationClaim, Settlement, delivered_outcome, retry,
  dead_outcome, claim, claim_leased, renew, settle, settle_row, settle_rows, is_settled_by,
  row_status_eq, release, write_destination, with_lease, holds_lease, failures_after,
  row_status_beq_iff, map_pending, pending_rows, head_due, batch_max,
}
use dreamsso.Events.Intake.{
  WireEvent, LegacyEvent, insert_legacy_event, import_over, retire_row, lock_destination,
  is_legacy_copy, uuid_of,
}
use dreamsso.Events.Intake.Stored.{Appends, insert_events-IsStored}
use dreamsso.Events.History.{
  Step, inserted, imported, claimed, renewed, settled, Steps, done, then_step, RowEvolves,
  RowsEvolve,
}

RowEvolves-refl : (r : OutboxRow) → RowEvolves r r
RowEvolves-refl r = record {
  id_kept = refl;
  kind_kept = refl;
  target_kept = refl;
  payload_kept = refl;
  version_kept = refl;
  attempts_grow = omega arith;
  terminal = λ s e f. e;
}

RowEvolves-trans : (a b c : OutboxRow) → RowEvolves a b → RowEvolves b c → RowEvolves a c
RowEvolves-trans a b c h k = record {
  id_kept = k.id_kept ∙ h.id_kept;
  kind_kept = k.kind_kept ∙ h.kind_kept;
  target_kept = k.target_kept ∙ h.target_kept;
  payload_kept = k.payload_kept ∙ h.payload_kept;
  version_kept = k.version_kept ∙ h.version_kept;
  attempts_grow = omega (arith, h.attempts_grow, k.attempts_grow);
  terminal = λ s e f. k.terminal s (h.terminal s e f) f;
}

RowsEvolve-refl : (rows : List OutboxRow) → RowsEvolve rows rows
unfolding RowsEvolve
RowsEvolve-refl [] = tt
RowsEvolve-refl (r ∷ rows) = (RowEvolves-refl r, RowsEvolve-refl rows)

RowsEvolve-append : (rows more : List OutboxRow) → RowsEvolve rows (rows ++ more)
unfolding RowsEvolve
RowsEvolve-append [] more = tt
RowsEvolve-append (r ∷ rows) more = (RowEvolves-refl r, RowsEvolve-append rows more)

RowsEvolve-trans :
    (xs ys zs : List OutboxRow) → RowsEvolve xs ys → RowsEvolve ys zs → RowsEvolve xs zs
unfolding RowsEvolve
RowsEvolve-trans [] ys zs h k = tt
RowsEvolve-trans (x ∷ xs) [] zs h k = absurd h
RowsEvolve-trans (x ∷ xs) (y ∷ ys) [] h k = absurd k
RowsEvolve-trans (x ∷ xs) (y ∷ ys) (z ∷ zs) h k =
    (RowEvolves-trans x y z h.0 k.0, RowsEvolve-trans xs ys zs h.1 k.1)

RowsEvolve-Appends : (rows rows' : List OutboxRow) → Appends rows rows' → RowsEvolve rows rows'
unfolding Appends
RowsEvolve-Appends rows rows' (more, e) =
    subst (RowsEvolve rows) (sym e) (RowsEvolve-append rows more)

-- A change of a pending row that keeps the event evolves it.
pending_evolves :
    (r r' : OutboxRow)
    → r.status ≡ pending
    → r'.id ≡ r.id
    → r'.kind ≡ r.kind
    → r'.target ≡ r.target
    → r'.payload ≡ r.payload
    → r'.version ≡ r.version
    → r.attempts ≤ r'.attempts
    → RowEvolves r r'
pending_evolves r r' waiting i k t p v grow = record {
  id_kept = i;
  kind_kept = k;
  target_kept = t;
  payload_kept = p;
  version_kept = v;
  attempts_grow = grow;
  terminal = λ s e f. absurd (f (sym e ∙ waiting));
}

settle_row-RowEvolves :
    (now : ℕ) (outcome : Settlement) (r : OutboxRow)
    → r.status ≡ pending
    → RowEvolves r (settle_row now outcome r)
unfolding settle_row
settle_row-RowEvolves now delivered_outcome r h =
    pending_evolves r _ h refl refl refl refl refl (omega arith)
settle_row-RowEvolves now (dead_outcome code) r h =
    pending_evolves r _ h refl refl refl refl refl (omega arith)
settle_row-RowEvolves now (retry code delay) r h =
    pending_evolves r _ h refl refl refl refl refl (omega arith)

choose :
    (test : Bool) (r r' : OutboxRow)
    → (test ≡ true → RowEvolves r r')
    → RowEvolves r (if test then r' else r)
choose true r r' h = h refl
choose false r r' h = RowEvolves-refl r

settle_rows-Evolve :
    (now : ℕ) (client : String) (ids : List Uuid) (outcome : Settlement) (rows : List OutboxRow)
    → RowsEvolve rows (settle_rows now client ids outcome rows)
unfolding settle_rows RowsEvolve
settle_rows-Evolve now client ids outcome [] = tt
settle_rows-Evolve now client ids outcome (r ∷ rows) = (
  choose (is_settled_by client ids r) r (settle_row now outcome r) (λ test.
      settle_row-RowEvolves now outcome r ((row_status_beq_iff r.status pending).0 (ground arith))),
  settle_rows-Evolve now client ids outcome rows,
)

release-rows :
    (now : ℕ) (q : Queue) (client : String) (token : Uuid) (failures : ℕ)
    → (release now q client token failures).rows ≡ q.rows
unfolding release
release-rows now q client token failures = elim (Option-cases (q.destinations client)) [
  | inl missing ↦ ground arith
  | inr (d, found) ↦ ground arith
]

claim_leased-rows :
    (now : ℕ) (q : Queue) (client : String) (token : Uuid) (failures : ℕ)
    → (claim_leased now q client token failures).0.rows ≡ q.rows
unfolding claim_leased
claim_leased-rows now q client token failures =
    elim (Bool-cases (head_due (map_pending now (take batch_max (pending_rows q client))))) [
      | inl due ↦ ground arith
      | inr late ↦ ground (arith, release-rows now q client token failures)
    ]

claim-rows :
    (now clock : ℕ) (q : Queue) (client : String) (token : Uuid)
    → (claim now clock q client token).0.rows ≡ q.rows
unfolding claim
claim-rows now clock q client token = elim (Option-cases (q.destinations client)) [
  | inl missing ↦ ground arith
  | inr (d, found) ↦ ground (
    arith,
    claim_leased-rows now (write_destination q client (with_lease d token clock)) client token
        d.failures,
  )
]

renew-rows : (clock : ℕ) (q : Queue) (c : DestinationClaim) → (renew clock q c).0.rows ≡ q.rows
unfolding renew
renew-rows clock q c = elim (Option-cases (q.destinations c.client_id)) [
  | inl missing ↦ ground arith
  | inr (d, found) ↦ ground arith
]

settle-Evolve :
    (now clock : ℕ) (q : Queue) (c : DestinationClaim) (ids : List Uuid) (outcome : Settlement)
    → RowsEvolve q.rows (settle now clock q c ids outcome).0.rows
unfolding settle
settle-Evolve now clock q c ids outcome =
    let after : List OutboxRow = (settle now clock q c ids outcome).0.rows in
    elim (Option-cases (q.destinations c.client_id)) [
      | inl missing ↦
          let run : after ≡ q.rows = ground arith in
          subst (RowsEvolve q.rows) (sym run) (RowsEvolve-refl q.rows)
      | inr (d, found) ↦ elim (Bool-cases (holds_lease d c.token clock)) [
        | inr lost ↦
            let run : after ≡ q.rows = ground arith in
            subst (RowsEvolve q.rows) (sym run) (RowsEvolve-refl q.rows)
        | inl held ↦
            let kept =
              release-rows now (record q { rows = settle_rows now c.client_id ids outcome q.rows })
                c.client_id c.token (failures_after c.failures outcome) in
            let run : after ≡ settle_rows now c.client_id ids outcome q.rows = ground arith in
            subst (RowsEvolve q.rows) (sym run)
              (settle_rows-Evolve now c.client_id ids outcome q.rows)
      ]
    ]

retire_row-Evolve :
    (id : Uuid) (rows : List OutboxRow) (r : OutboxRow)
    → find? (λ x. x.id == id) rows ≡ some r
    → r.status ≡ pending
    → RowsEvolve rows (retire_row id rows)
unfolding retire_row RowsEvolve
retire_row-Evolve id [] r h waiting = tt
retire_row-Evolve id (x ∷ rows) r h waiting = elim (Bool-cases (x.id == id)) [
  | inl here ↦
      let same : x ≡ r = ground arith in
      let run : retire_row id (x ∷ rows)
          ≡ record x { status = dead; last_error = some "legacy_role_replaced" } ∷ rows =
        ground arith in
      subst (RowsEvolve (x ∷ rows)) (sym run) (
        pending_evolves x _ (ap (λ y. y.status) same ∙ waiting) refl refl refl refl refl
            (omega arith),
        RowsEvolve-refl rows,
      )
  | inr later ↦
      let run : retire_row id (x ∷ rows) ≡ x ∷ retire_row id rows = ground arith in
      subst (RowsEvolve (x ∷ rows)) (sym run)
        (RowEvolves-refl x, retire_row-Evolve id rows r (ground arith) waiting)
]

lock_destination-rows :
    (now : ℕ) (q : Queue) (client : String) → (lock_destination now q client).rows ≡ q.rows
unfolding lock_destination
lock_destination-rows now q client = elim (Option-cases (q.destinations client)) [
  | inl missing ↦ ground arith
  | inr (d, found) ↦ ground arith
]

import-Evolve :
    (client : String) (e : LegacyEvent) (locked : Queue) (found : Option OutboxRow) (q' : Queue)
    (stored : Bool)
    → find? (λ r. r.id == uuid_of e.wire.id) locked.rows ≡ found
    → import_over client e locked found ≡ ok (q', stored)
    → RowsEvolve locked.rows q'.rows
unfolding import_over
import-Evolve client e locked none q' stored f h =
    subst (λ p. RowsEvolve locked.rows p.0.rows) (ok-injective h) (RowsEvolve-append locked.rows _)
import-Evolve client e locked (some r) q' stored f h =
    elim (Bool-cases (is_legacy_copy client e r)) [
      | inr differs ↦ ground arith
      | inl copy ↦
          elim (Bool-cases (e.wire.type == "account.roles_change" && r.status == pending)) [
            | inl stale ↦
                let run : import_over client e locked (some r)
                    ≡ ok (
                      record locked { rows = retire_row (uuid_of e.wire.id) locked.rows },
                      true,
                    ) =
                  ground arith in
                subst (λ p. RowsEvolve locked.rows p.0.rows) (ok-injective (sym run ∙ h))
                  (retire_row-Evolve (uuid_of e.wire.id) locked.rows r f
                    ((row_status_beq_iff r.status pending).0 (ground arith)))
            | inr kept ↦
                let run : import_over client e locked (some r) ≡ ok (locked, false) =
                  ground arith in
                subst (λ p. RowsEvolve locked.rows p.0.rows) (ok-injective (sym run ∙ h))
                  (RowsEvolve-refl locked.rows)
          ]
    ]

insert_legacy_event-Evolve :
    (now : ℕ) (q : Queue) (client : String) (e : LegacyEvent) (q' : Queue) (stored : Bool)
    → insert_legacy_event now q client e ≡ ok (q', stored)
    → RowsEvolve q.rows q'.rows
unfolding insert_legacy_event
insert_legacy_event-Evolve now q client e q' stored h =
    subst (λ rows. RowsEvolve rows q'.rows) (lock_destination-rows now q client)
      (import-Evolve client e (lock_destination now q client) _ q' stored refl h)

module _ (bytes : List WireEvent → ℕ) (stringify : Json → Option String) where
  Step-Evolve : (q q' : Queue) → Step bytes stringify q q' → RowsEvolve q.rows q'.rows
  Step-Evolve _ _ (inserted now q client events q' ids h) =
      let (grown, stored, names) =
        insert_events-IsStored bytes stringify now q client events q' ids h in
      RowsEvolve-Appends q.rows q'.rows grown
  Step-Evolve _ _ (imported now q client e q' stored h) =
      insert_legacy_event-Evolve now q client e q' stored h
  Step-Evolve _ _ (claimed now clock q client token) =
      subst (RowsEvolve q.rows) (sym (claim-rows now clock q client token)) (RowsEvolve-refl q.rows)
  Step-Evolve _ _ (renewed clock q c) =
      subst (RowsEvolve q.rows) (sym (renew-rows clock q c)) (RowsEvolve-refl q.rows)
  Step-Evolve _ _ (settled now clock q c ids outcome) = settle-Evolve now clock q c ids outcome

  -- Over any sequence of operations every row keeps its place and its event, its attempts only grow,
  -- and a row that was delivered or given up stays so.
  pub steps-RowsEvolve : (q q' : Queue) → Steps bytes stringify q q' → RowsEvolve q.rows q'.rows
  steps-RowsEvolve _ _ (done q) = RowsEvolve-refl q.rows
  steps-RowsEvolve _ _ (then_step q q₁ q₂ s rest) =
      RowsEvolve-trans q.rows q₁.rows q₂.rows (Step-Evolve q q₁ s) (steps-RowsEvolve q₁ q₂ rest)
