-- ===== src/Events/Outbox/Lease.antt =====
-- The leases of src/events/outboxStore.ts: one owner at a time.
use dreamsso.Common.{
  ℕ, ◌+◌, ◌≤◌, ◌<◌, String, true, false, ◌&&◌, none, some, ◌≡◌, List, ◌==◌, leb, arith, string_eq,
  nat_eq, list_eq, beq_refl, Option-cases, inl, inr, Bool-cases, take,
}
use dreamsso.Events.Outbox.{
  Uuid, Queue, Destination, DestinationClaim, Settlement, lease_ms, claim, claim_leased, with_lease,
  write_destination, renew, settle, lease_over, map_pending, pending_rows, head_due, batch_max,
}

-- A claim that was granted leaves its token on the destination for `lease_ms`, and its oldest event
-- is due.
pub record Granted (q' : Queue) (client : String) (token : Uuid) (clock : ℕ) (c : DestinationClaim)
    : Type 0 where
  pub destination : Destination
  pub leased : q'.destinations client ≡ some (with_lease destination token clock)
  pub same_client : c.client_id ≡ client
  pub same_token : c.token ≡ token
  pub head : head_due c.events ≡ true

claim_leased-Granted :
    (now clock : ℕ) (q : Queue) (client : String) (token : Uuid) (d : Destination) (q' : Queue)
    (c : DestinationClaim)
    → claim_leased now
        (write_destination q client (with_lease d token clock))
        client
        token
        d.failures
      ≡ (q', some c)
    → Granted q' client token clock c
unfolding claim_leased
claim_leased-Granted now clock q client token d q' c h =
    elim (Bool-cases (head_due (map_pending now (take batch_max (pending_rows q client))))) [
      | inr late ↦ ground arith
      | inl due ↦ record {
        destination = d;
        leased = ground (arith, beq_refl client);
        same_client = ground arith;
        same_token = ground arith;
        head = ground arith;
      }
    ]

claim-Granted :
    (now clock : ℕ) (q : Queue) (client : String) (token : Uuid) (q' : Queue) (c : DestinationClaim)
    → claim now clock q client token ≡ (q', some c)
    → Granted q' client token clock c
unfolding claim
claim-Granted now clock q client token q' c h = elim (Option-cases (q.destinations client)) [
  | inl missing ↦ ground arith
  | inr (d, found) ↦ elim (Bool-cases (leb d.next_attempt_at now && lease_over d clock)) [
    | inr busy ↦ ground arith
    | inl free ↦ claim_leased-Granted now clock q client token d q' c (ground arith)
  ]
]

-- While a granted lease runs, no other claim of the destination is granted or changes anything.
pub claim_exclusive :
    (now clock : ℕ) (q : Queue) (client : String) (token : Uuid) (q' : Queue) (c : DestinationClaim)
    → claim now clock q client token ≡ (q', some c)
    → (now' later : ℕ) (other : Uuid) → later < clock + lease_ms
    → claim now' later q' client other ≡ (q', none)
unfolding claim
claim_exclusive now clock q client token q' c h now' later other running =
    let leased = (claim-Granted now clock q client token q' c h).leased in ground arith

-- After a claim was granted, no settlement of that destination under another token takes effect.
settle_fenced :
    (now clock : ℕ) (q : Queue) (client : String) (token : Uuid) (q' : Queue) (c : DestinationClaim)
    → claim now clock q client token ≡ (q', some c)
    → (now' later : ℕ) (late : DestinationClaim) (ids : List Uuid) (outcome : Settlement)
    → late.client_id ≡ client
    → (token == late.token) ≡ false
    → settle now' later q' late ids outcome ≡ (q', false)
unfolding settle
settle_fenced now clock q client token q' c h now' later late ids outcome same differs =
    let leased = (claim-Granted now clock q client token q' c h).leased in ground arith

-- A lease that has run out cannot be revived or settled by the claim that held it.
lease_expired :
    (now clock : ℕ) (q : Queue) (client : String) (token : Uuid) (q' : Queue) (c : DestinationClaim)
    → claim now clock q client token ≡ (q', some c)
    → (later : ℕ) → clock + lease_ms ≤ later
    → (renew later q' c ≡ (q', false))
      × ((now' : ℕ) (ids : List Uuid) (outcome : Settlement)
          → settle now' later q' c ids outcome ≡ (q', false))
unfolding renew settle
lease_expired now clock q client token q' c h later over =
    let granted = claim-Granted now clock q client token q' c h in
    let leased = granted.leased in
    let same = granted.same_client in (ground arith, λ now' ids outcome. ground arith)
