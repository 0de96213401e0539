-- ===== src/Sync/Order/Monotone.antt =====
-- The order that src/backchannel/rolesSync.ts gives to reports.
use dreamsso.Common.{
  ℕ, ◌+◌, ◌/◌, ◌≤◌, ◌<◌, Bool, true, not, some, ◌≡◌, ◌↔◌, ◌==◌, arith, nat_eq, option_eq,
}
use dreamsso.Common.Result.{ok, or_fail-ok, fail_if-ok}
use dreamsso.Store.{RoleSyncState, revisioned}
use dreamsso.Sync.Order.{
  RoleCatalog, CatalogOrder, apply, same, stale, EnvelopeTime, assert_envelope_current,
  catalog_order, revisioned_order, revision_order, iat_order, same_digest,
}

-- An envelope is accepted exactly while it is valid, with ten seconds of slack for the clocks, and
-- issued no more than 310 seconds ago.
assert_envelope_current_iff :
    (time : EnvelopeTime) (now : ℕ)
    → (assert_envelope_current time now ≡ ok tt) ↔ (
        (time.iat < time.exp)
        × (time.iat ≤ now / 1000 + 10)
        × (now / 1000 ≤ time.iat + 310)
        × (now / 1000 < time.exp + 10))
unfolding assert_envelope_current
assert_envelope_current_iff time now = ground arith

-- What the order of two revisions, or of two instants, says.
pub Ordered : CatalogOrder → ℕ → ℕ → Bool → Type 0
Ordered apply incoming current alike = current < incoming
Ordered same incoming current alike = (incoming ≡ current) × (alike ≡ true)
Ordered stale incoming current alike = incoming < current

revision_order-Ordered :
    (digest : RoleCatalog → ℕ) (incoming current : ℕ) (alike : Bool) (order : CatalogOrder)
    → revision_order digest incoming current alike ≡ ok order
    → Ordered order incoming current alike
unfolding revision_order Ordered
revision_order-Ordered digest incoming current alike apply h = ground arith
revision_order-Ordered digest incoming current alike same h = ground arith
revision_order-Ordered digest incoming current alike stale h = ground arith

iat_order-Ordered :
    (digest : RoleCatalog → ℕ) (incoming current : ℕ) (alike : Bool) (order : CatalogOrder)
    → iat_order digest incoming current alike ≡ ok order
    → Ordered order incoming current alike
unfolding iat_order Ordered
iat_order-Ordered digest incoming current alike apply h = ground arith
iat_order-Ordered digest incoming current alike same h = ground arith
iat_order-Ordered digest incoming current alike stale h = ground arith

-- Once a client has adopted revisions, a report is ordered only when it has the stored epoch, and then
-- by its revision: applied when it is newer, a repetition when revision and content are the same,
-- stale when it is older.
pub catalog_order_revisioned :
    (digest : RoleCatalog → ℕ) (state : RoleSyncState) (cat : RoleCatalog) (iat : ℕ)
    (has_catalog : Bool) (order : CatalogOrder)
    → state.catalog_mode ≡ revisioned
    → catalog_order digest state cat iat has_catalog ≡ ok order
    → (epoch : ℕ) × (incoming : ℕ) × (current : ℕ) × (cat.version ≡ some (epoch, incoming))
      × (state.catalog_epoch ≡ some epoch)
      × (state.catalog_revision ≡ some current)
      × Ordered order incoming current (same_digest digest state cat)
unfolding catalog_order revisioned_order
catalog_order_revisioned digest state cat iat has_catalog order mode h =
    let h₀ : revisioned_order digest state cat ≡ ok order = ground arith in
    let ((epoch, incoming), v, h₁) = or_fail-ok cat.version _ _ h₀ in
    let (agrees, h₂) = fail_if-ok (not (state.catalog_epoch == some epoch)) _ _ h₁ in
    let (current, c, h₃) = or_fail-ok state.catalog_revision _ _ h₂ in
    (
      epoch,
      incoming,
      current,
      v,
      (option_eq.beq_iff state.catalog_epoch (some epoch)).0 (ground arith),
      c,
      revision_order-Ordered digest incoming current (same_digest digest state cat) order h₃,
    )
