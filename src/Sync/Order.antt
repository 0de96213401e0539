-- ===== src/Sync/Order.antt =====
-- When a client's report is current: `assertEnvelopeCurrent` and `catalogOrder` of
-- src/backchannel/rolesSync.ts. `digest` stands for `catalogDigest`, SHA-256 of the canonical JSON of
-- the roles, the default role and the site name. An `EventError` is a `fail` with its status.
pub mod Monotone
mod Tests
use dreamsso.Common.{
  ℕ, ◌+◌, ◌-◌, ◌/◌, String, Bool, true, false, not, ◌&&◌, ◌||◌, Option, none, some, List, [], ◌∷◌,
  ◌==◌, is_some, ltb, leb, if◌then◌else◌, nat_eq, option_eq,
}
use dreamsso.Common.Int.{ℤ}
use dreamsso.Common.Result.{Result, ok, err, ◌>>=◌, ◌>>◌, fail_if, or_fail}
use dreamsso.Store.{CatalogRole, RoleSyncState, legacy, revisioned}
use dreamsso.Rbac.Errors.{RoleError, fail, internal}

-- A normalized report; its version is the epoch and the revision.
pub record RoleCatalog : Type 0 where
  pub roles : List CatalogRole
  pub default_role : Option ℤ
  pub site_name : Option String
  pub version : Option (ℕ × ℕ)

pub data CatalogOrder : Type 0 where
  apply same stale : CatalogOrder

pub record EnvelopeTime : Type 0 where
  pub iat : ℕ
  pub exp : ℕ

-- `now` in milliseconds. `a - b > c` is written as `a > b + c`.
unfoldable pub assert_envelope_current : EnvelopeTime → ℕ → Result RoleError (Unit {0})
assert_envelope_current time now =
    let seconds = now / 1000 in
    fail_if
      (leb time.exp time.iat
        || ltb (seconds + 10) time.iat
        || ltb (time.iat + 310) seconds
        || leb (time.exp + 10) seconds)
      (fail 401 "invalid_token")

module _ (digest : RoleCatalog → ℕ) where
  abbrev same_digest : RoleSyncState → RoleCatalog → Bool
  same_digest state cat = state.catalog_digest == some (digest cat)

  pub revision_order : ℕ → ℕ → Bool → Result RoleError CatalogOrder
  revision_order incoming current alike =
      if ltb incoming current
      then ok stale
      else if incoming == current
      then (if alike then ok same else err (fail 409 "catalog_revision_conflict"))
      else ok apply

  pub iat_order : ℕ → ℕ → Bool → Result RoleError CatalogOrder
  iat_order iat previous alike =
      if ltb iat previous
      then ok stale
      else if iat == previous
      then (if alike then ok same else err (fail 409 "catalog_order_ambiguous"))
      else ok apply

  pub revisioned_order : RoleSyncState → RoleCatalog → Result RoleError CatalogOrder
  revisioned_order state cat = do
    (epoch, incoming) ← or_fail cat.version (fail 409 "catalog_revision_required")
    fail_if (not (state.catalog_epoch == some epoch)) (fail 409 "catalog_epoch_conflict")
    current ← or_fail state.catalog_revision (internal "Missing stored catalog revision.")
    revision_order incoming current (same_digest state cat)

  unfoldable pub catalog_order :
      RoleSyncState → RoleCatalog → ℕ → Bool → Result RoleError CatalogOrder
  catalog_order state cat iat has_catalog = elim state.catalog_mode [
    | revisioned ↦ revisioned_order state cat
    | legacy ↦
        if is_some cat.version || not has_catalog
        then ok apply
        else iat_order iat state.last_sync_iat (same_digest state cat)
  ]
