-- ===== src/Sync/Catalog/Tests.antt =====
-- A first report of a client that has adopted revisions.
use dreamsso.Common.{ℕ, String, false, none, some, ◌≡◌, ◌⊎◌, All, refl, string_eq, nat_eq, [], ◌∷◌}
use dreamsso.Common.Int.{pos}
use dreamsso.Common.Result.{Result, ok, err}
use dreamsso.Store.{Store, CatalogRole, RoleSyncState, legacy}
use dreamsso.Store.Sample.{sample}
use dreamsso.Rbac.Errors.{RoleError}
use dreamsso.Rbac.AppRoles.{effective_app_role, org_default_row}
use dreamsso.Rbac.Changes.{
  publish_rows, effective_row, live_subjects, effective_rows, is_changed, store_rows, sorted_set,
  insert_sorted, ensure_role_sync_state, publish_client, publish_each, publish_role_changes,
  known_role,
}
use dreamsso.Sync.Order.{RoleCatalog, CatalogOrder, apply, catalog_order}
use dreamsso.Sync.Catalog.{
  apply_catalog, baseline, force_current, write_catalog, stored_report, move_roles, move_role,
  move_to, removed_roles, store_catalog, replace_roles, upsert_roles, upsert_role, top_role,
  top_from, grant_root, root_subjects, audit_reconcile,
}
use dreamsso.Sync.Catalog.Top.{IsTop}
use dreamsso.Sync.Catalog.Applied.{HandsDown, apply_catalog_root}

abbrev digest : RoleCatalog → ℕ
digest cat = 2

abbrev epoch : String → ℕ
epoch client = 77

abbrev editor : CatalogRole
editor = record { role_id = pos 1; name = "Editor"; level = pos 1; is_system = false }

abbrev viewer : CatalogRole
viewer = record { role_id = pos 2; name = "Viewer"; level = pos 9; is_system = false }

abbrev chief : CatalogRole
chief = record { role_id = pos 3; name = "Chief"; level = pos 1; is_system = false }

abbrev report : RoleCatalog
report = record {
  roles = viewer ∷ chief ∷ editor ∷ [];
  default_role = some (pos 1);
  site_name = some "Videos";
  version = some (4, 1);
}

abbrev state : RoleSyncState
state = record {
  catalog_mode = legacy;
  catalog_epoch = none;
  catalog_revision = none;
  catalog_digest = some 1;
  last_sync_iat = 0;
  authority_epoch = 5;
  authority_revision = 3;
}

abbrev store_of : Result RoleError (Store × CatalogOrder) → Store
store_of (ok r) = r.0
store_of (err e) = sample

abbrev after : Store
after = store_of (apply_catalog digest epoch sample "videosite" 1000 report state)

apply_run : apply_catalog digest epoch sample "videosite" 1000 report state ≡ ok (after, apply)
unfolding apply_catalog baseline force_current write_catalog stored_report move_roles move_role
    move_to removed_roles store_catalog replace_roles upsert_roles upsert_role top_role top_from
    grant_root root_subjects audit_reconcile catalog_order effective_app_role org_default_row
    publish_rows effective_row live_subjects effective_rows is_changed store_rows sorted_set
    insert_sorted ensure_role_sync_state publish_client publish_each publish_role_changes known_role
apply_run = refl

-- Three roles, of which two share the lowest level.
apply_catalog_root_example :
    (after.app_role_catalogs "videosite"
      ≡ some (record { default_role_id = some (pos 1); last_sync_iat = 1000 }))
    × ((report.roles ≡ [])
        ⊎ ((top : CatalogRole) × IsTop top report.roles
            × All (HandsDown after "videosite" top) sample.org_roles))
apply_catalog_root_example =
    apply_catalog_root digest epoch sample "videosite" 1000 report state after apply apply_run refl

root_run : after.org_role_app_defaults "owner" "videosite" ≡ some (some (pos 1))
unfolding apply_catalog baseline force_current write_catalog stored_report move_roles move_role
    move_to removed_roles store_catalog replace_roles upsert_roles upsert_role top_role top_from
    grant_root root_subjects audit_reconcile catalog_order effective_app_role org_default_row
    publish_rows effective_row live_subjects effective_rows is_changed store_rows sorted_set
    insert_sorted ensure_role_sync_state publish_client publish_each publish_role_changes known_role
root_run = refl
