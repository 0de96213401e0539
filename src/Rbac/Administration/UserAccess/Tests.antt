-- ===== src/Rbac/Administration/UserAccess/Tests.antt =====
-- An administrator moves a user to another org role, grants a permission and sets an app role.
use dreamsso.Common.{ℕ, String, true, some, ◌≡◌, refl, ◌≢◌, ◌⊎◌, nat_eq, string_eq}
use dreamsso.Common.Int.{pos}
use dreamsso.Common.Result.{Result, ok, err}
use dreamsso.Json.{Fields, text, number, object, field, end}
use dreamsso.Store.{Store, grant}
use dreamsso.Store.Sample.{sample}
use dreamsso.Rbac.Errors.{RoleError}
use dreamsso.Rbac.Level.{◌<ₗ◌, ◌≤ₗ◌}
use dreamsso.Rbac.Catalog.{permissions, perm_keys}
use dreamsso.Rbac.AppRoles.{effective_app_role, app_role_level, org_default_row}
use dreamsso.Rbac.Authz.{
  get_role_level, has_perm, resolve_authz, collect_granted, effect_of, role_effect, role_row,
}
use dreamsso.Rbac.Authz.Guards.{by_user, has_perm_iff}
use dreamsso.Rbac.Changes.{
  publish_rows, effective_row, live_subjects, effective_rows, is_changed, store_rows, sorted_set,
  insert_sorted, ensure_role_sync_state, publish_client, publish_each, publish_role_changes,
  known_role,
}
use dreamsso.Rbac.Administration.{
  mfa_disable, lock_actors, require_permission, entries_of, parse_value, parse_effect, is_int32,
  check_permissions, org_default, write_audit, unknown_app_role,
}
use dreamsso.Rbac.Administration.UserAccess.{
  apply_user_access, plan_user_access, admit_target, read_changes, check_areas, check_changes,
  check_org_role, check_app_roles, check_app_role, check_inherited, above_by_inheritance,
  write_user_access, write_effects, write_values, publish_user_access, app_level,
}
use dreamsso.Rbac.Administration.UserAccess.Safety.{
  HandedDown, apply_user_access-outranks, apply_user_access_grants, apply_user_access_elsewhere,
  apply_user_access_app_roles,
}

abbrev changes : Fields
changes = field "org_role" (text "guest") (
    field "permissions" (object (field "profile.displayname.change" (text "grant") end))
      (field "app_roles" (object (field "videosite" (number (pos 2)) end)) end))

abbrev epoch : String → ℕ
epoch client = 77

abbrev result_of : Result RoleError Store → Store
result_of (ok db) = db
result_of (err e) = sample

abbrev after : Store
after = result_of (apply_user_access epoch sample 2 3 changes "user.access_change")

access_run : apply_user_access epoch sample 2 3 changes "user.access_change" ≡ ok after
unfolding apply_user_access plan_user_access admit_target read_changes check_areas check_changes
    check_org_role check_app_roles check_app_role check_inherited above_by_inheritance
    write_user_access write_effects write_values publish_user_access lock_actors require_permission
    entries_of parse_value parse_effect is_int32 check_permissions org_default write_audit
    unknown_app_role get_role_level resolve_authz collect_granted effect_of role_effect role_row
    permissions perm_keys effective_app_role app_role_level org_default_row publish_rows
    effective_row live_subjects effective_rows is_changed store_rows sorted_set insert_sorted
    ensure_role_sync_state publish_client publish_each publish_role_changes known_role
access_run = refl

apply_user_access-outranks_example :
    (◌≢◌ {A = ℕ} 2 3)
    × (get_role_level sample 2 <ₗ get_role_level sample 3)
    × (get_role_level after 2 <ₗ get_role_level after 3)
apply_user_access-outranks_example =
    apply_user_access-outranks epoch sample 2 3 changes "user.access_change" after access_run

granted_run : after.user_permission_overrides 3 "profile.displayname.change" ≡ some grant
unfolding apply_user_access plan_user_access admit_target read_changes check_areas check_changes
    check_org_role check_app_roles check_app_role check_inherited above_by_inheritance
    write_user_access write_effects write_values publish_user_access lock_actors require_permission
    entries_of parse_value parse_effect is_int32 check_permissions org_default write_audit
    unknown_app_role get_role_level resolve_authz collect_granted effect_of role_effect role_row
    permissions perm_keys effective_app_role app_role_level org_default_row publish_rows
    effective_row live_subjects effective_rows is_changed store_rows sorted_set insert_sorted
    ensure_role_sync_state publish_client publish_each publish_role_changes known_role
granted_run = refl

held_run : has_perm after 3 "profile.displayname.change" ≡ true
unfolding perm_keys permissions
held_run = (has_perm_iff after 3 "profile.displayname.change").1 (refl, by_user granted_run)

apply_user_access_grants_example :
    (has_perm sample 3 "profile.displayname.change" ≡ true)
    ⊎ (has_perm sample 2 "profile.displayname.change" ≡ true)
    ⊎ ("profile.displayname.change" ≡ mfa_disable)
    ⊎ HandedDown sample after 2 3 "profile.displayname.change"
apply_user_access_grants_example =
    apply_user_access_grants epoch sample 2 3 changes "user.access_change" after access_run
      "profile.displayname.change" held_run

apply_user_access_elsewhere_example :
    (after.user_org_roles 1 ≡ sample.user_org_roles 1)
    × ((key : String)
        → after.user_permission_overrides 1 key ≡ sample.user_permission_overrides 1 key)
    × ((client : String)
        → (effective_app_role after 1 client).role_id
          ≡ (effective_app_role sample 1 client).role_id)
apply_user_access_elsewhere_example =
    apply_user_access_elsewhere epoch sample 2 3 changes "user.access_change" after access_run 1
      refl

apply_user_access_app_roles_example :
    ((effective_app_role after 3 "videosite").role_id
      ≡ (effective_app_role sample 3 "videosite").role_id)
    ⊎ (app_level sample "videosite" 2 ≤ₗ app_level after "videosite" 3)
apply_user_access_app_roles_example =
    apply_user_access_app_roles epoch sample 2 3 changes "user.access_change" after access_run
      "videosite" refl refl
