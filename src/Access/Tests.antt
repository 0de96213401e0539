-- ===== src/Access/Tests.antt =====
-- The access state of the sample's administrator.
use dreamsso.Common.{false, none, some, ◌≡◌, ◌&&◌, refl, if◌then◌else◌, nat_eq, string_eq}
use dreamsso.Store.{Identity, active}
use dreamsso.Store.Sample.{sample}
use dreamsso.Rbac.AppRoles.{effective_app_role, has_app_catalog, app_access_allowed, no_source}
use dreamsso.Access.{access_row, access_state, account_status, is_active_account}
use dreamsso.Access.Agreement.{access_state-effective_app_role}

abbrev admin : Identity
admin = record {
  sub = 2;
  username = "admin";
  display_name = "admin";
  email = none;
  password_hash = "";
  status = active;
  deleted = false;
}

access_state-effective_app_role_example :
    ((access_state (access_row sample "videosite" 2)).is_allowed ≡ (
      is_active_account (account_status (some admin)) && app_access_allowed sample "videosite" 2))
    × ((access_state (access_row sample "videosite" 2)).role_id ≡ (
        if has_app_catalog sample "videosite"
        then (effective_app_role sample 2 "videosite").role_id
        else none))
    × ((access_state (access_row sample "videosite" 2)).role_source ≡ (
        if has_app_catalog sample "videosite"
        then (effective_app_role sample 2 "videosite").source
        else no_source))
access_state-effective_app_role_example =
    access_state-effective_app_role sample "videosite" 2 admin refl
