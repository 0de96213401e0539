-- ===== src/Rbac/Administration/OrgRoles/Tests.antt =====
-- An administrator edits, deletes and creates org roles.
use dreamsso.Common.{String, none, some, ◌≡◌, refl, Option, ◌==◌, string_eq, find?, if◌then◌else◌}
use dreamsso.Common.Int.{ℤ, pos}
use dreamsso.Common.Text.{utf16_length, trim, trim_start, trim_end, is_space}
use dreamsso.Common.Result.{Result, ok, err}
use dreamsso.Json.{Json, Fields, text, number, field, end}
use dreamsso.Store.{Store, OrgRole}
use dreamsso.Store.Sample.{sample}
use dreamsso.Rbac.Errors.{RoleError}
use dreamsso.Rbac.Catalog.{permissions}
use dreamsso.Rbac.Authz.{has_slug, resolve_authz, collect_granted, effect_of, role_effect, role_row}
use dreamsso.Rbac.Administration.{lock_actors, require_permission, write_audit}
use dreamsso.Rbac.Administration.OrgRoles.{
  patch_org_role, read_label, read_level, update_role, apply_patch, is_label, is_level,
  delete_org_role, role_in_use, default_org_role, remove_role, create_org_role, read_role,
  role_errors, level_errors, is_slug, is_slug_rest, insert_role, seed_role,
}
use dreamsso.Rbac.Administration.OrgRoles.Below.{Outranks, patch_org_role_below}
use dreamsso.Rbac.Administration.OrgRoles.Creation.{Created, create_org_role-Created}

abbrev number_of : Json → Option ℤ
number_of (number n) = some n
number_of _ = none

abbrev store_of : Result RoleError Store → Store
store_of (ok db) = db
store_of (err e) = sample

abbrev patch : Fields
patch = field "label" (text "Visitor") (field "level" (number (pos 300)) end)

abbrev patched_store : Store
patched_store = store_of (patch_org_role number_of sample 2 "guest" patch)

patch_run : patch_org_role number_of sample 2 "guest" patch ≡ ok patched_store
unfolding patch_org_role read_label read_level update_role apply_patch is_label is_level lock_actors
    require_permission write_audit resolve_authz collect_granted effect_of role_effect role_row
    permissions utf16_length trim trim_start trim_end is_space
patch_run = refl

patch_org_role_below_example :
    (old : OrgRole) × (new : OrgRole) × (find? (has_slug "guest") sample.org_roles ≡ some old)
    × Outranks sample 2 old
    × (find? (has_slug "guest") patched_store.org_roles ≡ some new)
    × Outranks sample 2 new
    × ((other : String)
        → find? (has_slug other) patched_store.org_roles
          ≡ (if "guest" == other then some new else find? (has_slug other) sample.org_roles))
patch_org_role_below_example =
    patch_org_role_below number_of sample 2 "guest" patch patched_store patch_run

abbrev deleted_store : Store
deleted_store = store_of (delete_org_role sample 2 "guest")

delete_run : delete_org_role sample 2 "guest" ≡ ok deleted_store
unfolding delete_org_role role_in_use default_org_role remove_role lock_actors require_permission
    write_audit resolve_authz collect_granted effect_of role_effect role_row permissions
delete_run = refl

abbrev body : Fields
body =
    field "slug" (text "editor_1")
      (field "label" (text "Editor") (field "level" (number (pos 50)) end))

abbrev created_store : Result RoleError (Store × String) → Store
created_store (ok r) = r.0
created_store (err e) = sample

create_run :
    create_org_role number_of sample 2 body
    ≡ ok (created_store (create_org_role number_of sample 2 body), "editor_1")
unfolding create_org_role read_role role_errors level_errors is_slug is_slug_rest is_label is_level
    insert_role seed_role default_org_role lock_actors require_permission write_audit resolve_authz
    collect_granted effect_of role_effect role_row permissions utf16_length trim trim_start trim_end
    is_space
create_run = refl

create_org_role-Created_example :
    Created sample 2 (created_store (create_org_role number_of sample 2 body)) "editor_1"
create_org_role-Created_example =
    create_org_role-Created number_of sample 2 body
      (created_store (create_org_role number_of sample 2 body)) "editor_1" create_run
