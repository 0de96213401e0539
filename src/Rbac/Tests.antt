-- ===== src/Rbac/Tests.antt =====
-- Permissions, levels, app roles and publication on a small store.
use dreamsso.Common.{
  ℕ, String, true, false, none, some, ◌≡◌, ◌↔◌, refl, [], contains, string_eq, nat_eq,
}
use dreamsso.Common.Int.{pos}
use dreamsso.Common.Result.{Result, ok, err}
use dreamsso.Store.{Store}
use dreamsso.Store.Sample.{sample}
use dreamsso.Rbac.Errors.{RoleError}
use dreamsso.Rbac.Catalog.{perm_keys}
use dreamsso.Rbac.Patterns.{match_perm, split}
use dreamsso.Rbac.Patterns.Matches.{Matches, match_perm_iff}
use dreamsso.Rbac.Authz.{has_perm, can_administer, get_role_level, role_row}
use dreamsso.Rbac.Authz.Guards.{Grants, has_perm_iff}
use dreamsso.Rbac.AppRoles.{effective_app_role, catalog, org_default_row}
use dreamsso.Rbac.AppRoles.Resolution.{Resolves, effective_app_role_iff}
use dreamsso.Rbac.Changes.{
  publish_rows, effective_row, live_subjects, effective_rows, is_changed, store_rows,
  ensure_role_sync_state, publish_client, known_role,
}
use dreamsso.Rbac.Changes.Publication.{publish_client_twice}

match_perm_iff_example :
    (match_perm "org.**" "org.users.create" ≡ true)
    ↔ Matches (split "org.**") (split "org.users.create")
match_perm_iff_example = match_perm_iff "org.**" "org.users.create"

has_perm_iff_example :
    (has_perm sample 2 "org.users.create" ≡ true)
    ↔ ((contains perm_keys "org.users.create" ≡ true) × Grants sample 2 "org.users.create")
has_perm_iff_example = has_perm_iff sample 2 "org.users.create"

administers : (can_administer sample 1 2 ≡ true) × (can_administer sample 2 3 ≡ true)
unfolding can_administer get_role_level role_row
administers = (refl, refl)

effective_app_role_iff_example :
    (effective_app_role sample 3 "videosite" ≡ record { role_id = some (pos 2); source = catalog })
    ↔ Resolves sample 3 "videosite" (some (pos 2)) catalog
effective_app_role_iff_example = effective_app_role_iff sample 3 "videosite" (some (pos 2)) catalog

abbrev epoch : String → ℕ
epoch client = 77

abbrev published : Result RoleError (Store × ℕ) → Store
published (ok r) = r.0
published (err e) = sample

abbrev after : Store
after = published (publish_client epoch sample "videosite" none false [])

publish_run : publish_client epoch sample "videosite" none false [] ≡ ok (after, 3)
unfolding publish_rows effective_row live_subjects effective_rows is_changed store_rows
    ensure_role_sync_state publish_client known_role effective_app_role org_default_row
publish_run = refl

publish_client_twice_example : publish_client epoch after "videosite" none false [] ≡ ok (after, 0)
publish_client_twice_example =
    publish_client_twice epoch sample "videosite" none false [] after 3 publish_run refl
