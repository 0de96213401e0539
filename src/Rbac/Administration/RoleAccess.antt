-- ===== src/Rbac/Administration/RoleAccess.antt =====
-- `applyRoleAccess` of src/rbac/roleAdministration.ts: the permissions of an org role and what it
-- hands down at each client.
use dreamsso.Common.{
  ℕ, String, false, not, ◌||◌, ◌&&◌, Option, none, some, List, [], ◌∷◌, map, find?, length, ltb,
  if◌then◌else◌, string_eq,
}
use dreamsso.Common.Int.{ℤ}
use dreamsso.Common.Result.{Result, ok, ◌>>=◌, ◌>>◌, fail_if, or_fail}
use dreamsso.Json.{Json, Fields, get}
use dreamsso.Store.{Store, Effect, write₂}
use dreamsso.Rbac.Level.{finite, le_level, lt_level}
use dreamsso.Rbac.AppRoles.{app_role_level}
use dreamsso.Rbac.Authz.{has_slug}
use dreamsso.Rbac.Errors.{RoleError, fail}
use dreamsso.Rbac.Changes.{publish_role_changes}
use dreamsso.Rbac.Administration.{
  Value, role, inherit, parse_value, entries_of, Actor, require_permission, lock_actors,
  org_default, write_audit, check_permissions, unknown_app_role,
}
use dreamsso.Rbac.Administration.UserAccess.{app_level, stored, is_empty, when}

-- `value === 'inherit' ? catalog.default_role_id : value`.
abbrev pub handed_down : Option ℤ → Value → Option ℤ
handed_down default inherit = default
handed_down default (role r) = r

-- A default may be changed only between roles that rank below the actor's own app role.
pub check_app_default : Store → ℕ → String → String → Json → Result RoleError Value
check_app_default db actor slug client json = do
  cat ← or_fail (db.app_role_catalogs client) (fail 404 "not_found")
  value ← or_fail (parse_value json) (fail 400 "invalid_request")
  fail_if (unknown_app_role db client value) (fail 400 "unknown_app_role")
  fail_if
      (lt_level (app_role_level db client (org_default db (some slug) client))
          (app_level db client actor)
        || le_level (app_role_level db client (handed_down cat.default_role_id value))
            (app_level db client actor))
      (fail 403 "app_role_above_level")
  ok value

pub check_app_defaults :
    Store → ℕ → String → List (String × Json) → Result RoleError (List (String × Value))
check_app_defaults db actor slug [] = ok []
check_app_defaults db actor slug ((client, json) ∷ rest) = do
  value ← check_app_default db actor slug client json
  checked ← check_app_defaults db actor slug rest
  ok ((client, value) ∷ checked)

pub admit_role : Store → ℕ → String → Result RoleError Actor
admit_role db actor_sub slug = do
  actor ← lock_actors db actor_sub
  found ← or_fail (find? (has_slug slug) db.org_roles) (fail 404 "not_found")
  fail_if (le_level (finite found.level) actor.level) (fail 403 "role_above_level")
  ok actor

pub read_role_changes : Fields → Result RoleError (List (String × Json) × List (String × Json))
read_role_changes changes = do
  permissions ← entries_of (get "permissions" changes)
  defaults ← entries_of (get "app_defaults" changes)
  fail_if (is_empty permissions && is_empty defaults) (fail 400 "no_changes")
  fail_if (ltb 100 (length permissions) || ltb 50 (length defaults)) (fail 400 "too_many_changes")
  ok (permissions, defaults)

pub write_role_effects :
    String
    → List (String × Option Effect)
    → (String → String → Option Effect)
    → String
    → String
    → Option Effect
write_role_effects slug [] table = table
write_role_effects slug ((key, choice) ∷ rest) table =
    write_role_effects slug rest (write₂ slug key choice table)

pub write_defaults :
    String
    → List (String × Value)
    → (String → String → Option (Option ℤ))
    → String
    → String
    → Option (Option ℤ)
write_defaults slug [] table = table
write_defaults slug ((client, value) ∷ rest) table =
    write_defaults slug rest (write₂ slug client (stored value) table)

pub write_role_access :
    Store → String → List (String × Option Effect) → List (String × Value) → Store
write_role_access db slug effects values = record db {
  role_permissions = write_role_effects slug effects db.role_permissions;
  org_role_app_defaults = write_defaults slug values db.org_role_app_defaults;
}

pub check_role_changes :
    Store
    → Actor
    → String
    → List (String × Json)
    → List (String × Json)
    → Result RoleError (List (String × Option Effect) × List (String × Value))
check_role_changes db actor slug permissions defaults = do
  when (not (is_empty permissions))
      (require_permission actor.granted "org.roles.edit.permissions.acctPortal")
  when (not (is_empty defaults)) (require_permission actor.granted "org.roles.edit.permissions.app")
  effects ← check_permissions false actor.granted permissions
  values ← check_app_defaults db actor.sub slug defaults
  ok (effects, values)

module _ (new_epoch : String → ℕ) where
  pub publish_role_access : Store → List (String × Value) → Result RoleError (Store × ℕ)
  publish_role_access db defaults =
      if is_empty defaults
      then ok (db, 0)
      else publish_role_changes new_epoch db (map (λ e. e.0) defaults) none false []

  pub apply_role_access : Store → ℕ → String → Fields → String → Result RoleError Store
  apply_role_access db actor_sub slug changes action = do
    actor ← admit_role db actor_sub slug
    (permissions, defaults) ← read_role_changes changes
    (effects, values) ← check_role_changes db actor slug permissions defaults
    published ← publish_role_access (write_role_access db slug effects values) values
    ok (write_audit published.0 actor_sub action none)
