-- ===== src/Rbac/Administration/UserAccess.antt =====
-- `applyUserAccess` of src/rbac/roleAdministration.ts. Everything is validated before the first
-- write, so the function is a plan, which may fail, and the writes of a plan.
pub mod Plan
pub mod Success
pub mod Reach
pub mod Writes
pub mod Safety
mod Tests
use dreamsso.Common.{
  ℕ, ◌≤◌, ◌<◌, String, Bool, true, false, not, ◌&&◌, ◌||◌, Option, none, some, List, [], ◌∷◌, ◌==◌,
  map, find?, any, contains, is_some, length, ltb, if◌then◌else◌, string_eq, nat_eq, option_eq,
}
use dreamsso.Common.Int.{ℤ, int_eq}
use dreamsso.Common.Result.{Result, ok, err, ◌>>=◌, ◌>>◌, fail_if, or_fail}
use dreamsso.Json.{Json, Fields, get, as_text}
use dreamsso.Store.{Store, OrgRole, Effect, write, write₂}
use dreamsso.Rbac.Level.{Level, finite, le_level, lt_level}
use dreamsso.Rbac.AppRoles.{effective_app_role, app_role_level}
use dreamsso.Rbac.Authz.{has_slug, get_role_level}
use dreamsso.Rbac.Errors.{RoleError, fail}
use dreamsso.Rbac.Changes.{publish_role_changes}
use dreamsso.Rbac.Administration.{
  Value, role, inherit, parse_value, entries_of, Actor, require_permission, has_sub, lock_actors,
  org_default, write_audit, check_permissions, unknown_app_role,
}

pub record UserPlan : Type 0 where
  pub actor : Actor
  pub org_role : Option String
  pub new_slug : Option String
  pub permissions : List (String × Option Effect)
  pub app_roles : List (String × Value)

-- The new org role must exist and rank strictly below the actor.
pub check_org_role :
    Store → Level → Option String → Option String → Result RoleError (Option String)
check_org_role db level none current = ok current
check_org_role db level (some slug) current = do
  found ← or_fail (find? (has_slug slug) db.org_roles) (fail 403 "role_above_level")
  fail_if (le_level (finite found.level) level) (fail 403 "role_above_level")
  ok (some found.slug)

-- The app role that a value stands for.
abbrev pub resulting : Store → Option String → String → Value → Option ℤ
resulting db slug client inherit = org_default db slug client
resulting db slug client (role r) = r

abbrev pub app_level : Store → String → ℕ → Level
app_level db client sub = app_role_level db client (effective_app_role db sub client).role_id

module _ (db : Store) (actor target : ℕ) (slug : Option String) where
  pub check_app_role : String → Json → Result RoleError Value
  check_app_role client json = do
    fail_if (not (contains db.catalog_clients client)) (fail 404 "not_found")
    value ← or_fail (parse_value json) (fail 400 "invalid_request")
    fail_if (unknown_app_role db client value) (fail 400 "unknown_app_role")
    fail_if (lt_level (app_level db client target) (app_level db client actor))
        (fail 403 "app_role_above_level")
    fail_if
        (lt_level (app_role_level db client (resulting db slug client value))
          (app_level db client actor))
        (fail 403 "app_role_above_level")
    ok value

  pub check_app_roles : List (String × Json) → Result RoleError (List (String × Value))
  check_app_roles [] = ok []
  check_app_roles ((client, json) ∷ rest) = do
    value ← check_app_role client json
    checked ← check_app_roles rest
    ok ((client, value) ∷ checked)

  -- What the new org role hands down at a client that no entry and no override settles.
  pub above_by_inheritance : List (String × Value) → String → Bool
  above_by_inheritance entries client =
      not (any (λ e. e.0 == client) entries || is_some (db.user_app_role_overrides target client))
      && not (org_default db slug client == (effective_app_role db target client).role_id)
      && lt_level (app_role_level db client (org_default db slug client))
          (app_level db client actor)

  pub check_inherited : List (String × Value) → List String → Result RoleError (Unit {0})
  check_inherited entries [] = ok tt
  check_inherited entries (client ∷ clients) = do
    fail_if (above_by_inheritance entries client) (fail 403 "app_role_above_level")
    check_inherited entries clients

abbrev pub is_empty {ℓ} : {A : Type ℓ} → List A → Bool
is_empty [] = true
is_empty (x ∷ xs) = false

-- `!orgRole`: missing, or the empty text.
abbrev no_text : Option String → Bool
no_text none = true
no_text (some s) = s == ""

abbrev pub when : Bool → Result RoleError (Unit {0}) → Result RoleError (Unit {0})
when test check = if test then check else ok tt

abbrev pub acct_portal : String
acct_portal = "org.users.edit.permissions.acctPortal"

abbrev pub app_permission : String
app_permission = "org.users.edit.permissions.app"

-- The actor, once it is known to outrank the target and to be another subject.
pub admit_target : Store → ℕ → ℕ → Result RoleError Actor
admit_target db actor_sub target_sub = do
  actor ← lock_actors db actor_sub
  target ←
      or_fail (find? (λ i. has_sub target_sub i && not i.deleted) db.identities)
        (fail 404 "not_found")
  fail_if (target_sub == actor_sub || le_level (get_role_level db target_sub) actor.level)
      (fail 404 "not_found")
  ok actor

-- The body of the request, once it is known to ask for something and not for too much.
pub record UserChanges : Type 0 where
  pub org_role : Option String
  pub permissions : List (String × Json)
  pub app_roles : List (String × Json)

pub read_changes : Fields → Result RoleError UserChanges
read_changes changes = do
  let org_role = as_text (get "org_role" changes)
  permissions ← entries_of (get "permissions" changes)
  app_roles ← entries_of (get "app_roles" changes)
  fail_if (no_text org_role && is_empty permissions && is_empty app_roles) (fail 400 "no_changes")
  fail_if (ltb 100 (length permissions) || ltb 50 (length app_roles)) (fail 400 "too_many_changes")
  ok (record { org_role = org_role; permissions = permissions; app_roles = app_roles })

-- The permissions that the kinds of change ask of the actor.
pub check_areas : List String → UserChanges → Result RoleError (Unit {0})
check_areas granted asked = do
  when (is_some asked.org_role || not (is_empty asked.permissions))
      (require_permission granted acct_portal)
  when (not (is_empty asked.app_roles)) (require_permission granted app_permission)

pub check_changes : Store → Actor → ℕ → UserChanges → Result RoleError UserPlan
check_changes db actor target_sub asked = do
  new_slug ← check_org_role db actor.level asked.org_role (db.user_org_roles target_sub)
  checked ← check_permissions true actor.granted asked.permissions
  values ← check_app_roles db actor.sub target_sub new_slug asked.app_roles
  when (is_some asked.org_role)
      (check_inherited db actor.sub target_sub new_slug values db.catalog_clients)
  ok (record {
    actor = actor;
    org_role = asked.org_role;
    new_slug = new_slug;
    permissions = checked;
    app_roles = values;
  })

pub plan_user_access : Store → ℕ → ℕ → Fields → Result RoleError UserPlan
plan_user_access db actor_sub target_sub changes = do
  actor ← admit_target db actor_sub target_sub
  asked ← read_changes changes
  check_areas actor.granted asked
  check_changes db actor target_sub asked

-- An 'inherit' deletes the row.
pub write_effects :
    ℕ → List (String × Option Effect) → (ℕ → String → Option Effect) → ℕ → String → Option Effect
write_effects sub [] table = table
write_effects sub ((key, choice) ∷ rest) table =
    write_effects sub rest (write₂ sub key choice table)

abbrev pub stored : Value → Option (Option ℤ)
stored inherit = none
stored (role r) = some r

pub write_values :
    ℕ → List (String × Value) → (ℕ → String → Option (Option ℤ)) → ℕ → String → Option (Option ℤ)
write_values sub [] table = table
write_values sub ((client, value) ∷ rest) table =
    write_values sub rest (write₂ sub client (stored value) table)

pub write_user_access : Store → ℕ → UserPlan → Store
unfolding write_effects write_values
write_user_access db target plan = record db {
  user_org_roles =
      if is_some plan.org_role
      then write target plan.new_slug db.user_org_roles
      else db.user_org_roles;
  user_permission_overrides = write_effects target plan.permissions db.user_permission_overrides;
  user_app_role_overrides = write_values target plan.app_roles db.user_app_role_overrides;
}

module _ (new_epoch : String → ℕ) where
  pub publish_user_access : Store → ℕ → UserPlan → Result RoleError (Store × ℕ)
  publish_user_access db target plan =
      if is_some plan.org_role || not (is_empty plan.app_roles)
      then publish_role_changes new_epoch db
          (if is_some plan.org_role then db.catalog_clients else map (λ e. e.0) plan.app_roles)
          (some (target ∷ [])) false []
      else ok (db, 0)

  pub apply_user_access : Store → ℕ → ℕ → Fields → String → Result RoleError Store
  apply_user_access db actor_sub target_sub changes action = do
    plan ← plan_user_access db actor_sub target_sub changes
    published ← publish_user_access (write_user_access db target_sub plan) target_sub plan
    ok (write_audit published.0 actor_sub action (some target_sub))
