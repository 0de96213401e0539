-- ===== src/Rbac/Administration/OrgRoles.antt =====
-- The life of an org role in src/rbac/roleAdministration.ts: create, patch, delete, make default; and
-- `createOrgUser`. `number_of` stands for ECMAScript's `Number` where its result is an integer.
pub mod Below
pub mod Creation
mod Tests
use dreamsso.Common.{
  ℕ, ◌+◌, String, Bool, true, false, not, ◌&&◌, ◌||◌, Option, none, some, List, [], ◌∷◌, ◌++◌, ◌==◌,
  map, find?, any, all, filter, is_some, length, leb, ltb, get_or, if◌then◌else◌, string_eq, nat_eq,
  option_eq,
}
use dreamsso.Common.Int.{ℤ, pos, ltb_ℤ, int_eq}
use dreamsso.Common.Text.{codes, utf16_length, trim, is_lower, is_digit}
use dreamsso.Common.Result.{Result, ok, err, ◌>>=◌, ◌>>◌, fail_if, or_fail}
use dreamsso.Json.{Json, text, Fields, get, as_text}
use dreamsso.Store.{Store, OrgRole, Identity, active, write}
use dreamsso.Rbac.Level.{Level, finite, le_level}
use dreamsso.Rbac.Authz.{has_slug}
use dreamsso.Rbac.Errors.{RoleError, fail, field_error, internal}
use dreamsso.Rbac.Administration.{require_permission, lock_actors, write_audit}

-- `defaultOrgRole`: `setting?.value || 'standard_user'`.
pub default_org_role : Store → String
default_org_role db =
    let value = get_or (db.settings "default_org_role") "" in
    if value == "" then "standard_user" else value

-- `/^[a-z][a-z0-9_-]{1,39}$/`.
is_slug_rest : ℕ → Bool
is_slug_rest c = is_lower c || is_digit c || c == b'_' || c == b'-'

pub is_slug : List ℕ → Bool
unfolding is_slug_rest
is_slug [] = false
is_slug (c ∷ cs) = is_lower c && all is_slug_rest cs && leb 1 (length cs) && leb (length cs) 39

pub is_label : String → Bool
is_label label = not (label == "") && leb (utf16_length label) 60

-- A whole number from 1 to 9999.
pub is_level : ℤ → Bool
is_level n = not (ltb_ℤ n (pos 1)) && not (ltb_ℤ (pos 9999) n)

abbrev trimmed : Option String → String
trimmed none = ""
trimmed (some s) = trim s

-- The `level` field error of `createOrgRole`.
level_errors : Level → Option ℤ → List String
level_errors actor none = "level" ∷ []
level_errors actor (some n) =
    if not (is_level n)
    then "level" ∷ []
    else if le_level (finite n) actor
    then "level" ∷ []
    else []

abbrev pub no_errors : List String → Bool
no_errors [] = true
no_errors (e ∷ es) = false

pub role_errors : Level → String → String → Option ℤ → List String
unfolding level_errors
role_errors actor slug label level =
    (if is_slug (codes slug) then [] else "slug" ∷ [])
    ++ (if is_label label then [] else "label" ∷ [])
    ++ level_errors actor level

-- The copies of the default role's permissions and app defaults under a new slug.
pub seed_role : Store → String → String → ℤ → String → Store
seed_role db slug label level seed = record db {
  org_roles =
      db.org_roles ++ record { slug = slug; label = label; level = level; is_system = false } ∷ [];
  role_permissions = write slug (db.role_permissions seed) db.role_permissions;
  org_role_app_defaults = write slug (db.org_role_app_defaults seed) db.org_role_app_defaults;
}

-- `UPDATE org_roles SET ... WHERE slug = $1`.
pub update_role : String → (OrgRole → OrgRole) → List OrgRole → List OrgRole
update_role slug f [] = []
update_role slug f (r ∷ rs) = (if r.slug == slug then f r else r) ∷ update_role slug f rs

-- `DELETE FROM org_roles`, with its cascades to the tables that reference the slug.
pub remove_role : Store → String → Store
remove_role db slug = record db {
  org_roles = filter (λ r. not (r.slug == slug)) db.org_roles;
  role_permissions = write slug (λ _. none) db.role_permissions;
  org_role_app_defaults = write slug (λ _. none) db.org_role_app_defaults;
}

pub insert_role : Store → String → String → ℤ → Result RoleError Store
insert_role db slug label level = do
  fail_if (any (has_slug slug) db.org_roles) (field_error 409 ("slug" ∷ []))
  fail_if (not (any (has_slug (default_org_role db)) db.org_roles))
      (internal "Default organization role is unavailable.")
  ok (seed_role db slug label level (default_org_role db))

abbrev holds_role : Store → String → Identity → Bool
holds_role db slug i = db.user_org_roles i.sub == some slug

pub role_in_use : Store → String → Bool
role_in_use db slug = any (holds_role db slug) db.identities

-- What a patch asks for; a missing field is `none`.
pub record RolePatch : Type 0 where
  pub label : Option String
  pub level : Option ℤ

pub apply_patch : RolePatch → OrgRole → OrgRole
apply_patch patch r = record r {
  label = get_or patch.label r.label;
  level = get_or patch.level r.level;
}

pub read_label : List String → Option String → Result RoleError (Option String)
read_label granted none = ok none
read_label granted (some raw) = do
  require_permission granted "org.roles.edit.rename"
  fail_if (not (is_label (trim raw))) (field_error 422 ("label" ∷ []))
  ok (some (trim raw))

module _ (number_of : Json → Option ℤ) where
  abbrev pub number_field : Option Json → Option ℤ
  number_field none = none
  number_field (some v) = number_of v

  -- The fields of a new role, or all that is wrong with them.
  pub read_role : Level → Fields → Result RoleError (String × String × ℤ)
  read_role actor body = do
    let slug = trimmed (as_text (get "slug" body))
    let label = trimmed (as_text (get "label" body))
    let level = number_field (get "level" body)
    let errors = role_errors actor slug label level
    fail_if (not (no_errors errors)) (field_error 422 errors)
    n ← or_fail level (field_error 422 errors)
    ok (slug, label, n)

  pub create_org_role : Store → ℕ → Fields → Result RoleError (Store × String)
  create_org_role db actor_sub body = do
    actor ← lock_actors db actor_sub
    require_permission actor.granted "org.roles.create"
    (slug, label, level) ← read_role actor.level body
    db' ← insert_role db slug label level
    ok (write_audit db' actor_sub "role.create" none, slug)

  pub read_level : List String → Level → Option Json → Result RoleError (Option ℤ)
  read_level granted actor none = ok none
  read_level granted actor (some raw) = do
    require_permission granted "org.roles.edit.level"
    n ← or_fail (number_of raw) (field_error 422 ("level" ∷ []))
    fail_if (not (is_level n) || le_level (finite n) actor) (field_error 422 ("level" ∷ []))
    ok (some n)

  pub patch_org_role : Store → ℕ → String → Fields → Result RoleError Store
  patch_org_role db actor_sub slug body = do
    actor ← lock_actors db actor_sub
    found ← or_fail (find? (has_slug slug) db.org_roles) (fail 404 "not_found")
    fail_if (le_level (finite found.level) actor.level) (fail 403 "role_above_level")
    label ← read_label actor.granted (as_text (get "label" body))
    level ← read_level actor.granted actor.level (get "level" body)
    fail_if (not (is_some label) && not (is_some level)) (fail 400 "no_fields")
    let patch : RolePatch = record { label = label; level = level }
    ok (
        write_audit (record db { org_roles = update_role slug (apply_patch patch) db.org_roles })
          actor_sub "role.edit" none)

pub delete_org_role : Store → ℕ → String → Result RoleError Store
delete_org_role db actor_sub slug = do
  actor ← lock_actors db actor_sub
  require_permission actor.granted "org.roles.remove"
  found ← or_fail (find? (has_slug slug) db.org_roles) (fail 404 "not_found")
  fail_if found.is_system (fail 409 "system_role")
  fail_if (le_level (finite found.level) actor.level) (fail 403 "role_above_level")
  fail_if (role_in_use db slug) (fail 409 "role_in_use")
  fail_if (default_org_role db == slug) (fail 409 "role_is_default")
  ok (write_audit (remove_role db slug) actor_sub "role.delete" none)

pub set_default_org_role : Store → ℕ → String → Result RoleError Store
set_default_org_role db actor_sub slug = do
  actor ← lock_actors db actor_sub
  require_permission actor.granted "org.roles.edit.default"
  found ← or_fail (find? (has_slug slug) db.org_roles) (fail 404 "not_found")
  fail_if (le_level (finite found.level) actor.level) (fail 403 "role_above_level")
  ok (
      write_audit (record db { settings = write "default_org_role" (some slug) db.settings })
        actor_sub "role.default_change" none)

pub record PreparedOrgUser : Type 0 where
  pub sub : ℕ
  pub username : String
  pub display_name : String
  pub email : String
  pub password_hash : String
  pub role_slug : String

-- `NULLIF($4,'')`.
abbrev nullif_empty : String → Option String
nullif_empty s = if s == "" then none else some s

abbrev new_identity : PreparedOrgUser → Identity
new_identity input = record {
  sub = input.sub;
  username = input.username;
  display_name = input.display_name;
  email = nullif_empty input.email;
  password_hash = input.password_hash;
  status = active;
  deleted = false;
}

-- The unique indexes cover the rows that are not deleted; `fold` stands for the case folding of the
-- columns' citext type. A primary key clash is answered like a taken username.
module _ (fold : String → String) where
  abbrev username_taken : PreparedOrgUser → Identity → Bool
  username_taken input i =
      i.sub == input.sub || (not i.deleted && fold i.username == fold input.username)

  abbrev email_taken : Option String → Identity → Bool
  email_taken none i = false
  email_taken (some e) i =
      not i.deleted && elim i.email [ none ↦ false | some f ↦ fold f == fold e ]

  pub insert_org_user : Store → PreparedOrgUser → String → Result RoleError Store
  insert_org_user db input slug = do
    fail_if (any (username_taken input) db.identities) (field_error 409 ("username" ∷ []))
    fail_if (any (email_taken (nullif_empty input.email)) db.identities)
        (field_error 409 ("email" ∷ []))
    ok (record db {
      identities = db.identities ++ new_identity input ∷ [];
      user_org_roles = write input.sub (some slug) db.user_org_roles;
    })

  pub create_org_user : Store → ℕ → PreparedOrgUser → Result RoleError (Store × ℕ)
  create_org_user db actor_sub input = do
    actor ← lock_actors db actor_sub
    require_permission actor.granted "org.users.create"
    found ←
        or_fail (find? (has_slug input.role_slug) db.org_roles) (field_error 422 ("org_role" ∷ []))
    fail_if (le_level (finite found.level) actor.level) (field_error 422 ("org_role" ∷ []))
    db' ← insert_org_user db input found.slug
    ok (write_audit db' actor_sub "user.create" (some input.sub), input.sub)
