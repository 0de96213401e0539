-- ===== src/Rbac/Authz.antt =====
-- src/rbac/index.ts: the permission engine. A key is granted by the subject's override, else by the
-- role's default, else denied.
pub mod Guards
use dreamsso.Common.{
  ℕ, String, Bool, true, false, not, ◌&&◌, Option, none, some, List, [], ◌∷◌, ◌==◌, any, find?,
  contains, get_or, if◌then◌else◌, string_eq, nat_eq,
}
use dreamsso.Store.{Store, OrgRole, Effect, grant, deny, effect_eq}
use dreamsso.Rbac.Catalog.{PermDef, permissions}
use dreamsso.Rbac.Patterns.{match_perm}
use dreamsso.Rbac.Level.{Level, finite, infinite, lt_level}

pub record UserAuthz : Type 0 where
  pub role : Option String
  pub level : Level
  pub granted : List String

abbrev pub has_slug : String → OrgRole → Bool
has_slug slug role = role.slug == slug

-- user_org_roles joined with org_roles.
unfoldable pub role_row : Store → ℕ → Option OrgRole
role_row db sub = elim (db.user_org_roles sub) [
  | none ↦ none
  | some slug ↦ find? (has_slug slug) db.org_roles
]

-- role_permissions joined with user_org_roles.
unfoldable pub role_effect : Store → ℕ → String → Option Effect
role_effect db sub key = elim (db.user_org_roles sub) [
  | none ↦ none
  | some slug ↦ db.role_permissions slug key
]

-- `override.get(key) ?? roleEffect.get(key) ?? 'deny'`.
unfoldable pub effect_of : Store → ℕ → String → Effect
unfolding role_effect
effect_of db sub key =
    get_or (db.user_permission_overrides sub key) (get_or (role_effect db sub key) deny)

-- The loop over PERMISSIONS.
unfoldable pub collect_granted : Store → ℕ → List PermDef → List String
collect_granted db sub [] = []
collect_granted db sub (def ∷ defs) =
    let rest = collect_granted db sub defs in
    if effect_of db sub def.key == grant then def.key ∷ rest else rest

abbrev slug_of : Option OrgRole → Option String
slug_of none = none
slug_of (some role) = some role.slug

abbrev pub level_of : Option OrgRole → Level
level_of none = infinite
level_of (some role) = finite role.level

unfoldable pub get_role_level : Store → ℕ → Level
unfolding role_row
get_role_level db sub = level_of (role_row db sub)

unfoldable pub resolve_authz : Store → ℕ → UserAuthz
unfolding role_row
resolve_authz db sub = record {
  role = slug_of (role_row db sub);
  level = level_of (role_row db sub);
  granted = collect_granted db sub permissions;
}

unfoldable pub has_perm : Store → ℕ → String → Bool
has_perm db sub key = contains (resolve_authz db sub).granted key

-- The statuses of `requirePerm`; the subject is that of the access token, if there is one.
pub data Gate : Type 0 where
  unauthorized forbidden next : Gate

pub require_perm : Store → Option ℕ → String → Gate
unfolding has_perm
require_perm db none key = unauthorized
require_perm db (some sub) key = if has_perm db sub key then next else forbidden

-- `hasAnyPerm`: a granted key that the pattern matches.
pub has_any_perm : Store → ℕ → String → Bool
has_any_perm db sub pattern = any (match_perm pattern) (resolve_authz db sub).granted

unfoldable pub can_administer : Store → ℕ → ℕ → Bool
can_administer db actor target =
    if actor == target then false else lt_level (get_role_level db actor) (get_role_level db target)
