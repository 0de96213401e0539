-- ===== src/Rbac/AppRoles.antt =====
-- src/rbac/appRoles.ts: which app role a subject has at a client, and whether it may sign in there.
pub mod Resolution
use dreamsso.Common.{
  ℕ, String, Bool, true, false, Option, none, some, List, [], ◌∷◌, ◌==◌, any, find?, is_some,
}
use dreamsso.Common.Int.{int_eq}
use dreamsso.Common.Int.{ℤ}
use dreamsso.Store.{Store, CatalogRole}
use dreamsso.Rbac.Level.{Level, finite, infinite}

pub data RoleSource : Type 0 where
  override org catalog no_source : RoleSource

pub record EffectiveAppRole : Type 0 where
  pub role_id : Option ℤ
  pub source : RoleSource

-- org_role_app_defaults joined with user_org_roles.
unfoldable pub org_default_row : Store → ℕ → String → Option (Option ℤ)
org_default_row db sub client = elim (db.user_org_roles sub) [
  | none ↦ none
  | some slug ↦ db.org_role_app_defaults slug client
]

unfoldable pub effective_app_role : Store → ℕ → String → EffectiveAppRole
unfolding org_default_row
effective_app_role db sub client = elim (db.user_app_role_overrides sub client) [
  | some role ↦ record { role_id = role; source = override }
  | none ↦ elim (org_default_row db sub client) [
    | some role ↦ record { role_id = role; source = org }
    | none ↦ elim (db.app_role_catalogs client) [
      | some cat ↦ record { role_id = cat.default_role_id; source = catalog }
      | none ↦ record { role_id = none; source = no_source }
    ]
  ]
]

abbrev pub has_id : ℤ → CatalogRole → Bool
has_id id role = role.role_id == id

unfoldable pub app_role_level : Store → String → Option ℤ → Level
app_role_level db client none = infinite
app_role_level db client (some id) = elim (find? (has_id id) (db.app_roles client)) [
  | none ↦ infinite
  | some role ↦ finite role.level
]

unfoldable pub has_app_catalog : Store → String → Bool
has_app_catalog db client = is_some (db.app_role_catalogs client)

abbrev pub role_known : Store → String → Option ℤ → Bool
role_known db client none = false
role_known db client (some id) = any (has_id id) (db.app_roles client)

unfoldable pub app_access_allowed : Store → String → ℕ → Bool
unfolding has_app_catalog effective_app_role
app_access_allowed db client sub = elim (has_app_catalog db client) [
  | false ↦ true
  | true ↦ role_known db client (effective_app_role db sub client).role_id
]
