-- ===== src/Rbac/Administration/UserAccess/Writes.antt =====
-- What the writes of `applyUserAccess` of src/rbac/roleAdministration.ts do to the tables.
use text.Mathlib.TextEquality.{eq_iff}
use dreamsso.Common.{
  ℕ, String, false, Option, none, some, ◌≡◌, refl, sym, ap, ◌⊎◌, inl, inr, subst, List, [], ◌∷◌,
  ◌==◌, find?, arith, All, Bool-cases, string_eq, nat_eq, option_eq, beq_refl, find?_holds,
}
use dreamsso.Common.Int.{ℤ, int_eq}
use dreamsso.Store.{Store, OrgRole, Effect, write₂}
use dreamsso.Rbac.Level.{Level, finite, ◌<ₗ◌}
use dreamsso.Rbac.AppRoles.{effective_app_role, app_role_level}
use dreamsso.Rbac.Authz.{has_slug, get_role_level}
use dreamsso.Rbac.Administration.{Value}
use dreamsso.Rbac.Administration.UserAccess.{
  UserPlan, app_level, stored, write_effects, write_values, write_user_access,
}
use dreamsso.Rbac.Administration.UserAccess.Plan.{Outranked, outranked}
use dreamsso.Rbac.Administration.UserAccess.Success.{Follows, follows}

pub Follows-role_permissions :
    {db db' : Store} → Follows db db' → db'.role_permissions ≡ db.role_permissions
Follows-role_permissions (follows s o l a e) = ap (λ d. d.role_permissions) e

pub Follows-get_role_level :
    {db db' : Store} (sub : ℕ) → Follows db db' → get_role_level db' sub ≡ get_role_level db sub
unfolding get_role_level
Follows-get_role_level sub (follows s o l a e) = rw e refl

pub Follows-overrides :
    {db db' : Store} → Follows db db' → db'.user_permission_overrides ≡ db.user_permission_overrides
Follows-overrides (follows s o l a e) = ap (λ d. d.user_permission_overrides) e

pub Follows-org_roles : {db db' : Store} → Follows db db' → db'.user_org_roles ≡ db.user_org_roles
Follows-org_roles (follows s o l a e) = ap (λ d. d.user_org_roles) e

pub Follows-app_role :
    {db db' : Store} (sub : ℕ) (client : String)
    → Follows db db'
    → (effective_app_role db' sub client).role_id ≡ (effective_app_role db sub client).role_id
unfolding effective_app_role
Follows-app_role sub client (follows s o l a e) = rw e refl

pub Follows-app_level :
    {db db' : Store} (sub : ℕ) (client : String)
    → Follows db db'
    → app_level db' client sub ≡ app_level db client sub
unfolding effective_app_role app_role_level
Follows-app_level sub client (follows s o l a e) = rw e refl

pub level_elsewhere :
    (db : Store) (target sub : ℕ) (plan : UserPlan)
    → (target == sub) ≡ false
    → get_role_level (write_user_access db target plan) sub ≡ get_role_level db sub
unfolding get_role_level write_user_access
level_elsewhere db target sub plan h = ground arith

pub some-injective : {A : Type 0} {a b : A} → ◌≡◌ {A = Option A} (some a) (some b) → a ≡ b
some-injective h = cc

-- A new org role by its row.
pub Outranked-role :
    (db : Store) (level : Level) (new_slug : Option String)
    → Outranked db level new_slug
    → (role : OrgRole) × (find? (has_slug role.slug) db.org_roles ≡ some role)
      × (new_slug ≡ some role.slug)
      × (level <ₗ finite role.level)
Outranked-role db level new_slug (outranked name found f s below) =
    let same : name ≡ found.slug =
      sym ((eq_iff found.slug name).0 (find?_holds (has_slug name) db.org_roles found f)) in
    (found, subst (λ x. find? (has_slug x) db.org_roles ≡ some found) same f, s, below)

pub Outranked-level :
    (db : Store) (target : ℕ) (plan : UserPlan) (level : Level) (slug : String)
    → plan.org_role ≡ some slug
    → Outranked db level plan.new_slug
    → level <ₗ get_role_level (write_user_access db target plan) target
unfolding get_role_level write_user_access
Outranked-level db target plan level slug asked reach =
    let (found, again, s, below) = Outranked-role db level plan.new_slug reach in
    let reached : get_role_level (write_user_access db target plan) target ≡ finite found.level =
      ground (arith, beq_refl target) in
    subst (λ l. level <ₗ l) (sym reached) below

pub level_kept :
    (db : Store) (target : ℕ) (plan : UserPlan)
    → plan.org_role ≡ none
    → get_role_level (write_user_access db target plan) target ≡ get_role_level db target
unfolding get_role_level write_user_access
level_kept db target plan h = ground arith

module _ (P : String × Option Effect → Type 0) (sub : ℕ) (key : String) where
  pub write_effects-outcome :
      (es : List (String × Option Effect)) (table : ℕ → String → Option Effect)
      → All P es
      → (write_effects sub es table sub key ≡ table sub key)
        ⊎ P (key, write_effects sub es table sub key)
  unfolding write_effects
  write_effects-outcome [] table h = inl refl
  write_effects-outcome ((k, choice) ∷ es) table h =
      elim (write_effects-outcome es (write₂ sub k choice table) h.1) [
        | inr p ↦ inr p
        | inl same ↦ elim (Bool-cases (k == key)) [
          | inl hit ↦ inr (subst P (ground (arith, eq_iff k key, beq_refl sub)) h.0)
          | inr miss ↦ inl (ground arith)
        ]
      ]

pub write_effects_elsewhere :
    (sub other : ℕ) (key : String) (es : List (String × Option Effect))
    (table : ℕ → String → Option Effect)
    → (sub == other) ≡ false
    → write_effects sub es table other key ≡ table other key
unfolding write_effects
write_effects_elsewhere sub other key [] table h = refl
write_effects_elsewhere sub other key ((k, c) ∷ es) table h =
    ground (arith, write_effects_elsewhere sub other key es (write₂ sub k c table))

pub write_values_elsewhere :
    (sub other : ℕ) (client : String) (es : List (String × Value))
    (table : ℕ → String → Option (Option ℤ))
    → (sub == other) ≡ false
    → write_values sub es table other client ≡ table other client
unfolding write_values
write_values_elsewhere sub other client [] table h = refl
write_values_elsewhere sub other client ((k, v) ∷ es) table h =
    ground (arith, write_values_elsewhere sub other client es (write₂ sub k (stored v) table))

pub role_elsewhere :
    (db : Store) (target other : ℕ) (client : String) (plan : UserPlan)
    → (target == other) ≡ false
    → write_values target plan.app_roles db.user_app_role_overrides other client
      ≡ db.user_app_role_overrides other client
    → (effective_app_role (write_user_access db target plan) other client).role_id
      ≡ (effective_app_role db other client).role_id
unfolding write_user_access effective_app_role
role_elsewhere db target other client plan h kept = ground arith
