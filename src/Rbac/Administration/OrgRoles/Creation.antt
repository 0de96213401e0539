-- ===== src/Rbac/Administration/OrgRoles/Creation.antt =====
-- What `createOrgRole` of src/rbac/roleAdministration.ts makes on success: a role below the actor.
use dreamsso.Common.{
  ℕ, String, Bool, true, false, not, Option, none, some, ◌≡◌, refl, ap, ◌∙◌, subst, List, [], ◌∷◌,
  ◌++◌, find?, any, arith, string_eq, nat_eq, option_eq, beq_refl, if◌then◌else◌,
}
use dreamsso.Common.Int.{ℤ, int_eq}
use dreamsso.Common.Result.{ok, >>=-eq-ok, ok-injective, fail_if-ok, or_fail-ok}
use dreamsso.Common.Text.{codes}
use dreamsso.Json.{Fields, Json, get}
use dreamsso.Store.{Store, OrgRole}
use dreamsso.Rbac.Level.{Level, finite, le_level, ◌<ₗ◌}
use dreamsso.Rbac.Authz.{has_slug, get_role_level}
use dreamsso.Rbac.Administration.{lock_actors, write_audit, require_permission}
use dreamsso.Rbac.Administration.OrgRoles.{
  level_errors, no_errors, role_errors, read_role, insert_role, create_org_role, seed_role,
  default_org_role, is_slug, is_label, number_field,
}
use dreamsso.Rbac.Administration.OrgRoles.Below.{outranks}

find?-append :
    (p : OrgRole → Bool) (rs ss : List OrgRole) → any p rs ≡ false → find? p (rs ++ ss) ≡ find? p ss
find?-append p [] ss h = refl
find?-append p (r ∷ rs) ss h = ground (arith, find?-append p rs ss)

no_errors_append :
    (xs ys zs : List String) → no_errors (xs ++ ys ++ zs) ≡ true → no_errors zs ≡ true
no_errors_append [] [] zs h = h
no_errors_append [] (y ∷ ys) zs h = cc
no_errors_append (x ∷ xs) ys zs h = cc

level_errors-below :
    (actor : Level) (level : Option ℤ) (n : ℤ)
    → no_errors (level_errors actor level) ≡ true
    → level ≡ some n
    → le_level (finite n) actor ≡ false
unfolding level_errors
level_errors-below actor level n h e = ground arith

role_errors-below :
    (actor : Level) (slug label : String) (level : Option ℤ) (n : ℤ)
    → not (no_errors (role_errors actor slug label level)) ≡ false
    → level ≡ some n
    → le_level (finite n) actor ≡ false
unfolding role_errors
role_errors-below actor slug label level n clean e =
    level_errors-below actor level n
      (no_errors_append (if is_slug (codes slug) then [] else "slug" ∷ [])
        (if is_label label then [] else "label" ∷ []) (level_errors actor level) (ground arith))
      e

read_role-below :
    (number_of : Json → Option ℤ) (actor : Level) (body : Fields) (slug label : String) (n : ℤ)
    → read_role number_of actor body ≡ ok (slug, label, n)
    → le_level (finite n) actor ≡ false
unfolding read_role
read_role-below number_of actor body slug label n h =
    let (clean, h₁) = fail_if-ok (not (no_errors (role_errors actor _ _ _))) _ _ h in
    let (m, e, h₂) = or_fail-ok _ _ _ h₁ in
    role_errors-below actor _ _ (number_field number_of (get "level" body)) n clean
      (e ∙ ap (λ t. some t.2) (ok-injective h₂))

find?-absent :
    (slug : String) (rs : List OrgRole) (r : OrgRole)
    → any (has_slug slug) rs ≡ false
    → has_slug slug r ≡ true
    → find? (has_slug slug) (rs ++ r ∷ []) ≡ some r
find?-absent slug rs r free same = ground (arith, find?-append (has_slug slug) rs (r ∷ []))

-- What a created role is: its slug was free, it ranks strictly below the actor, it is no system role,
-- and it has the permissions and the app defaults of the default org role.
pub record Created (db : Store) (actor : ℕ) (db' : Store) (slug : String) : Type 0 where
  pub added : OrgRole
  pub free : any (has_slug slug) db.org_roles ≡ false
  pub found : find? (has_slug slug) db'.org_roles ≡ some added
  pub below : get_role_level db actor <ₗ finite added.level
  pub plain : added.is_system ≡ false
  pub permissions :
      (key : String) → db'.role_permissions slug key ≡ db.role_permissions (default_org_role db) key
  pub defaults :
      (client : String)
      → db'.org_role_app_defaults slug client
        ≡ db.org_role_app_defaults (default_org_role db) client

seed_role-Created :
    (db : Store) (actor : ℕ) (slug label : String) (n : ℤ)
    → any (has_slug slug) db.org_roles ≡ false
    → get_role_level db actor <ₗ finite n
    → Created db actor
        (write_audit (seed_role db slug label n (default_org_role db)) actor "role.create" none)
        slug
unfolding seed_role write_audit
seed_role-Created db actor slug label n free below = record {
  added = record { slug = slug; label = label; level = n; is_system = false };
  free = free;
  found = find?-absent slug db.org_roles _ free (beq_refl slug);
  below = below;
  plain = refl;
  permissions = λ key. ground (arith, beq_refl slug);
  defaults = λ client. ground (arith, beq_refl slug);
}

-- A successful creation made a role under a free slug, strictly below the actor, no system role,
-- with the permissions and the app defaults of the default org role.
pub create_org_role-Created :
    (number_of : Json → Option ℤ) (db : Store) (actor : ℕ) (body : Fields) (db' : Store)
    (slug : String)
    → create_org_role number_of db actor body ≡ ok (db', slug)
    → Created db actor db' slug
unfolding create_org_role insert_role
create_org_role-Created number_of db actor_sub body db' slug h =
    let (actor, locked, h₁) = >>=-eq-ok (lock_actors db actor_sub) _ h in
    let (_, _, h₂) = >>=-eq-ok (require_permission actor.granted "org.roles.create") _ h₁ in
    let ((s, label, n), read, h₃) = >>=-eq-ok (read_role number_of actor.level body) _ h₂ in
    let (mid, inserted, h₄) = >>=-eq-ok (insert_role db s label n) _ h₃ in
    let below = read_role-below number_of actor.level body s label n read in
    let (free, i₁) = fail_if-ok (any (has_slug s) db.org_roles) _ _ inserted in
    let (_, i₂) = fail_if-ok (not (any (has_slug (default_org_role db)) db.org_roles)) _ _ i₁ in
    subst (λ p. Created db actor_sub p.0 p.1) (ok-injective h₄)
      (subst (λ d. Created db actor_sub (write_audit d actor_sub "role.create" none) s)
        (ok-injective i₂)
        (seed_role-Created db actor_sub s label n free
          (outranks db actor_sub actor n locked below)))
