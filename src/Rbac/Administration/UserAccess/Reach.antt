-- ===== src/Rbac/Administration/UserAccess/Reach.antt =====
-- The app roles that the writes of `applyUserAccess` (src/rbac/roleAdministration.ts) leave.
use text.Mathlib.TextEquality.{eq_iff}
use dreamsso.Common.{
  ℕ, String, true, false, Option, none, some, ◌≡◌, refl, sym, ap, ◌∙◌, ◌⊎◌, inl, inr, subst, List,
  [], ◌∷◌, ◌==◌, any, contains, is_some, arith, All, Bool-cases, Option-cases, string_eq, nat_eq,
  option_eq, beq_refl,
}
use dreamsso.Common.Int.{ℤ, int_eq}
use dreamsso.Store.{Store, write₂}
use dreamsso.Rbac.Level.{◌≤ₗ◌, le_of_not_lt_level}
use dreamsso.Rbac.AppRoles.{effective_app_role, app_role_level}
use dreamsso.Rbac.Administration.{Value, role, inherit, org_default}
use dreamsso.Rbac.Administration.UserAccess.{
  UserPlan, resulting, app_level, stored, write_values, write_user_access, above_by_inheritance,
}
use dreamsso.Rbac.Administration.UserAccess.Plan.{WithinReach}

module _ (P : String × Value → Type 0) (sub : ℕ) (client : String) where
  write_values-outcome :
      (es : List (String × Value)) (table : ℕ → String → Option (Option ℤ))
      → All P es
      → ((any (λ e. e.0 == client) es ≡ false)
          × (write_values sub es table sub client ≡ table sub client))
        ⊎ ((v : Value) × (write_values sub es table sub client ≡ stored v) × P (client, v))
  unfolding write_values
  write_values-outcome [] table h = inl (refl, refl)
  write_values-outcome ((k, v) ∷ es) table h =
      elim (write_values-outcome es (write₂ sub k (stored v) table) h.1) [
        | inr p ↦ inr p
        | inl same ↦ elim (Bool-cases (k == client)) [
          | inl hit ↦
              inr (v, ground (arith, beq_refl sub), subst P (ground (arith, eq_iff k client)) h.0)
          | inr miss ↦ inl (ground arith)
        ]
      ]

module _ (db : Store) (sub : ℕ) (client : String) where
  effective_overridden :
      (r : Option ℤ)
      → db.user_app_role_overrides sub client ≡ some r
      → (effective_app_role db sub client).role_id ≡ r
  unfolding effective_app_role
  effective_overridden r h = ground arith

  effective_inherited :
      db.user_app_role_overrides sub client ≡ none
      → is_some (db.app_role_catalogs client) ≡ true
      → (effective_app_role db sub client).role_id ≡ org_default db (db.user_org_roles sub) client
  unfolding effective_app_role org_default
  effective_inherited h managed = ground arith

module _ (db : Store) (actor target : ℕ) (plan : UserPlan)
    (kept : plan.org_role ≡ none → plan.new_slug ≡ db.user_org_roles target)
    (reach : All (WithinReach db actor target plan.new_slug) plan.app_roles)
    (inherited : (client : String)
      → is_some plan.org_role ≡ true
      → contains db.catalog_clients client ≡ true
      → above_by_inheritance db actor target plan.new_slug plan.app_roles client ≡ false)
    (client : String) (managed : is_some (db.app_role_catalogs client) ≡ true)
    (listed : contains db.catalog_clients client ≡ true) where
  after : Store
  after = write_user_access db target plan

  slug_after : after.user_org_roles target ≡ plan.new_slug
  unfolding write_user_access after
  slug_after = elim (Option-cases plan.org_role) [
    | inl n ↦ ground (arith, kept n)
    | inr (slug, n) ↦ ground (arith, beq_refl target)
  ]

  org_default_after :
      (slug : Option String) → org_default after slug client ≡ org_default db slug client
  unfolding org_default write_user_access after
  org_default_after slug = refl

  managed_after : is_some (after.app_role_catalogs client) ≡ true
  unfolding write_user_access after
  managed_after = managed

  inherited_after :
      after.user_app_role_overrides target client ≡ none
      → (effective_app_role after target client).role_id ≡ org_default db plan.new_slug client
  inherited_after h =
      effective_inherited after target client h managed_after
      ∙ org_default_after (after.user_org_roles target)
      ∙ ap (λ s. org_default db s client) slug_after

  entry_after :
      (v : Value)
      → after.user_app_role_overrides target client ≡ stored v
      → (effective_app_role after target client).role_id ≡ resulting db plan.new_slug client v
  entry_after inherit e = inherited_after e
  entry_after (role r) e = effective_overridden after target client r e

  uninherited :
      is_some plan.org_role ≡ true
      → any (λ e. e.0 == client) plan.app_roles ≡ false
      → db.user_app_role_overrides target client ≡ none
      → (org_default db plan.new_slug client ≡ (effective_app_role db target client).role_id)
        ⊎ (app_level db client actor
            ≤ₗ app_role_level db client (org_default db plan.new_slug client))
  uninherited asked missed empty =
      let checked = inherited client asked listed in
      let before = (effective_app_role db target client).role_id in
      let then_role = org_default db plan.new_slug client in
      elim (Bool-cases (then_role == before)) [
        | inl same ↦ inl ((option_eq.beq_iff then_role before).0 same)
        | inr other ↦ inr (
            le_of_not_lt_level (app_role_level db client then_role) (app_level db client actor)
              (unfold above_by_inheritance in ground arith))
      ]

  reached :
      (r : Option ℤ)
      → (effective_app_role after target client).role_id ≡ r
      → app_level db client actor ≤ₗ app_role_level db client r
      → app_level db client actor ≤ₗ app_level after client target
  unfolding write_user_access after app_role_level
  reached r e h = rw e h

  untouched :
      after.user_app_role_overrides target client ≡ none
      → db.user_app_role_overrides target client ≡ none
      → any (λ e. e.0 == client) plan.app_roles ≡ false
      → ((effective_app_role after target client).role_id
          ≡ (effective_app_role db target client).role_id)
        ⊎ (app_level db client actor ≤ₗ app_level after client target)
  untouched now o missed = elim (Option-cases plan.org_role) [
    | inl n ↦ inl (
        inherited_after now
        ∙ ap (λ s. org_default db s client) (kept n)
        ∙ sym (effective_inherited db target client o managed))
    | inr (slug, n) ↦ elim (uninherited (ap is_some n) missed o) [
      | inl same ↦ inl (inherited_after now ∙ same)
      | inr le ↦ inr (reached (org_default db plan.new_slug client) (inherited_after now) le)
    ]
  ]

  pub role_after :
      ((effective_app_role (write_user_access db target plan) target client).role_id
        ≡ (effective_app_role db target client).role_id)
      ⊎ (app_level db client actor ≤ₗ app_level (write_user_access db target plan) client target)
  unfolding write_user_access after
  role_after =
      elim (write_values-outcome (WithinReach db actor target plan.new_slug) target client
        plan.app_roles db.user_app_role_overrides reach) [
          | inr (v, e, r) ↦
              inr (reached (resulting db plan.new_slug client v) (entry_after v e) r.after)
          | inl (missed, same) ↦ elim (Option-cases (db.user_app_role_overrides target client)) [
            | inl o ↦ untouched (same ∙ o) o missed
            | inr (r, o) ↦ inl (
                effective_overridden after target client r (same ∙ o)
                ∙ sym (effective_overridden db target client r o))
          ]
        ]
