-- ===== src/Rbac/Administration/UserAccess/Safety.antt =====
-- What a successful `applyUserAccess` of src/rbac/roleAdministration.ts cannot have done.
use dreamsso.Common.{
  ℕ, String, true, false, none, some, ◌≡◌, sym, ap, ◌∙◌, ◌≢◌, ◌⊎◌, inl, inr, subst, ◌==◌, find?,
  contains, is_some, arith, All, Bool-cases, Option-cases, string_eq, nat_eq, option_eq, beq_refl,
}
use dreamsso.Common.Int.{int_eq}
use dreamsso.Common.Result.{ok}
use dreamsso.Json.{Fields}
use dreamsso.Store.{Store, OrgRole, grant}
use dreamsso.Rbac.Level.{finite, ◌<ₗ◌, ◌≤ₗ◌, lt_of_not_le_level}
use dreamsso.Rbac.AppRoles.{effective_app_role}
use dreamsso.Rbac.Authz.{has_slug, get_role_level, has_perm}
use dreamsso.Rbac.Authz.Guards.{Grants, by_user, by_role, has_perm_iff}
use dreamsso.Rbac.Administration.{mfa_disable}
use dreamsso.Rbac.Administration.UserAccess.{
  UserPlan, app_level, write_effects, write_user_access, apply_user_access, above_by_inheritance,
}
use dreamsso.Rbac.Administration.UserAccess.Writes.{
  Follows-role_permissions, Follows-get_role_level, Follows-overrides, Follows-org_roles,
  Follows-app_role, Follows-app_level, level_elsewhere, some-injective, Outranked-role,
  Outranked-level, level_kept, write_effects-outcome, write_effects_elsewhere,
  write_values_elsewhere, role_elsewhere,
}
use dreamsso.Rbac.Administration.UserAccess.Reach.{role_after}
use dreamsso.Rbac.Administration.UserAccess.Plan.{lock_actors-ok, MayWrite, WithinReach}
use dreamsso.Rbac.Administration.UserAccess.Success.{Success, apply_user_access-Success}

-- A permission that came with a new org role, which the actor outranks.
pub record HandedDown (db db' : Store) (actor target : ℕ) (key : String) : Type 0 where
  pub slug : String
  pub role : OrgRole
  pub no_override : db'.user_permission_overrides target key ≡ none
  pub assigned : db'.user_org_roles target ≡ some slug
  pub changed : db.user_org_roles target ≢ some slug
  pub found : find? (has_slug slug) db.org_roles ≡ some role
  pub granted : db.role_permissions slug key ≡ some grant
  pub below : get_role_level db actor <ₗ finite role.level

module _ (new_epoch : String → ℕ) (db : Store) (actor target : ℕ) (changes : Fields)
    (action : String) (db' : Store)
    (done : apply_user_access new_epoch db actor target changes action ≡ ok db') where
  success : Success db actor target db'
  success = apply_user_access-Success new_epoch db actor target changes action db' done

  actor_level : success.actor.level ≡ get_role_level db actor
  actor_level = (lock_actors-ok db actor success.actor success.admitted.locked).1

  plan : UserPlan
  plan = success.plan

  level_after : get_role_level db actor <ₗ get_role_level (write_user_access db target plan) target
  unfolding plan
  level_after =
      subst (λ l. l <ₗ get_role_level (write_user_access db target plan) target) actor_level
        (elim (Option-cases plan.org_role) [
          | inl n ↦
              subst (λ l. success.actor.level <ₗ l) (sym (level_kept db target plan n))
                (lt_of_not_le_level (get_role_level db target) success.actor.level
                  success.admitted.lower)
          | inr (slug, n) ↦
              Outranked-level db target plan success.actor.level slug n
                (success.checked.lower slug n)
        ])

  -- In a successful call the actor is another subject than the target, outranks it before the call, and
  -- outranks it after: no call raises a subject to the actor's own level or above.
  pub apply_user_access-outranks :
      (actor ≢ target)
      × (get_role_level db actor <ₗ get_role_level db target)
      × (get_role_level db' actor <ₗ get_role_level db' target)
  unfolding plan
  apply_user_access-outranks =
      let other = success.admitted.other in
      (
        ground arith,
        subst (λ l. l <ₗ get_role_level db target) actor_level
            (lt_of_not_le_level (get_role_level db target) success.actor.level
              success.admitted.lower),
        rw
            (
              Follows-get_role_level actor success.written,
              Follows-get_role_level target success.written,
              level_elsewhere db target actor plan other,
            )
            level_after,
      )

  written_overrides :
      (key : String)
      → db'.user_permission_overrides target key
        ≡ write_effects target plan.permissions db.user_permission_overrides target key
  unfolding plan write_user_access
  written_overrides key = ap (λ table. table target key) (Follows-overrides success.written)

  -- The entry of a key is as it was, or one that the actor may write.
  override_after :
      (key : String)
      → (db'.user_permission_overrides target key ≡ db.user_permission_overrides target key)
        ⊎ (has_perm db actor key ≡ true)
        ⊎ (key ≡ mfa_disable)
  unfolding has_perm plan
  override_after key =
      elim (write_effects-outcome (MayWrite success.actor.granted) target key plan.permissions
        db.user_permission_overrides success.checked.held) [
          | inl same ↦ inl (written_overrides key ∙ same)
          | inr (inl held) ↦ inr (
              inl (
                subst (λ g. contains g key ≡ true)
                  (lock_actors-ok db actor success.actor success.admitted.locked).2 held))
          | inr (inr exempt) ↦ inr (inr exempt)
        ]

  -- The target's org role is as it was, or another one below the actor.
  org_role_after :
      (slug : String)
      → db'.user_org_roles target ≡ some slug
      → (db.user_org_roles target ≡ some slug)
        ⊎ ((role : OrgRole) × (find? (has_slug slug) db.org_roles ≡ some role)
            × (db.user_org_roles target ≢ some slug)
            × (get_role_level db actor <ₗ finite role.level))
  unfolding plan write_user_access
  org_role_after slug h =
      let written : (write_user_access db target plan).user_org_roles target ≡ some slug =
        ap (λ table. table target) (sym (Follows-org_roles success.written)) ∙ h in
      elim (Bool-cases (db.user_org_roles target == some slug)) [
        | inl before ↦ inl ((option_eq.beq_iff (db.user_org_roles target) (some slug)).0 before)
        | inr differs ↦ elim (Option-cases plan.org_role) [
          | inl kept ↦ inl (ground arith)
          | inr (asked, n) ↦
              let (role, found, named, below) =
                Outranked-role db success.actor.level plan.new_slug
                  (success.checked.lower asked n) in
              let same : plan.new_slug ≡ some slug = ground (arith, beq_refl target) in
              let slug_of : role.slug ≡ slug = some-injective (sym named ∙ same) in
              inr (
                role,
                subst (λ x. find? (has_slug x) db.org_roles ≡ some role) slug_of found,
                (λ e.
                    let again = (option_eq.beq_iff (db.user_org_roles target) (some slug)).1 e in
                    ground arith),
                subst (λ l. l <ₗ finite role.level) actor_level below,
              )
        ]
      ]

  -- After a successful call, a permission that the target holds is one that it held before, one that the
  -- actor holds, or the exempt MFA key; or the target holds it, without an override of its own, by a new
  -- org role of a level below the actor's.
  pub apply_user_access_grants :
      (key : String)
      → has_perm db' target key ≡ true
      → (has_perm db target key ≡ true)
        ⊎ (has_perm db actor key ≡ true)
        ⊎ (key ≡ mfa_disable)
        ⊎ HandedDown db db' actor target key
  unfolding write_user_access
  apply_user_access_grants key h =
      let (listed, grants) = (has_perm_iff db' target key).0 h in
      let held : Grants db target key → has_perm db target key ≡ true =
        λ g. (has_perm_iff db target key).1 (listed, g) in
      elim (override_after key) [
        | inr (inl own) ↦ inr (inl own)
        | inr (inr exempt) ↦ inr (inr (inl exempt))
        | inl same ↦ elim grants [
          | by_user o ↦ inl (held (by_user (sym same ∙ o)))
          | by_role slug o r p ↦
              let granted : db.role_permissions slug key ≡ some grant =
                ap (λ table. table slug key) (sym (Follows-role_permissions success.written)) ∙ p in
              elim (org_role_after slug r) [
                | inl before ↦ inl (held (by_role slug (sym same ∙ o) before granted))
                | inr (role, found, changed, below) ↦ inr (
                    inr (
                      inr (record {
                        slug = slug;
                        role = role;
                        no_override = o;
                        assigned = r;
                        changed = changed;
                        found = found;
                        granted = granted;
                        below = below;
                      })))
              ]
        ]
      ]

  -- After a successful call, other subjects than the target keep their org role, their permission
  -- overrides and their app roles.
  pub apply_user_access_elsewhere :
      (other : ℕ)
      → (target == other) ≡ false
      → (db'.user_org_roles other ≡ db.user_org_roles other)
        × ((key : String)
            → db'.user_permission_overrides other key ≡ db.user_permission_overrides other key)
        × ((client : String)
            → (effective_app_role db' other client).role_id
              ≡ (effective_app_role db other client).role_id)
  unfolding write_user_access
  apply_user_access_elsewhere other h = (
    rw (Follows-org_roles success.written) (ground arith),
    λ key. rw (Follows-overrides success.written) (
        write_effects_elsewhere target other key success.plan.permissions
          db.user_permission_overrides h),
    λ client.
        Follows-app_role other client success.written
        ∙ role_elsewhere db target other client success.plan h (
            write_values_elsewhere target other client success.plan.app_roles
              db.user_app_role_overrides h),
  )

  reach : All (WithinReach db actor target plan.new_slug) plan.app_roles
  unfolding plan
  reach =
      subst (λ a. All (WithinReach db a target success.plan.new_slug) success.plan.app_roles)
        (lock_actors-ok db actor success.actor success.admitted.locked).0 success.checked.reach

  inherited :
      (client : String)
      → is_some plan.org_role ≡ true
      → contains db.catalog_clients client ≡ true
      → above_by_inheritance db actor target plan.new_slug plan.app_roles client ≡ false
  unfolding plan
  inherited =
      subst
        (λ a.
          (client : String)
          → is_some success.plan.org_role ≡ true
          → contains db.catalog_clients client ≡ true
          → above_by_inheritance db a target success.plan.new_slug success.plan.app_roles client
            ≡ false)
        (lock_actors-ok db actor success.actor success.admitted.locked).0 success.checked.inherited

  -- At a client with a catalog, a successful call leaves the target's effective app role as it was, or
  -- leaves one that does not rank above the actor's own.
  pub apply_user_access_app_roles :
      (client : String)
      → is_some (db.app_role_catalogs client) ≡ true
      → contains db.catalog_clients client ≡ true
      → ((effective_app_role db' target client).role_id
          ≡ (effective_app_role db target client).role_id)
        ⊎ (app_level db client actor ≤ₗ app_level db' client target)
  unfolding plan success
  apply_user_access_app_roles client managed listed =
      rw
        (
          Follows-app_level target client success.written,
          Follows-app_role target client success.written,
        )
        (role_after db actor target plan (success.checked.kept) reach inherited client managed
          listed)
