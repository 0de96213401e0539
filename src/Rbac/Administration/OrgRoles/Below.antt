-- ===== src/Rbac/Administration/OrgRoles/Below.antt =====
-- Nobody manages an org role at or above their own level: the role writers of
-- src/rbac/roleAdministration.ts on success.
use text.Mathlib.TextEquality.{eq_iff}
use dreamsso.Common.{
  ℕ, String, false, not, ◌&&◌, ◌||◌, Option, none, some, ◌≡◌, refl, sym, subst, List, [], ◌∷◌, ◌==◌,
  find?, filter, is_some, arith, string_eq, nat_eq, option_eq, if◌then◌else◌, get_or, find?_holds,
  Option-cases, Bool-cases, inl, inr,
}
use dreamsso.Common.Int.{ℤ, int_eq}
use dreamsso.Common.Result.{ok, >>=-eq-ok, ok-injective, fail_if-ok, or_fail-ok}
use dreamsso.Json.{Fields, Json, get, as_text}
use dreamsso.Store.{Store, OrgRole}
use dreamsso.Rbac.Level.{Level, finite, le_level, ◌<ₗ◌, lt_of_not_le_level}
use dreamsso.Rbac.Authz.{has_slug, get_role_level}
use dreamsso.Rbac.Administration.{Actor, lock_actors, write_audit, require_permission}
use dreamsso.Rbac.Administration.UserAccess.Plan.{lock_actors-ok}
use dreamsso.Rbac.Administration.OrgRoles.{
  is_level, update_role, RolePatch, apply_patch, read_label, read_level, patch_org_role,
  delete_org_role, role_in_use, default_org_role, remove_role,
}

-- The actor ranks strictly above a role.
pub Outranks : Store → ℕ → OrgRole → Type 0
Outranks db actor r = get_role_level db actor <ₗ finite r.level

pub outranks :
    (db : Store) (actor_sub : ℕ) (actor : Actor) (level : ℤ)
    → lock_actors db actor_sub ≡ ok actor
    → le_level (finite level) actor.level ≡ false
    → get_role_level db actor_sub <ₗ finite level
outranks db actor_sub actor level locked test =
    subst (λ l. l <ₗ finite level) (lock_actors-ok db actor_sub actor locked).1
      (lt_of_not_le_level (finite level) actor.level test)

find?-update_role :
    (slug other : String) (f : OrgRole → OrgRole)
    → ((r : OrgRole) → (f r).slug ≡ r.slug)
    → (rs : List OrgRole)
    → find? (has_slug other) (update_role slug f rs) ≡ elim (find? (has_slug other) rs) [
      | none ↦ none
      | some r ↦ some (if r.slug == slug then f r else r)
    ]
unfolding update_role
find?-update_role slug other f kept [] = refl
find?-update_role slug other f kept (r ∷ rs) =
    ground (arith, kept r, find?-update_role slug other f kept rs)

find?-filter :
    (slug other : String) (rs : List OrgRole)
    → find? (has_slug other) (filter (λ r. not (r.slug == slug)) rs)
      ≡ (if slug == other then none else find? (has_slug other) rs)
find?-filter slug other [] = ground arith
find?-filter slug other (r ∷ rs) =
    ground (
      arith,
      find?-filter slug other rs,
      eq_iff r.slug slug,
      eq_iff r.slug other,
      eq_iff slug other,
    )

-- A level that was read lies below the actor and in the range; a level that was not asked for
-- leaves the role where it was.
read_level-below :
    (number_of : Json → Option ℤ) (granted : List String) (actor : Level) (raw : Option Json)
    (level : Option ℤ) (old : ℤ)
    → read_level number_of granted actor raw ≡ ok level
    → le_level (finite old) actor ≡ false
    → le_level (finite (get_or level old)) actor ≡ false
unfolding read_level
read_level-below number_of granted actor none level old h below = ground arith
read_level-below number_of granted actor (some raw) level old h below =
    let (_, _, h₁) = >>=-eq-ok (require_permission granted "org.roles.edit.level") _ h in
    let (n, _, h₂) = or_fail-ok (number_of raw) _ _ h₁ in
    let (fine, h₃) = fail_if-ok (not (is_level n) || le_level (finite n) actor) _ _ h₂ in
    ground (arith, ok-injective h₃)

patched :
    (slug : String) (patch : RolePatch) (old : OrgRole) (rs : List OrgRole)
    → find? (has_slug slug) rs ≡ some old
    → find? (has_slug slug) (update_role slug (apply_patch patch) rs) ≡ some (apply_patch patch old)
unfolding apply_patch
patched slug patch old rs found =
    let same = find?_holds (has_slug slug) rs old found in
    ground (arith, find?-update_role slug slug (apply_patch patch) (λ r. refl) rs)

unpatched :
    (slug other : String) (patch : RolePatch) (rs : List OrgRole)
    → (slug == other) ≡ false
    → find? (has_slug other) (update_role slug (apply_patch patch) rs) ≡ find? (has_slug other) rs
unfolding apply_patch
unpatched slug other patch rs differs =
    let step = find?-update_role slug other (apply_patch patch) (λ r. refl) rs in
    elim (Option-cases (find? (has_slug other) rs)) [
      | inl missing ↦ ground arith
      | inr (r, found) ↦
          let same = find?_holds (has_slug other) rs r found in
          ground (arith, eq_iff r.slug slug, eq_iff r.slug other, eq_iff slug other)
    ]

patched_elsewhere :
    (slug other : String) (patch : RolePatch) (old : OrgRole) (rs : List OrgRole)
    → find? (has_slug slug) rs ≡ some old
    → find? (has_slug other) (update_role slug (apply_patch patch) rs)
      ≡ (if slug == other then some (apply_patch patch old) else find? (has_slug other) rs)
patched_elsewhere slug other patch old rs found = elim (Bool-cases (slug == other)) [
  | inr differs ↦ ground (arith, unpatched slug other patch rs differs)
  | inl alike ↦
      let same : slug ≡ other = (eq_iff slug other).0 alike in
      let here = patched slug patch old rs found in
      let there : find? (has_slug other) (update_role slug (apply_patch patch) rs)
          ≡ some (apply_patch patch old) =
        subst
          (λ x.
            find? (has_slug x) (update_role slug (apply_patch patch) rs)
            ≡ some (apply_patch patch old))
          same here in
      ground arith
]

-- A patched role ranked strictly below the actor and still does; every other role is untouched.
pub patch_org_role_below :
    (number_of : Json → Option ℤ) (db : Store) (actor : ℕ) (slug : String) (body : Fields)
    (db' : Store)
    → patch_org_role number_of db actor slug body ≡ ok db'
    → (old : OrgRole) × (new : OrgRole) × (find? (has_slug slug) db.org_roles ≡ some old)
      × Outranks db actor old
      × (find? (has_slug slug) db'.org_roles ≡ some new)
      × Outranks db actor new
      × ((other : String)
          → find? (has_slug other) db'.org_roles
            ≡ (if slug == other then some new else find? (has_slug other) db.org_roles))
unfolding patch_org_role Outranks write_audit apply_patch
patch_org_role_below number_of db actor_sub slug body db' h =
    let (actor, locked, h₁) = >>=-eq-ok (lock_actors db actor_sub) _ h in
    let (old, found, h₂) = or_fail-ok (find? (has_slug slug) db.org_roles) _ _ h₁ in
    let (below, h₃) = fail_if-ok (le_level (finite old.level) actor.level) _ _ h₂ in
    let (label, _, h₄) = >>=-eq-ok (read_label actor.granted (as_text (get "label" body))) _ h₃ in
    let (level, read, h₅) =
      >>=-eq-ok (read_level number_of actor.granted actor.level (get "level" body)) _ h₄ in
    let (_, h₆) = fail_if-ok (not (is_some label) && not (is_some level)) _ _ h₅ in
    let patch : RolePatch = record { label = label; level = level } in
    let still =
      read_level-below number_of actor.granted actor.level (get "level" body) level old.level read
        below in
    (
      old,
      apply_patch patch old,
      found,
      outranks db actor_sub actor old.level locked below,
      subst (λ d. find? (has_slug slug) d.org_roles ≡ some (apply_patch patch old))
          (ok-injective h₆) (patched slug patch old db.org_roles found),
      outranks db actor_sub actor (get_or level old.level) locked still,
      λ other.
          subst
            (λ d. find? (has_slug other) d.org_roles ≡ (
              if slug == other
              then some (apply_patch patch old)
              else find? (has_slug other) db.org_roles))
            (ok-injective h₆) (patched_elsewhere slug other patch old db.org_roles found),
    )

-- A role that `deleteOrgRole` removes is one that the actor outranks, that nobody holds, that is
-- neither a system role nor the default; afterwards it is gone and every other role is still there.
delete_org_role_unused :
    (db : Store) (actor : ℕ) (slug : String) (db' : Store)
    → delete_org_role db actor slug ≡ ok db'
    → (r : OrgRole) × (find? (has_slug slug) db.org_roles ≡ some r)
      × Outranks db actor r
      × (r.is_system ≡ false)
      × (role_in_use db slug ≡ false)
      × ((default_org_role db == slug) ≡ false)
      × ((other : String)
          → find? (has_slug other) db'.org_roles
            ≡ (if slug == other then none else find? (has_slug other) db.org_roles))
unfolding delete_org_role Outranks write_audit remove_role
delete_org_role_unused db actor_sub slug db' h =
    let (actor, locked, h₁) = >>=-eq-ok (lock_actors db actor_sub) _ h in
    let (_, _, h₂) = >>=-eq-ok (require_permission actor.granted "org.roles.remove") _ h₁ in
    let (r, found, h₃) = or_fail-ok (find? (has_slug slug) db.org_roles) _ _ h₂ in
    let (system, h₄) = fail_if-ok r.is_system _ _ h₃ in
    let (below, h₅) = fail_if-ok (le_level (finite r.level) actor.level) _ _ h₄ in
    let (unused, h₆) = fail_if-ok (role_in_use db slug) _ _ h₅ in
    let (other, h₇) = fail_if-ok (default_org_role db == slug) _ _ h₆ in
    (
      r,
      found,
      outranks db actor_sub actor r.level locked below,
      system,
      unused,
      other,
      λ name. rw (sym (ok-injective h₇)) (find?-filter slug name db.org_roles),
    )
