-- ===== src/Rbac/Administration/UserAccess/Plan.antt =====
-- What a plan that `applyUserAccess` accepts has been checked for.
use dreamsso.Common.{
  ℕ, String, Bool, true, false, not, ◌&&◌, Option, none, some, ◌≡◌, refl, sym, subst, ◌⊎◌, List, [],
  ◌∷◌, ◌==◌, find?, contains, is_some, arith, All, string_eq, nat_eq, option_eq, if◌then◌else◌,
}
use dreamsso.Common.Int.{int_eq}
use dreamsso.Rbac.Errors.{RoleError}
use dreamsso.Common.Result.{Result, ok, >>=-eq-ok, ok-injective, fail_if-ok, or_fail-ok}
use dreamsso.Json.{Json}
use dreamsso.Store.{Store, OrgRole, Effect}
use dreamsso.Rbac.Level.{
  Level, finite, le_level, lt_level, ◌<ₗ◌, ◌≤ₗ◌, lt_of_not_le_level, le_of_not_lt_level,
}
use dreamsso.Rbac.AppRoles.{app_role_level}
use dreamsso.Rbac.Authz.{has_slug, get_role_level, resolve_authz}
use dreamsso.Rbac.Catalog.{perm_keys}
use text.Mathlib.TextEquality.{eq_iff}
use dreamsso.Rbac.Administration.{
  Value, Actor, lock_actors, mfa_disable, check_permissions, parse_effect, parse_value,
  unknown_app_role,
}
use dreamsso.Rbac.Administration.UserAccess.{
  UserPlan, check_org_role, check_app_role, check_app_roles, check_inherited, above_by_inheritance,
  resulting, app_level, UserChanges, admit_target, check_changes,
}

pub lock_actors-ok :
    (db : Store) (sub : ℕ) (actor : Actor)
    → lock_actors db sub ≡ ok actor
    → (actor.sub ≡ sub)
      × (actor.level ≡ get_role_level db sub)
      × (actor.granted ≡ (resolve_authz db sub).granted)
unfolding lock_actors resolve_authz get_role_level
lock_actors-ok db sub actor h = ground arith

-- An org role that ranks strictly below a level.
pub data Outranked (db : Store) (level : Level) (new_slug : Option String) : Type 0 where
  outranked :
      (slug : String) (found : OrgRole)
      → find? (has_slug slug) db.org_roles ≡ some found
      → new_slug ≡ some found.slug
      → level <ₗ finite found.level
      → Outranked db level new_slug

pub check_org_role-ok :
    (db : Store) (level : Level) (slug : String) (current new_slug : Option String)
    → check_org_role db level (some slug) current ≡ ok new_slug
    → Outranked db level new_slug
unfolding check_org_role
check_org_role-ok db level slug current new_slug h =
    let (found, e, h₁) = or_fail-ok (find? (has_slug slug) db.org_roles) _ _ h in
    let (above, h₂) = fail_if-ok (le_level (finite found.level) level) _ _ h₁ in
    outranked slug found e (sym (ok-injective h₂))
      (lt_of_not_le_level (finite found.level) level above)

-- A permission entry that an actor may write: one that it holds itself, or the exempt key.
abbrev pub MayWrite : List String → String × Option Effect → Type 0
MayWrite granted entry = (contains granted entry.0 ≡ true) ⊎ (entry.0 ≡ mfa_disable)

pub check_permissions-ok :
    (inheritable : Bool) (granted : List String) (es : List (String × Json))
    (checked : List (String × Option Effect))
    → check_permissions inheritable granted es ≡ ok checked
    → All (MayWrite granted) checked
unfolding check_permissions
check_permissions-ok inheritable granted [] checked h =
    subst (All (MayWrite granted)) (ok-injective h) tt
check_permissions-ok inheritable granted ((key, effect) ∷ es) checked h =
    let (listed, h₁) = fail_if-ok (not (contains perm_keys key)) _ _ h in
    let (choice, parsed, h₂) = or_fail-ok (parse_effect inheritable effect) _ _ h₁ in
    let (held, h₃) = fail_if-ok (not (key == mfa_disable) && not (contains granted key)) _ _ h₂ in
    let (rest, e, h₄) = >>=-eq-ok (check_permissions inheritable granted es) _ h₃ in
    subst (All (MayWrite granted)) (ok-injective h₄)
      (may choice held, check_permissions-ok inheritable granted es rest e)
  where
    may :
        (choice : Option Effect)
        → (not (key == mfa_disable) && not (contains granted key)) ≡ false
        → MayWrite granted (key, choice)
    may choice held = ground (arith, eq_iff key mfa_disable)

-- An app role value that neither starts nor ends above the actor's own role at the client.
pub record WithinReach (db : Store) (actor target : ℕ) (slug : Option String)
    (entry : String × Value) : Type 0 where
  pub before : app_level db entry.0 actor ≤ₗ app_level db entry.0 target
  pub after :
      app_level db entry.0 actor ≤ₗ app_role_level db entry.0 (resulting db slug entry.0 entry.1)

module _ (db : Store) (actor target : ℕ) (slug : Option String) where
  check_app_role-ok :
      (client : String) (json : Json) (value : Value)
      → check_app_role db actor target slug client json ≡ ok value
      → WithinReach db actor target slug (client, value)
  unfolding check_app_role
  check_app_role-ok client json value h =
      let (listed, h₁) = fail_if-ok (not (contains db.catalog_clients client)) _ _ h in
      let (v, parsed, h₂) = or_fail-ok (parse_value json) _ _ h₁ in
      let (known, h₃) = fail_if-ok (unknown_app_role db client v) _ _ h₂ in
      let (started, h₄) =
        fail_if-ok (lt_level (app_level db client target) (app_level db client actor)) _ _ h₃ in
      let (ended, h₅) =
        fail_if-ok
          (lt_level (app_role_level db client (resulting db slug client v))
            (app_level db client actor))
          _ _ h₄ in
      subst (λ w. WithinReach db actor target slug (client, w)) (ok-injective h₅)
        (record {
          before =
              le_of_not_lt_level (app_level db client target) (app_level db client actor) started;
          after = le_of_not_lt_level _ (app_level db client actor) ended;
        })

  pub check_app_roles-ok :
      (es : List (String × Json)) (values : List (String × Value))
      → check_app_roles db actor target slug es ≡ ok values
      → All (WithinReach db actor target slug) values
  unfolding check_app_roles
  check_app_roles-ok [] values h =
      subst (All (WithinReach db actor target slug)) (ok-injective h) tt
  check_app_roles-ok ((client, json) ∷ es) values h =
      let (value, e, h₁) = >>=-eq-ok (check_app_role db actor target slug client json) _ h in
      let (rest, d, h₂) = >>=-eq-ok (check_app_roles db actor target slug es) _ h₁ in
      subst (All (WithinReach db actor target slug)) (ok-injective h₂)
        (check_app_role-ok client json value e, check_app_roles-ok es rest d)

  pub check_inherited-ok :
      (entries : List (String × Value)) (clients : List String) (client : String)
      → check_inherited db actor target slug entries clients ≡ ok tt
      → contains clients client ≡ true
      → above_by_inheritance db actor target slug entries client ≡ false
  unfolding check_inherited
  check_inherited-ok entries [] client h m = absurd (ground arith)
  check_inherited-ok entries (c ∷ clients) client h m =
      let (kept, h₁) = fail_if-ok (above_by_inheritance db actor target slug entries c) _ _ h in
      ground (arith, check_inherited-ok entries clients client, eq_iff c client)

-- The actor that a target is admitted for.
pub record IsAdmitted (db : Store) (sub target : ℕ) (actor : Actor) : Type 0 where
  pub locked : lock_actors db sub ≡ ok actor
  pub other : (target == sub) ≡ false
  pub lower : le_level (get_role_level db target) actor.level ≡ false

pub admit_target-IsAdmitted :
    (db : Store) (sub target : ℕ) (actor : Actor)
    → admit_target db sub target ≡ ok actor
    → IsAdmitted db sub target actor
unfolding admit_target
admit_target-IsAdmitted db sub target actor h = record {
  locked = ground arith;
  other = ground arith;
  lower = ground arith;
}

-- What the changes of an accepted plan have been checked for.
pub record IsChecked (db : Store) (actor : Actor) (target : ℕ) (plan : UserPlan) : Type 0 where
  pub planned : plan.actor ≡ actor
  pub kept : plan.org_role ≡ none → plan.new_slug ≡ db.user_org_roles target
  pub lower : (slug : String) → plan.org_role ≡ some slug → Outranked db actor.level plan.new_slug
  pub held : All (MayWrite actor.granted) plan.permissions
  pub reach : All (WithinReach db actor.sub target plan.new_slug) plan.app_roles
  pub inherited :
      (client : String)
      → is_some plan.org_role ≡ true
      → contains db.catalog_clients client ≡ true
      → above_by_inheritance db actor.sub target plan.new_slug plan.app_roles client ≡ false

when-ok :
    (test : Bool) (check : Result RoleError (Unit {0})) (done : Unit {0})
    → (if test then check else ok tt) ≡ ok done
    → test ≡ true
    → check ≡ ok tt
when-ok true check done w e = w
when-ok false check done w e = cc

check_org_role-lower :
    (db : Store) (level : Level) (asked current new_slug : Option String) (slug : String)
    → check_org_role db level asked current ≡ ok new_slug
    → asked ≡ some slug
    → Outranked db level new_slug
check_org_role-lower db level asked current new_slug slug h e =
    check_org_role-ok db level slug current new_slug (rw e at h)

pub check_changes-IsChecked :
    (db : Store) (actor : Actor) (target : ℕ) (asked : UserChanges) (plan : UserPlan)
    → check_changes db actor target asked ≡ ok plan
    → IsChecked db actor target plan
unfolding check_changes
check_changes-IsChecked db actor target asked plan h =
    let (slug, e, h₁) =
      >>=-eq-ok (check_org_role db actor.level asked.org_role (db.user_org_roles target)) _ h in
    let (checked, p, h₂) =
      >>=-eq-ok (check_permissions true actor.granted asked.permissions) _ h₁ in
    let (values, v, h₃) =
      >>=-eq-ok (check_app_roles db actor.sub target slug asked.app_roles) _ h₂ in
    let (done, w, h₄) =
      >>=-eq-ok
        (if is_some asked.org_role
          then check_inherited db actor.sub target slug values db.catalog_clients
          else ok tt)
        _ h₃ in
    subst (IsChecked db actor target) (ok-injective h₄) (record {
      planned = refl;
      kept = λ n. kept_slug slug e n;
      lower = λ s n.
          check_org_role-lower db actor.level asked.org_role (db.user_org_roles target) slug s e n;
      held = check_permissions-ok true actor.granted asked.permissions checked p;
      reach = check_app_roles-ok db actor.sub target slug asked.app_roles values v;
      inherited = λ c n m.
          check_inherited-ok db actor.sub target slug values db.catalog_clients c
            (when-ok (is_some asked.org_role) _ done w n) m;
    })
  where
    kept_slug :
        (slug : Option String)
        → check_org_role db actor.level asked.org_role (db.user_org_roles target) ≡ ok slug
        → asked.org_role ≡ none
        → slug ≡ db.user_org_roles target
    kept_slug slug e n = unfold check_org_role in ground arith
