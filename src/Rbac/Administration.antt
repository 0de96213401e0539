-- ===== src/Rbac/Administration.antt =====
-- src/rbac/roleAdministration.ts: what all role writers share. A body is parsed JSON; a throw is an
-- error value. Row locks have no effect on one transaction alone, and audit labels are left out.
pub mod UserAccess
pub mod RoleAccess
pub mod OrgRoles
use dreamsso.Common.{
  ℕ, String, Bool, true, false, not, ◌&&◌, ◌||◌, Option, none, some, List, [], ◌∷◌, ◌++◌, ◌==◌,
  find?, contains, is_some, if◌then◌else◌, string_eq, nat_eq,
}
use dreamsso.Common.Int.{ℤ, pos, negsuc, leb_ℤ}
use dreamsso.Common.Result.{Result, ok, err, ◌>>=◌, ◌>>◌, fail_if, or_fail}
use dreamsso.Json.{Json, null, number, text, object, Fields, entries}
use dreamsso.Store.{Store, Identity, active, status_eq, Effect, grant, deny, AuditEntry}
use dreamsso.Rbac.Level.{Level}
use dreamsso.Rbac.Catalog.{perm_keys}
use dreamsso.Rbac.Authz.{resolve_authz}
use dreamsso.Rbac.AppRoles.{role_known}
use dreamsso.Rbac.Errors.{RoleError, fail}

abbrev pub mfa_disable : String
mfa_disable = "profile.security.mfa.disable"

-- `Value`: a role or null, or the word 'inherit'.
pub data Value : Type 0 where
  role : Option ℤ → Value
  inherit : Value

pub is_int32 : ℤ → Bool
is_int32 n = leb_ℤ (negsuc 2147483647) n && leb_ℤ n (pos 2147483647)

unfoldable pub parse_value : Json → Option Value
unfolding is_int32
parse_value null = some (role none)
parse_value (text s) = if s == "inherit" then some inherit else none
parse_value (number n) = if is_int32 n then some (role (some n)) else none
parse_value _ = none

-- An effect of a permission entry; `some none` stands for 'inherit', where that is allowed. The code
-- tests `String(effect)`: an array of one such word passes there, and the table's check refuses it.
unfoldable pub parse_effect : Bool → Json → Option (Option Effect)
parse_effect inheritable (text s) =
    if s == "grant"
    then some (some grant)
    else if s == "deny"
    then some (some deny)
    else if inheritable && s == "inherit"
    then some none
    else none
parse_effect inheritable _ = none

-- `map(value)`: the entries of an object, none when the value is missing or null.
unfoldable pub entries_of : Option Json → Result RoleError (List (String × Json))
entries_of none = ok []
entries_of (some null) = ok []
entries_of (some (object fs)) = ok (entries fs)
entries_of (some _) = err (fail 400 "invalid_request")

pub record Actor : Type 0 where
  pub sub : ℕ
  pub level : Level
  pub granted : List String

unfoldable pub require_permission : List String → String → Result RoleError (Unit {0})
require_permission granted key = fail_if (not (contains granted key)) (fail 403 "permission_denied")

abbrev pub has_sub : ℕ → Identity → Bool
has_sub sub i = i.sub == sub

-- `lockActors`: the actor must be a live, active identity; its rights are resolved afresh.
unfoldable pub lock_actors : Store → ℕ → Result RoleError Actor
lock_actors db actor = do
  identity ← or_fail (find? (has_sub actor) db.identities) (fail 403 "permission_denied")
  fail_if (identity.deleted || not (identity.status == active)) (fail 403 "permission_denied")
  let auth = resolve_authz db actor
  ok (record { sub = actor; level = auth.level; granted = auth.granted })

-- `orgDefault`: what an org role, or none, inherits at a client.
unfoldable pub org_default : Store → Option String → String → Option ℤ
org_default db slug client = elim (db.app_role_catalogs client) [
  | none ↦ none
  | some cat ↦ elim slug [
    | none ↦ cat.default_role_id
    | some s ↦ elim (db.org_role_app_defaults s client) [ some r ↦ r | none ↦ cat.default_role_id ]
  ]
]

unfoldable pub write_audit : Store → ℕ → String → Option ℕ → Store
write_audit db actor action target = record db {
  org_audit_log =
      db.org_audit_log
      ++ record { actor_sub = some actor; target_sub = target; action = action } ∷ [];
}

-- The loop that validates permission entries, with what each asks for.
pub check_permissions :
    Bool → List String → List (String × Json) → Result RoleError (List (String × Option Effect))
check_permissions inheritable granted [] = ok []
check_permissions inheritable granted ((key, effect) ∷ rest) = do
  fail_if (not (contains perm_keys key)) (fail 400 "invalid_request")
  choice ← or_fail (parse_effect inheritable effect) (fail 400 "invalid_request")
  fail_if (not (key == mfa_disable) && not (contains granted key)) (fail 403 "permission_denied")
  checked ← check_permissions inheritable granted rest
  ok ((key, choice) ∷ checked)

-- A numeric value must name a role of the client's catalog.
unfoldable pub unknown_app_role : Store → String → Value → Bool
unknown_app_role db client inherit = false
unknown_app_role db client (role none) = false
unknown_app_role db client (role (some id)) = not (role_known db client (some id))
