-- ===== src/Access.antt =====
-- The access state that clients ask for, src/backchannel/accessStateStore.ts: the one statement of
-- ACCESS_STATE_SQL over the tables of Store, and what `readAccessStateSnapshot` makes of its rows.
pub mod Agreement
pub mod Query
pub mod Snapshot
mod Tests
use dreamsso.Common.{
  ℕ, String, Bool, true, false, not, ◌&&◌, ◌||◌, Option, none, some, List, [], ◌∷◌, ◌==◌, map, any,
  all, find?, is_some, leb, if◌then◌else◌, nat_eq, string_eq,
}
use dreamsso.Common.Int.{ℤ}
use dreamsso.Store.{Store, Identity, Status, active, disabled, locked, RoleSyncState}
use dreamsso.Rbac.AppRoles.{RoleSource, override, org, catalog, no_source, role_known}
use dreamsso.Events.Intake.{max_bigint}

pub data AccountStatus : Type 0 where
  account_is : Status → AccountStatus
  deleted not_found : AccountStatus

pub data Access : Type 0 where
  allowed no_access unmanaged unknown_role : Access

pub record AccessState : Type 0 where
  pub sub : ℕ
  pub status : AccountStatus
  pub catalog_synced : Bool
  pub role_id : Option ℤ
  pub role_source : RoleSource
  pub access : Access
  pub is_allowed : Bool

-- A row of the statement for one requested subject.
pub record AccessRow : Type 0 where
  pub sub : ℕ
  pub account : Option Identity
  pub catalog_synced : Bool
  pub authority : Option RoleSyncState
  pub role_id : Option ℤ
  pub role_source : RoleSource
  pub role_exists : Bool

-- The org role's stored default, through both joins.
abbrev pub joined_default : Store → Option String → String → Option (Option ℤ)
joined_default db none client = none
joined_default db (some slug) client = db.org_role_app_defaults slug client

abbrev pub catalog_default : Store → String → Option ℤ
catalog_default db client = elim (db.app_role_catalogs client) [
  | none ↦ none
  | some cat ↦ cat.default_role_id
]

-- Both CASE expressions: a stored null does not fall through.
abbrev pub case_role : Option (Option ℤ) → Option (Option ℤ) → Option ℤ → Option ℤ
case_role (some role) stored fallback = role
case_role none (some role) fallback = role
case_role none none fallback = fallback

abbrev pub case_source : Option (Option ℤ) → Option (Option ℤ) → Bool → RoleSource
case_source (some role) stored synced = override
case_source none (some role) synced = org
case_source none none true = catalog
case_source none none false = no_source

unfoldable pub access_row : Store → String → ℕ → AccessRow
access_row db client sub =
    let overridden = db.user_app_role_overrides sub client in
    let stored = joined_default db (db.user_org_roles sub) client in
    let role = case_role overridden stored (catalog_default db client) in
    record {
      sub = sub;
      account = find? (λ i. i.sub == sub) db.identities;
      catalog_synced = is_some (db.app_role_catalogs client);
      authority = db.app_role_sync_state client;
      role_id = role;
      role_source = case_source overridden stored (is_some (db.app_role_catalogs client));
      role_exists = role_known db client role;
    }

-- `WHERE EXISTS`: the client is registered and not disabled.
abbrev pub in_service : Store → String → Bool
in_service db client = elim (db.oauth_clients client) [ none ↦ false | some c ↦ not c.disabled ]

abbrev pub access_rows : Store → String → List ℕ → List AccessRow
access_rows db client subjects =
    if in_service db client then map (access_row db client) subjects else []

abbrev pub account_status : Option Identity → AccountStatus
account_status none = not_found
account_status (some i) = if i.deleted then deleted else account_is i.status

abbrev pub is_active_account : AccountStatus → Bool
is_active_account (account_is active) = true
is_active_account (account_is disabled) = false
is_active_account (account_is locked) = false
is_active_account deleted = false
is_active_account not_found = false

abbrev pub access_of : Bool → Bool → Option ℤ → Bool → Access
access_of false synced role known = no_access
access_of true false role known = unmanaged
access_of true true none known = no_access
access_of true true (some id) known = if known then allowed else unknown_role

abbrev pub lets_in : Access → Bool
lets_in allowed = true
lets_in unmanaged = true
lets_in no_access = false
lets_in unknown_role = false

unfoldable pub access_state : AccessRow → AccessState
access_state row =
    let exists = is_some row.account in
    let role = if exists && row.catalog_synced then row.role_id else none in
    let access = access_of exists row.catalog_synced role row.role_exists in
    record {
      sub = row.sub;
      status = account_status row.account;
      catalog_synced = row.catalog_synced;
      role_id = role;
      role_source = if exists && row.catalog_synced then row.role_source else no_source;
      access = access;
      is_allowed = is_active_account (account_status row.account) && lets_in access;
    }

-- The epoch and the revision, where the row has both and the revision is a bigint.
abbrev pub authority_of : Option RoleSyncState → Option (ℕ × ℕ)
authority_of none = none
authority_of (some state) =
    if leb state.authority_revision max_bigint
    then some (state.authority_epoch, state.authority_revision)
    else none

abbrev pub first_authority : List AccessRow → Option (ℕ × ℕ)
first_authority [] = none
first_authority (row ∷ rows) = authority_of row.authority

-- The states, and the authority when the client has a catalog; none when the authority is unavailable.
unfoldable pub snapshot_of : List AccessRow → Option (List AccessState × Option (ℕ × ℕ))
snapshot_of rows =
    if any (λ row. row.catalog_synced) rows
    then (elim (first_authority rows) [
      | none ↦ none
      | some authority ↦ some (map access_state rows, some authority)
    ])
    else some (map access_state rows, none)

unfoldable pub read_access_state_snapshot :
    Store → String → List ℕ → Option (List AccessState × Option (ℕ × ℕ))
read_access_state_snapshot db client subjects = snapshot_of (access_rows db client subjects)
