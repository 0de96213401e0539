-- ===== src/Sync/Catalog.antt =====
-- `applyCatalog` of src/backchannel/rolesSync.ts: a report becomes the client's catalog.
pub mod Applied
pub mod Top
mod Tests
use dreamsso.Common.{
  ℕ, ◌+◌, String, Bool, true, false, not, ◌&&◌, ◌||◌, Option, none, some, List, [], ◌∷◌, ◌++◌, ◌==◌,
  map, any, filter, find?, contains, is_some, ltb, if◌then◌else◌, nat_eq, string_eq, option_eq,
}
use dreamsso.Common.Int.{ℤ, pos, ltb_ℤ, int_eq}
use dreamsso.Common.Result.{Result, ok, err, ◌>>=◌, ◌>>◌, fail_if, or_fail}
use dreamsso.Store.{
  Store, CatalogRole, RoleSyncState, StoredCatalog, OauthClient, OrgRole, Identity, legacy,
  revisioned, CatalogMode, AuditEntry, write,
}
use dreamsso.Rbac.Errors.{RoleError, fail, internal}
use dreamsso.Rbac.Authz.{has_slug}
use dreamsso.Rbac.Changes.{publish_role_changes}
use dreamsso.Sync.Order.{RoleCatalog, CatalogOrder, apply, same, stale, catalog_order}

abbrev pub has_role : ℤ → CatalogRole → Bool
has_role id r = r.role_id == id

-- The level of the report's default role.
abbrev default_level : RoleCatalog → Option ℤ
default_level cat = elim cat.default_role [
  | none ↦ none
  | some id ↦ elim (find? (has_role id) cat.roles) [ none ↦ none | some r ↦ some r.level ]
]

-- Only to a less privileged default; otherwise an explicit denial.
pub move_to : RoleCatalog → CatalogRole → Option ℤ
move_to cat removed = elim (default_level cat) [
  | none ↦ none
  | some level ↦ if ltb_ℤ removed.level level then cat.default_role else none
]

abbrev pub moved : ℤ → Option ℤ → Option (Option ℤ) → Option (Option ℤ)
moved id target row = if row == some (some id) then some target else row

-- The personal overrides and the org defaults that name a removed role.
pub move_role : String → ℤ → Option ℤ → Store → Store
move_role client id target db = record db {
  user_app_role_overrides = λ sub c.
      if client == c
      then moved id target (db.user_app_role_overrides sub c)
      else db.user_app_role_overrides sub c;
  org_role_app_defaults = λ slug c.
      if client == c
      then moved id target (db.org_role_app_defaults slug c)
      else db.org_role_app_defaults slug c;
}

pub move_roles : String → RoleCatalog → List CatalogRole → Store → Store
move_roles client cat [] db = db
move_roles client cat (removed ∷ rest) db =
    move_roles client cat rest (move_role client removed.role_id (move_to cat removed) db)

pub removed_roles : RoleCatalog → List CatalogRole → List CatalogRole
removed_roles cat rows = filter (λ r. not (any (has_role r.role_id) cat.roles)) rows

-- `INSERT ... ON CONFLICT DO UPDATE`, in the order of the role ids.
pub upsert_role : CatalogRole → List CatalogRole → List CatalogRole
upsert_role r [] = r ∷ []
upsert_role r (x ∷ rows) =
    let rest = upsert_role r rows in
    if x.role_id == r.role_id
    then r ∷ rows
    else if ltb_ℤ r.role_id x.role_id
    then r ∷ x ∷ rows
    else x ∷ rest

pub upsert_roles : List CatalogRole → List CatalogRole → List CatalogRole
upsert_roles [] rows = rows
upsert_roles (r ∷ rs) rows = upsert_roles rs (upsert_role r rows)

pub replace_roles : RoleCatalog → List CatalogRole → List CatalogRole
replace_roles cat rows =
    filter (λ r. any (has_role r.role_id) cat.roles) (upsert_roles cat.roles rows)

abbrev epoch_of : Option (ℕ × ℕ) → Option ℕ
epoch_of none = none
epoch_of (some (epoch, revision)) = some epoch

abbrev revision_of : Option (ℕ × ℕ) → Option ℕ
revision_of none = none
revision_of (some (epoch, revision)) = some revision

abbrev mode_of : Option (ℕ × ℕ) → CatalogMode
mode_of version = if is_some version then revisioned else legacy

abbrev renamed : Option String → Option OauthClient → Option OauthClient
renamed none row = row
renamed (some name) none = none
renamed (some name) (some c) = some (record c { name = name })

-- `UPDATE app_role_sync_state`, where there is a row.
abbrev pub synced : RoleCatalog → ℕ → ℕ → Option RoleSyncState → Option RoleSyncState
synced cat digest iat none = none
synced cat digest iat (some state) = some (record state {
  catalog_mode = mode_of cat.version;
  catalog_epoch = epoch_of cat.version;
  catalog_revision = revision_of cat.version;
  catalog_digest = some digest;
  last_sync_iat = iat;
})

abbrev pub better : CatalogRole → CatalogRole → Bool
better role best =
    ltb_ℤ role.level best.level || (role.level == best.level && ltb_ℤ role.role_id best.role_id)

pub top_from : CatalogRole → List CatalogRole → CatalogRole
top_from best [] = best
top_from best (role ∷ rest) = top_from (if better role best then role else best) rest

-- The most privileged role, the smaller id on a tie.
pub top_role : List CatalogRole → Option CatalogRole
top_role [] = none
top_role (r ∷ rs) = some (top_from r rs)

abbrev pub is_root : OrgRole → Bool
is_root r = r.level == pos 0

-- Holders of a root role whose stored default differs, without a personal override.
abbrev root_subject : Store → String → ℤ → Identity → Bool
root_subject db client top i = elim (db.user_org_roles i.sub) [
  | none ↦ false
  | some slug ↦ elim (find? (has_slug slug) db.org_roles) [
    | none ↦ false
    | some r ↦
        is_root r
        && not (db.org_role_app_defaults slug client == some (some top))
        && not (is_some (db.user_app_role_overrides i.sub client))
  ]
]

pub root_subjects : Store → String → Option CatalogRole → List ℕ
root_subjects db client none = []
root_subjects db client (some top) =
    map (λ i. i.sub) (filter (root_subject db client top.role_id) db.identities)

abbrev pub is_root_slug : List OrgRole → String → Bool
is_root_slug rows slug = any (λ r. is_root r && has_slug slug r) rows

-- Every root role inherits the top role.
pub grant_root : Store → String → Option CatalogRole → Store
grant_root db client none = db
grant_root db client (some top) = record db {
  org_role_app_defaults = λ slug c.
      if client == c && is_root_slug db.org_roles slug
      then some (some top.role_id)
      else db.org_role_app_defaults slug c;
}

pub store_catalog : Store → String → ℕ → RoleCatalog → ℕ → Store
store_catalog db client digest cat iat = record db {
  app_roles = write client (replace_roles cat (db.app_roles client)) db.app_roles;
  app_role_catalogs =
      write client (some (record { default_role_id = cat.default_role; last_sync_iat = iat }))
        db.app_role_catalogs;
  app_role_sync_state =
      write client (synced cat digest iat (db.app_role_sync_state client)) db.app_role_sync_state;
  oauth_clients = write client (renamed cat.site_name (db.oauth_clients client)) db.oauth_clients;
}

pub audit_reconcile : Store → ℕ → Store
audit_reconcile db changed = record db {
  org_audit_log =
      if ltb 0 changed
      then db.org_audit_log
        ++ record { actor_sub = none; target_sub = none; action = "roles.reconcile" } ∷ []
      else db.org_audit_log;
}

abbrev pub is_legacy : CatalogMode → Bool
is_legacy legacy = true
is_legacy revisioned = false

abbrev client_name : Option OauthClient → Option String
client_name none = none
client_name (some c) = some c.name

pub force_current : RoleSyncState → RoleCatalog → Bool
force_current state cat =
    not (is_some state.catalog_digest) || (is_legacy state.catalog_mode && is_some cat.version)

abbrev pub no_change : CatalogOrder → Bool → Bool
no_change stale force = true
no_change same force = not force
no_change apply force = false

module _ (digest : RoleCatalog → ℕ) where
  -- The digest of the stored catalog, with a site name only where the report gives one.
  abbrev stored_digest : Store → String → RoleCatalog → Option ℤ → ℕ
  stored_digest db client cat default_role = digest (record {
    roles = db.app_roles client;
    default_role = default_role;
    site_name = if is_some cat.site_name then client_name (db.oauth_clients client) else none;
    version = none;
  })

  pub baseline : Store → String → RoleCatalog → RoleSyncState → RoleSyncState
  baseline db client cat state = elim (db.app_role_catalogs client) [
    | none ↦ state
    | some row ↦
        if not (is_some state.catalog_digest) && is_legacy state.catalog_mode
        then record state {
          catalog_digest = some (stored_digest db client cat row.default_role_id);
        }
        else state
  ]

  -- The tables once the report is stored, before the publication.
  pub stored_report : Store → String → RoleCatalog → ℕ → Store
  stored_report db client cat iat =
      store_catalog (move_roles client cat (removed_roles cat (db.app_roles client)) db) client
        (digest cat) cat iat

  module _ (new_epoch : String → ℕ) where
    pub write_catalog : Store → String → ℕ → RoleCatalog → Bool → Result RoleError Store
    write_catalog db client iat cat force = do
      let stored = stored_report db client cat iat
      let top = top_role cat.roles
      published ←
          publish_role_changes new_epoch (grant_root stored client top) (client ∷ []) none force
            (root_subjects stored client top)
      ok (audit_reconcile published.0 published.1)

    pub apply_catalog :
        Store → String → ℕ → RoleCatalog → RoleSyncState → Result RoleError (Store × CatalogOrder)
    apply_catalog db client iat cat state = do
      order ←
          catalog_order digest (baseline db client cat state) cat iat
            (is_some (db.app_role_catalogs client))
      let force = force_current state cat
      let written = write_catalog db client iat cat force
      if no_change order force then ok (db, order) else written >>= λ db'. ok (db', order)
