-- ===== src/Store.antt =====
-- The tables of db/schema.sql that the role and event code reads and writes, as one value.
-- A table with a primary key is a function from the key to the row that may be there; a table that
-- the code walks is a list, in the order in which it is read (identities by sub, catalog_clients, the
-- keys of app_role_catalogs, by name). Uuids and digests are numbers, instants are milliseconds.
pub mod Sample
use dreamsso.Common.{
  ℕ, String, ◌≡◌, ◌↔◌, Bool, true, false, ◌&&◌, Option, List, arith, Eq, ◌==◌, if◌then◌else◌,
}
use dreamsso.Common.Int.{ℤ}

pub data Status : Type 0 where
  active disabled locked : Status

pub data Effect : Type 0 where
  grant deny : Effect

pub data CatalogMode : Type 0 where
  legacy revisioned : CatalogMode

pub record Identity : Type 0 where
  pub sub : ℕ
  pub username : String
  pub display_name : String
  pub email : Option String
  pub password_hash : String
  pub status : Status
  pub deleted : Bool

pub record OrgRole : Type 0 where
  pub slug : String
  pub label : String
  pub level : ℤ
  pub is_system : Bool

pub record CatalogRole : Type 0 where
  pub role_id : ℤ
  pub name : String
  pub level : ℤ
  pub is_system : Bool

-- A row of app_role_catalogs.
pub record StoredCatalog : Type 0 where
  pub default_role_id : Option ℤ
  pub last_sync_iat : ℕ

pub record RoleSyncState : Type 0 where
  pub catalog_mode : CatalogMode
  pub catalog_epoch : Option ℕ
  pub catalog_revision : Option ℕ
  pub catalog_digest : Option ℕ
  pub last_sync_iat : ℕ
  pub authority_epoch : ℕ
  pub authority_revision : ℕ

-- A row of app_role_effective.
pub record EffectiveEntry : Type 0 where
  pub role_id : Option ℤ
  pub managed : Bool
  pub authority_revision : ℕ

pub record OauthClient : Type 0 where
  pub name : String
  pub disabled : Bool

-- A row of processed_events; receipts from before an upgrade have neither field.
pub record Receipt : Type 0 where
  pub event_type : Option String
  pub payload_digest : Option ℕ

-- An account.roles_change event on its way to a client.
pub record RoleChange : Type 0 where
  pub target : String
  pub sub : ℕ
  pub role_id : Option ℤ
  pub authority_epoch : ℕ
  pub authority_revision : ℕ

-- A row of org_audit_log, without labels and detail.
pub record AuditEntry : Type 0 where
  pub actor_sub : Option ℕ
  pub target_sub : Option ℕ
  pub action : String

pub record Store : Type 0 where
  pub identities : List Identity
  pub org_roles : List OrgRole
  pub user_org_roles : ℕ → Option String
  pub role_permissions : String → String → Option Effect
  pub user_permission_overrides : ℕ → String → Option Effect
  pub catalog_clients : List String
  pub oauth_clients : String → Option OauthClient
  pub app_role_catalogs : String → Option StoredCatalog
  pub app_roles : String → List CatalogRole
  pub user_app_role_overrides : ℕ → String → Option (Option ℤ)
  pub org_role_app_defaults : String → String → Option (Option ℤ)
  pub app_role_sync_state : String → Option RoleSyncState
  pub app_role_effective : String → ℕ → Option EffectiveEntry
  pub processed_events : String → ℕ → Option Receipt
  pub event_outbox : List RoleChange
  pub settings : String → Option String
  pub org_audit_log : List AuditEntry

-- One row of a table written, or dropped, under its key.
abbrev pub write {ℓ κ} : {K : Type ℓ} {V : Type κ} ⦃e : Eq K⦄ → K → V → (K → V) → K → V
write k v table j = if k == j then v else table j

abbrev pub write₂ {ℓ κ μ} :
    {K : Type ℓ} {J : Type κ} {V : Type μ} ⦃e : Eq K⦄ ⦃d : Eq J⦄
    → K
    → J
    → V
    → (K → J → V)
    → K
    → J
    → V
write₂ k j v table a b = if k == a && j == b then v else table a b

abbrev status_beq : Status → Status → Bool
status_beq active active = true
status_beq disabled disabled = true
status_beq locked locked = true
status_beq _ _ = false

pub status_beq_iff : (a b : Status) → (status_beq a b ≡ true) ↔ (a ≡ b)
status_beq_iff active b = ground arith
status_beq_iff disabled b = ground arith
status_beq_iff locked b = ground arith

instance abbrev pub status_eq : Eq Status
status_eq = record { beq = status_beq; beq_iff = status_beq_iff }

abbrev effect_beq : Effect → Effect → Bool
effect_beq grant grant = true
effect_beq deny deny = true
effect_beq _ _ = false

pub effect_beq_iff : (a b : Effect) → (effect_beq a b ≡ true) ↔ (a ≡ b)
effect_beq_iff grant b = ground arith
effect_beq_iff deny b = ground arith

instance abbrev pub effect_eq : Eq Effect
effect_eq = record { beq = effect_beq; beq_iff = effect_beq_iff }
