-- ===== src/Store/Sample.antt =====
-- A small store for the tests: an owner, an administrator and a user, and one client with a catalog.
use dreamsso.Common.{
  ℕ, String, false, none, some, [], ◌∷◌, ◌==◌, ◌&&◌, if◌then◌else◌, nat_eq, string_eq,
}
use dreamsso.Common.Int.{pos}
use dreamsso.Store.{Store, Identity, OrgRole, CatalogRole, active, grant, legacy}

abbrev person : ℕ → String → Identity
person sub name = record {
  sub = sub;
  username = name;
  display_name = name;
  email = none;
  password_hash = "";
  status = active;
  deleted = false;
}

abbrev org_role : String → ℕ → OrgRole
org_role slug level = record { slug = slug; label = slug; level = pos level; is_system = false }

abbrev app_role : ℕ → String → ℕ → CatalogRole
app_role id name level = record {
  role_id = pos id;
  name = name;
  level = pos level;
  is_system = false;
}

abbrev pub sample : Store
sample = record {
  identities = person 1 "owner" ∷ person 2 "admin" ∷ person 3 "user" ∷ [];
  org_roles =
      org_role "owner" 0
      ∷ org_role "admin" 10
      ∷ org_role "standard_user" 100
      ∷ org_role "guest" 200
      ∷ [];
  user_org_roles = λ sub.
      if sub == 1
      then some "owner"
      else if sub == 2
      then some "admin"
      else if sub == 3
      then some "standard_user"
      else none;
  role_permissions = λ slug key. if slug == "admin" then some grant else none;
  user_permission_overrides = λ sub key. none;
  catalog_clients = "videosite" ∷ [];
  oauth_clients = λ c.
      if c == "videosite" then some (record { name = "Video site"; disabled = false }) else none;
  app_role_catalogs = λ c.
      if c == "videosite"
      then some (record { default_role_id = some (pos 2); last_sync_iat = 0 })
      else none;
  app_roles =
      λ c. if c == "videosite" then app_role 1 "Editor" 1 ∷ app_role 2 "Viewer" 9 ∷ [] else [];
  user_app_role_overrides = λ sub c. none;
  org_role_app_defaults =
      λ slug c. if slug == "admin" && c == "videosite" then some (some (pos 1)) else none;
  app_role_sync_state = λ c.
      if c == "videosite"
      then some (record {
        catalog_mode = legacy;
        catalog_epoch = none;
        catalog_revision = none;
        catalog_digest = some 1;
        last_sync_iat = 0;
        authority_epoch = 5;
        authority_revision = 3;
      })
      else none;
  app_role_effective = λ c sub. none;
  processed_events = λ c id. none;
  event_outbox = [];
  settings = λ key. none;
  org_audit_log = [];
}
