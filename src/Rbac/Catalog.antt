-- ===== src/Rbac/Catalog.antt =====
-- src/rbac/catalog.ts: the permission keys with the defaults of the system roles.
use dreamsso.Common.{String, List, [], ◌∷◌, string_eq, map, if◌then◌else◌}
use dreamsso.Store.{Effect, grant, deny}
use text.Mathlib.Text.{starts_with}

pub data SystemRole : Type 0 where
  superadmin admin standard_user : SystemRole

pub data PermGroup : Type 0 where
  profile org : PermGroup

pub record PermDef : Type 0 where
  pub key : String
  pub group : PermGroup
  pub defaults : SystemRole → Effect

abbrev defaults_of : Effect → Effect → Effect → SystemRole → Effect
defaults_of sa ad su superadmin = sa
defaults_of sa ad su admin = ad
defaults_of sa ad su standard_user = su

-- `p(key, superadmin, admin, standard_user)`.
abbrev p : String → Effect → Effect → Effect → PermDef
p key sa ad su = record {
  key = key;
  group = if starts_with key "profile." then profile else org;
  defaults = defaults_of sa ad su;
}

unfoldable pub permissions : List PermDef
permissions =
    p "profile.displayname.change" grant grant grant
    ∷ p "profile.picture.set" grant grant grant
    ∷ p "profile.username.change" grant deny deny
    ∷ p "profile.email.add" grant grant grant
    ∷ p "profile.email.change" grant grant grant
    ∷ p "profile.email.setPrimary" grant grant grant
    ∷ p "profile.security.password.change" grant grant grant
    ∷ p "profile.security.sessions.view" grant grant grant
    ∷ p "profile.security.sessions.terminate" grant grant grant
    ∷ p "profile.security.mfa.enable" grant grant grant
    ∷ p "profile.security.mfa.disable" deny deny grant
    ∷ p "profile.security.mfa.totp.add" grant grant grant
    ∷ p "profile.security.mfa.totp.rename" grant grant grant
    ∷ p "profile.security.mfa.totp.remove" grant grant grant
    ∷ p "profile.security.mfa.passkey.add" grant grant grant
    ∷ p "profile.security.mfa.passkey.rename" grant grant grant
    ∷ p "profile.security.mfa.passkey.remove" grant grant grant
    ∷ p "org.users.view" grant grant deny
    ∷ p "org.users.create" grant grant deny
    ∷ p "org.users.edit.displayname" grant grant deny
    ∷ p "org.users.edit.username" grant grant deny
    ∷ p "org.users.edit.profilePicture.remove" grant grant deny
    ∷ p "org.users.edit.email" grant grant deny
    ∷ p "org.users.edit.password" grant grant deny
    ∷ p "org.users.edit.permissions.acctPortal" grant grant deny
    ∷ p "org.users.edit.permissions.app" grant grant deny
    ∷ p "org.users.edit.sessions.view" grant grant deny
    ∷ p "org.users.edit.sessions.terminate" grant grant deny
    ∷ p "org.users.edit.deactivate" grant grant deny
    ∷ p "org.users.edit.reactivate" grant grant deny
    ∷ p "org.users.edit.mfa.view" grant grant deny
    ∷ p "org.users.edit.mfa.disable" grant grant deny
    ∷ p "org.users.edit.mfa.reset" grant grant deny
    ∷ p "org.users.remove" grant deny deny
    ∷ p "org.roles.view" grant grant deny
    ∷ p "org.roles.create" grant grant deny
    ∷ p "org.roles.edit.permissions.acctPortal" grant grant deny
    ∷ p "org.roles.edit.permissions.app" grant grant deny
    ∷ p "org.roles.edit.level" grant grant deny
    ∷ p "org.roles.edit.rename" grant grant deny
    ∷ p "org.roles.remove" grant grant deny
    ∷ p "org.apps.view" grant grant deny
    ∷ p "org.apps.sync" grant grant deny
    ∷ p "org.roles.edit.default" grant grant deny
    ∷ p "org.dashboard" grant grant deny
    ∷ p "org.logs.view" grant grant deny
    ∷ p "org.logs.clear" grant deny deny
    ∷ p "org.invites.view" grant grant deny
    ∷ p "org.invites.create" grant grant deny
    ∷ p "org.invites.void" grant deny deny
    ∷ p "org.siteSettings.acctPortal" grant deny deny
    ∷ p "org.siteSettings.sso" grant deny deny
    ∷ p "org.mfaPolicies.view" grant deny deny
    ∷ p "org.mfaPolicies.edit" grant deny deny
    ∷ []

unfoldable pub perm_keys : List String
perm_keys = map (λ d. d.key) permissions
