-- ===== src/Rbac/AppRoles/Resolution.antt =====
-- The resolution of an app role (src/rbac/appRoles.ts) against the rules that it implements.
use dreamsso.Common.{
  ℕ, String, true, Option, none, some, ◌≡◌, refl, ◌↔◌, arith, Option-cases, inl, inr, any,
}
use dreamsso.Common.Int.{ℤ}
use dreamsso.Store.{Store, StoredCatalog}
use dreamsso.Rbac.AppRoles.{
  RoleSource, override, org, catalog, no_source, org_default_row, effective_app_role, has_id,
  has_app_catalog, app_access_allowed,
}

-- A subject's org role stores no default for the client.
abbrev pub NoOrgDefault : Store → ℕ → String → Type 0
NoOrgDefault db sub client =
    (slug : String)
    → db.user_org_roles sub ≡ some slug
    → db.org_role_app_defaults slug client ≡ none

-- The rules: a stored layer wins over those below it, also when what it stores is "no access".
pub data Resolves (db : Store) (sub : ℕ) (client : String) (r : Option ℤ) (s : RoleSource)
    : Type 0 where
  by_override :
      s ≡ override → db.user_app_role_overrides sub client ≡ some r → Resolves db sub client r s
  by_org :
      (slug : String)
      → s ≡ org
      → db.user_app_role_overrides sub client ≡ none
      → db.user_org_roles sub ≡ some slug
      → db.org_role_app_defaults slug client ≡ some r
      → Resolves db sub client r s
  by_catalog :
      (c : StoredCatalog)
      → s ≡ catalog
      → db.user_app_role_overrides sub client ≡ none
      → NoOrgDefault db sub client
      → db.app_role_catalogs client ≡ some c
      → c.default_role_id ≡ r
      → Resolves db sub client r s
  by_nothing :
      s ≡ no_source
      → db.user_app_role_overrides sub client ≡ none
      → NoOrgDefault db sub client
      → db.app_role_catalogs client ≡ none
      → r ≡ none
      → Resolves db sub client r s

module _ (db : Store) (sub : ℕ) (client : String) where
  org_default_row-eq-none : org_default_row db sub client ≡ none → NoOrgDefault db sub client
  unfolding org_default_row
  org_default_row-eq-none h slug e = ground arith

  NoOrgDefault-row : NoOrgDefault db sub client → org_default_row db sub client ≡ none
  unfolding org_default_row
  NoOrgDefault-row h = elim (Option-cases (db.user_org_roles sub)) [
    | inl e ↦ rw (e, org_default_row)
    | inr (slug, e) ↦ rw (e, org_default_row) (h slug e)
  ]

  org_default_row-eq-some :
      (r : Option ℤ)
      → org_default_row db sub client ≡ some r
      → (slug : String) × (db.user_org_roles sub ≡ some slug)
        × (db.org_role_app_defaults slug client ≡ some r)
  unfolding org_default_row
  org_default_row-eq-some r h = ground arith

  effective_app_role-Resolves :
      (r : Option ℤ) (s : RoleSource)
      → effective_app_role db sub client ≡ record { role_id = r; source = s }
      → Resolves db sub client r s
  unfolding effective_app_role
  effective_app_role-Resolves r s h = elim (Option-cases (db.user_app_role_overrides sub client)) [
    | inr (q, e) ↦ by_override (ground arith) (ground arith)
    | inl e ↦ elim (Option-cases (org_default_row db sub client)) [
      | inr (q, d) ↦
          let (slug, o, p) = org_default_row-eq-some q d in
          by_org slug (ground arith) e o (ground arith)
      | inl d ↦ elim (Option-cases (db.app_role_catalogs client)) [
        | inr (c, k) ↦ by_catalog c (ground arith) e (org_default_row-eq-none d) k (ground arith)
        | inl k ↦ by_nothing (ground arith) e (org_default_row-eq-none d) k (ground arith)
      ]
    ]
  ]

  Resolves-effective_app_role :
      (r : Option ℤ) (s : RoleSource)
      → Resolves db sub client r s
      → effective_app_role db sub client ≡ record { role_id = r; source = s }
  unfolding effective_app_role
  Resolves-effective_app_role r s (by_override p q) = ground arith
  Resolves-effective_app_role r s (by_org slug p q o d) = ground arith
  Resolves-effective_app_role r s (by_catalog c p q n k d) = ground (arith, NoOrgDefault-row n)
  Resolves-effective_app_role r s (by_nothing p q n k d) = ground (arith, NoOrgDefault-row n)

-- The resolved role and its layer are those that the rules give, and no others.
pub effective_app_role_iff :
    (db : Store) (sub : ℕ) (client : String) (r : Option ℤ) (s : RoleSource)
    → (effective_app_role db sub client ≡ record { role_id = r; source = s })
      ↔ Resolves db sub client r s
effective_app_role_iff db sub client r s =
    (effective_app_role-Resolves db sub client r s, Resolves-effective_app_role db sub client r s)

-- What sign-in requires where the client has a catalog: a role, resolved by the rules, that the
-- catalog still lists.
pub data MaySignIn (db : Store) (client : String) (sub : ℕ) : Type 0 where
  unmanaged : db.app_role_catalogs client ≡ none → MaySignIn db client sub
  managed :
      (c : StoredCatalog) (id : ℤ) (s : RoleSource)
      → db.app_role_catalogs client ≡ some c
      → Resolves db sub client (some id) s
      → any (has_id id) (db.app_roles client) ≡ true
      → MaySignIn db client sub

module _ (db : Store) (client : String) (sub : ℕ) where
  MaySignIn-allowed : MaySignIn db client sub → app_access_allowed db client sub ≡ true
  unfolding app_access_allowed has_app_catalog
  MaySignIn-allowed (unmanaged h) = ground arith
  MaySignIn-allowed (managed c id s k r m) =
      ground (arith, Resolves-effective_app_role db sub client (some id) s r)

  allowed-MaySignIn : app_access_allowed db client sub ≡ true → MaySignIn db client sub
  unfolding app_access_allowed has_app_catalog
  allowed-MaySignIn h = elim (Option-cases (db.app_role_catalogs client)) [
    | inl e ↦ unmanaged e
    | inr (c, e) ↦ known c e (effective_app_role db sub client).role_id refl
  ]
    where
      known :
          (c : StoredCatalog)
          → db.app_role_catalogs client ≡ some c
          → (r : Option ℤ) → (effective_app_role db sub client).role_id ≡ r
          → MaySignIn db client sub
      known c e none k = absurd (ground arith)
      known c e (some id) k =
          managed c id (effective_app_role db sub client).source e
            (effective_app_role-Resolves db sub client (some id) _ (ground arith)) (ground arith)

-- Sign-in is allowed exactly for the subjects that the rules let in.
app_access_allowed_iff :
    (db : Store) (client : String) (sub : ℕ)
    → (app_access_allowed db client sub ≡ true) ↔ MaySignIn db client sub
app_access_allowed_iff db client sub =
    (allowed-MaySignIn db client sub, MaySignIn-allowed db client sub)
