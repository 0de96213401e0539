-- ===== src/Access/Agreement.antt =====
-- The statement of src/backchannel/accessStateStore.ts agrees with src/rbac/appRoles.ts.
use dreamsso.Common.{
  ℕ, String, true, ◌&&◌, Option, none, some, ◌≡◌, refl, sym, ap, ◌∙◌, ◌==◌, find?, is_some,
  if◌then◌else◌, arith, Option-cases, Bool-cases, inl, inr, nat_eq,
}
use dreamsso.Common.Int.{ℤ}
use dreamsso.Store.{Store, Identity}
use dreamsso.Rbac.AppRoles.{
  no_source, EffectiveAppRole, org_default_row, effective_app_role, has_app_catalog,
  app_access_allowed, role_known,
}
use dreamsso.Access.{AccessRow, access_row, access_state, account_status, is_active_account}

state-allowed :
    (row : AccessRow) (i : Identity)
    → row.account ≡ some i
    → (access_state row).is_allowed ≡ (
        is_active_account (account_status (some i))
        && (if row.catalog_synced then is_some row.role_id && row.role_exists else true))
unfolding access_state
state-allowed row i known = elim (Bool-cases row.catalog_synced) [
  | inr free ↦ ground arith
  | inl synced ↦ elim (Option-cases row.role_id) [
    | inl nothing ↦ ground arith
    | inr (id, role) ↦ ground arith
  ]
]

state-role :
    (row : AccessRow) (i : Identity)
    → row.account ≡ some i
    → ((access_state row).role_id ≡ (if row.catalog_synced then row.role_id else none))
      × ((access_state row).role_source
          ≡ (if row.catalog_synced then row.role_source else no_source))
unfolding access_state
state-role row i known = elim (Bool-cases row.catalog_synced) [
  | inr free ↦ (ground arith, ground arith)
  | inl synced ↦ (ground arith, ground arith)
]

known_some :
    (db : Store) (client : String) (role : Option ℤ)
    → (is_some role && role_known db client role) ≡ role_known db client role
known_some db client none = refl
known_some db client (some id) = refl

module _ (db : Store) (client : String) (sub : ℕ) where
  row-effective_app_role : effective_app_role db sub client ≡ record {
    role_id = (access_row db client sub).role_id;
    source = (access_row db client sub).role_source;
  }
  unfolding effective_app_role org_default_row access_row
  row-effective_app_role = elim (Option-cases (db.user_app_role_overrides sub client)) [
    | inr (role, e) ↦ ground arith
    | inl e ↦ elim (Option-cases (db.user_org_roles sub)) [
      | inl o ↦ elim (Option-cases (db.app_role_catalogs client)) [
        | inl k ↦ ground arith
        | inr (c, k) ↦ ground arith
      ]
      | inr (slug, o) ↦ elim (Option-cases (db.org_role_app_defaults slug client)) [
        | inr (role, d) ↦ ground arith
        | inl d ↦ elim (Option-cases (db.app_role_catalogs client)) [
          | inl k ↦ ground arith
          | inr (c, k) ↦ ground arith
        ]
      ]
    ]
  ]

  -- What a client is told about a subject that has an account: the role and its layer are those of the
  -- sign-in rules where the client has a catalog, and it is let in exactly when the account is active
  -- and sign-in there would be allowed.
  pub access_state-effective_app_role :
      (i : Identity)
      → find? (λ j. j.sub == sub) db.identities ≡ some i
      → ((access_state (access_row db client sub)).is_allowed
          ≡ (is_active_account (account_status (some i)) && app_access_allowed db client sub))
        × ((access_state (access_row db client sub)).role_id ≡ (
            if has_app_catalog db client then (effective_app_role db sub client).role_id else none))
        × ((access_state (access_row db client sub)).role_source ≡ (
            if has_app_catalog db client
            then (effective_app_role db sub client).source
            else no_source))
  unfolding app_access_allowed has_app_catalog access_row
  access_state-effective_app_role i known =
      let row : AccessRow = access_row db client sub in
      let same = row-effective_app_role in
      let rules : role_known db client (effective_app_role db sub client).role_id
          ≡ (is_some row.role_id && row.role_exists) =
        ap (λ (e : EffectiveAppRole). role_known db client e.role_id) same
        ∙ sym (known_some db client row.role_id) in
      let role = state-role row i known in
      elim (Option-cases (db.app_role_catalogs client)) [
        | inl free ↦
            (state-allowed row i known ∙ ground arith, role.0 ∙ ground arith, role.1 ∙ ground arith)
        | inr (c, synced) ↦ (
          state-allowed row i known ∙ ground (arith, rules),
          role.0 ∙ ground (arith, same),
          role.1 ∙ ground (arith, same),
        )
      ]
