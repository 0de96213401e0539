-- ===== src/Sync/Catalog/Applied.antt =====
-- What a report leaves behind when src/backchannel/rolesSync.ts applies it.
use dreamsso.Common.{
  ℕ, String, Bool, true, false, Option, none, some, ◌≡◌, ◌≢◌, ◌⊎◌, sym, All, All-map, ◌==◌, refl,
  ap, subst, ◌∙◌, List, [], ◌∷◌, is_some, if◌then◌else◌, arith, nat_eq, string_eq, option_eq,
  beq_refl, Bool-cases, inl, inr,
}
use dreamsso.Common.Int.{pos, int_beq_iff, int_eq}
use dreamsso.Common.Result.{Result, ok, >>=-eq-ok, ok-injective, ◌>>=◌}
use dreamsso.Store.{Store, CatalogRole, OrgRole, RoleSyncState}
use dreamsso.Rbac.Errors.{RoleError}
use dreamsso.Rbac.Changes.{publish_role_changes}
use dreamsso.Rbac.Changes.Ledger.{Publishes, publishes, publish_role_changes-Publishes}
use dreamsso.Sync.Order.{RoleCatalog, CatalogOrder, catalog_order}
use dreamsso.Sync.Catalog.Top.{IsTop, top_from-IsTop}
use dreamsso.Sync.Catalog.{
  move_role, move_roles, removed_roles, store_catalog, grant_root, top_role, top_from, is_root_slug,
  root_subjects, audit_reconcile, stored_report, write_catalog, apply_catalog, force_current,
  baseline, no_change,
}

-- The tables that a publication does not touch.
pub record Kept (db db' : Store) : Type 0 where
  pub defaults_kept : db'.org_role_app_defaults ≡ db.org_role_app_defaults
  pub roles_kept : db'.app_roles ≡ db.app_roles
  pub overrides_kept : db'.user_app_role_overrides ≡ db.user_app_role_overrides
  pub catalogs_kept : db'.app_role_catalogs ≡ db.app_role_catalogs

Publishes-Kept : {db db' : Store} → Publishes db db' → Kept db db'
Publishes-Kept (publishes s o l e) = record {
  defaults_kept = ap (λ d. d.org_role_app_defaults) e;
  roles_kept = ap (λ d. d.app_roles) e;
  overrides_kept = ap (λ d. d.user_app_role_overrides) e;
  catalogs_kept = ap (λ d. d.app_role_catalogs) e;
}

write_catalog-Kept :
    (digest : RoleCatalog → ℕ) (new_epoch : String → ℕ) (db : Store) (client : String) (iat : ℕ)
    (cat : RoleCatalog) (force : Bool) (db' : Store)
    → write_catalog digest new_epoch db client iat cat force ≡ ok db'
    → Kept (grant_root (stored_report digest db client cat iat) client (top_role cat.roles)) db'
unfolding write_catalog audit_reconcile
write_catalog-Kept digest new_epoch db client iat cat force db' h =
    let granted = grant_root (stored_report digest db client cat iat) client (top_role cat.roles) in
    let ((mid, n), run, h₁) =
      >>=-eq-ok
        (publish_role_changes new_epoch granted (client ∷ []) none force
          (root_subjects (stored_report digest db client cat iat) client (top_role cat.roles)))
        _ h in
    let k = Publishes-Kept (
      publish_role_changes-Publishes new_epoch granted (client ∷ []) none force
        (root_subjects (stored_report digest db client cat iat) client (top_role cat.roles)) mid n
        run) in
    subst (Kept granted) (ok-injective h₁) (record {
      defaults_kept = k.defaults_kept;
      roles_kept = k.roles_kept;
      overrides_kept = k.overrides_kept;
      catalogs_kept = k.catalogs_kept;
    })

move_roles-org_roles :
    (client : String) (cat : RoleCatalog) (rows : List CatalogRole) (db : Store)
    → (move_roles client cat rows db).org_roles ≡ db.org_roles
unfolding move_roles move_role
move_roles-org_roles client cat [] db = refl
move_roles-org_roles client cat (r ∷ rows) db = move_roles-org_roles client cat rows _

stored_report-org_roles :
    (digest : RoleCatalog → ℕ) (db : Store) (client : String) (cat : RoleCatalog) (iat : ℕ)
    → (stored_report digest db client cat iat).org_roles ≡ db.org_roles
unfolding stored_report store_catalog
stored_report-org_roles digest db client cat iat =
    move_roles-org_roles client cat (removed_roles cat (db.app_roles client)) db

grant_root-catalogs :
    (db : Store) (client : String) (top : Option CatalogRole)
    → (grant_root db client top).app_role_catalogs ≡ db.app_role_catalogs
unfolding grant_root
grant_root-catalogs db client none = refl
grant_root-catalogs db client (some top) = refl

grant_root-defaults :
    (db : Store) (client : String) (top : CatalogRole) (slug : String)
    → is_root_slug db.org_roles slug ≡ true
    → (grant_root db client (some top)).org_role_app_defaults slug client ≡ some (some top.role_id)
unfolding grant_root
grant_root-defaults db client top slug root = ground (arith, beq_refl client)

stored_report-catalog :
    (digest : RoleCatalog → ℕ) (db : Store) (client : String) (cat : RoleCatalog) (iat : ℕ)
    → (stored_report digest db client cat iat).app_role_catalogs client
      ≡ some (record { default_role_id = cat.default_role; last_sync_iat = iat })
unfolding stored_report store_catalog
stored_report-catalog digest db client cat iat = ground (arith, beq_refl client)

finish :
    (force : Bool) (written : Result RoleError Store) (db db' : Store) (found order : CatalogOrder)
    → no_change order force ≡ false
    → ◌≡◌ {A = Result RoleError (Store × CatalogOrder)}
        (if no_change found force then ok (db, found) else written >>= λ d. ok (d, found))
        (ok (db', order))
    → written ≡ ok db'
finish force written db db' found order changes h = elim (Bool-cases (no_change found force)) [
  | inl idle ↦
      let run : ◌≡◌ {A = Result RoleError (Store × CatalogOrder)} (ok (db, found))
          (ok (db', order)) =
        ground arith in
      let alike : found ≡ order = ap (λ p. p.1) (ok-injective run) in ground arith
  | inr busy ↦
      let run : ◌≡◌ {A = Result RoleError (Store × CatalogOrder)} (written >>= λ d. ok (d, found))
          (ok (db', order)) =
        ground arith in
      let (d, e, h₁) = >>=-eq-ok written _ run in e ∙ ap (λ p. ok p.0) (ok-injective h₁)
]

-- A successful report that changes something went through the writes.
apply_catalog-written :
    (digest : RoleCatalog → ℕ) (new_epoch : String → ℕ) (db : Store) (client : String) (iat : ℕ)
    (cat : RoleCatalog) (state : RoleSyncState) (db' : Store) (order : CatalogOrder)
    → apply_catalog digest new_epoch db client iat cat state ≡ ok (db', order)
    → no_change order (force_current state cat) ≡ false
    → write_catalog digest new_epoch db client iat cat (force_current state cat) ≡ ok db'
unfolding apply_catalog
apply_catalog-written digest new_epoch db client iat cat state db' order h changes =
    let (found, ordered, h₁) =
      >>=-eq-ok
        (catalog_order digest (baseline digest db client cat state) cat iat
          (is_some (db.app_role_catalogs client)))
        _ h in
    finish (force_current state cat)
      (write_catalog digest new_epoch db client iat cat (force_current state cat)) db db' found
      order changes h₁

List-cases :
    (roles : List CatalogRole)
    → (roles ≡ []) ⊎ ((first : CatalogRole) × (rest : List CatalogRole) × (roles ≡ first ∷ rest))
List-cases [] = inl refl
List-cases (first ∷ rest) = inr (first, rest, refl)

-- The org role hands down the app role at the client, if it is a root: a role of level 0.
abbrev pub HandsDown : Store → String → CatalogRole → OrgRole → Type 0
HandsDown db client top role =
    (role.level ≢ pos 0) ⊎ (db.org_role_app_defaults role.slug client ≡ some (some top.role_id))

-- Every row of a table is known to the test of the table.
root_slugs :
    (rows found : List OrgRole)
    → ((slug : String) → is_root_slug rows slug ≡ true → is_root_slug found slug ≡ true)
    → All (λ (r : OrgRole). (r.level ≢ pos 0) ⊎ (is_root_slug found r.slug ≡ true)) rows
root_slugs [] found within = tt
root_slugs (r ∷ rows) found within = (
  elim (Bool-cases (r.level == pos 0)) [
    | inl root ↦ inr (within r.slug (ground (arith, beq_refl r.slug)))
    | inr lower ↦ inl (λ e. let root = (int_beq_iff r.level (pos 0)).1 e in ground arith)
  ],
  root_slugs rows found (λ slug h. within slug (ground arith)),
)

roots_hand_down :
    (db db' : Store) (client : String) (top : CatalogRole)
    → ((slug : String)
        → is_root_slug db.org_roles slug ≡ true
        → db'.org_role_app_defaults slug client ≡ some (some top.role_id))
    → All (HandsDown db' client top) db.org_roles
roots_hand_down db db' client top granted =
    All-map db.org_roles
      (λ role h. elim h [ inl lower ↦ inl lower | inr root ↦ inr (granted role.slug root) ])
      (root_slugs db.org_roles db.org_roles (λ slug h. h))

-- After a report that changes something, the client's catalog row holds the report's default role and
-- its iat; and unless the report has no role, every root org role, of level 0, hands down there the most
-- privileged role of the report: the one of the lowest level, and of the smallest id on a tie.
pub apply_catalog_root :
    (digest : RoleCatalog → ℕ) (new_epoch : String → ℕ) (db : Store) (client : String) (iat : ℕ)
    (cat : RoleCatalog) (state : RoleSyncState) (db' : Store) (order : CatalogOrder)
    → apply_catalog digest new_epoch db client iat cat state ≡ ok (db', order)
    → no_change order (force_current state cat) ≡ false
    → (db'.app_role_catalogs client
        ≡ some (record { default_role_id = cat.default_role; last_sync_iat = iat }))
      × ((cat.roles ≡ [])
          ⊎ ((top : CatalogRole) × IsTop top cat.roles
              × All (HandsDown db' client top) db.org_roles))
unfolding top_role
apply_catalog_root digest new_epoch db client iat cat state db' order h changes =
    let stored = stored_report digest db client cat iat in
    let rows = stored_report-org_roles digest db client cat iat in
    let kept =
      write_catalog-Kept digest new_epoch db client iat cat (force_current state cat) db'
        (apply_catalog-written digest new_epoch db client iat cat state db' order h changes) in
    (
      ap (λ t. t client) kept.catalogs_kept
          ∙ (ap (λ t. t client) (grant_root-catalogs stored client (top_role cat.roles))
              ∙ stored_report-catalog digest db client cat iat),
      elim (List-cases cat.roles) [
        | inl empty ↦ inl empty
        | inr (first, rest, listed) ↦
            let top = top_from first rest in
            let best : top_role cat.roles ≡ some top = ap top_role listed in
            inr (
              top,
              subst (IsTop top) (sym listed) (top_from-IsTop first rest),
              roots_hand_down db db' client top (λ slug root.
                  ap (λ t. t slug client) kept.defaults_kept
                  ∙ (ap (λ t. (grant_root stored client t).org_role_app_defaults slug client) best
                      ∙ grant_root-defaults stored client top slug
                          (ap (λ r. is_root_slug r slug) rows ∙ root))),
            )
      ],
    )
