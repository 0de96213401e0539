-- ===== src/Rbac/Changes.antt =====
-- src/rbac/roleChanges.ts: the role transaction, and the publication of effective app roles.
-- Locks and timeouts have no effect on one transaction alone. Chunks of 100 rows are written as one.
-- `new_epoch` gives the uuid that a new row of app_role_sync_state takes by default.
pub mod Publication
pub mod Ledger
use Prim.Native.Nat.{Ordering}
use Prim.Native.String.{compare as compare_text}
use dreamsso.Common.{
  ℕ, suc, ◌+◌, String, Bool, true, false, not, ◌&&◌, ◌||◌, Option, none, some, List, [], ◌∷◌, ◌++◌,
  ◌==◌, map, filter, length, contains, is_some, ltb, if◌then◌else◌, string_eq, nat_eq, option_eq,
  bool_eq,
}
use dreamsso.Common.Int.{ℤ, int_eq}
use dreamsso.Common.Result.{Result, ok, err, ◌>>=◌, ◌>>◌, fail_if, or_fail}
use dreamsso.Store.{
  Store, Identity, RoleSyncState, legacy, EffectiveEntry, RoleChange, StoredCatalog, OauthClient,
  write, write₂,
}
use dreamsso.Rbac.AppRoles.{effective_app_role, role_known}
use dreamsso.Rbac.Errors.{RoleError, internal}

-- BIGINT's largest value.
abbrev pub max_revision : ℕ
max_revision = 9223372036854775807

-- `withRoleTransaction`: an error rolls every write back.
pub with_role_transaction {ℓ} :
    {A : Type ℓ} → (Store → Result RoleError (Store × A)) → Store → Store × Result RoleError A
with_role_transaction work db = elim (work db) [ ok (db', a) ↦ (db', ok a) | err e ↦ (db, err e) ]

abbrev stored_iat : Option StoredCatalog → ℕ
stored_iat none = 0
stored_iat (some cat) = cat.last_sync_iat

-- `[...new Set(clientIds)].sort()`.
abbrev precedes : String → String → Bool
precedes a b = elim (compare_text a b) [ Ordering.lt ↦ true | _ ↦ false ]

unfoldable pub insert_sorted : String → List String → List String
insert_sorted x [] = x ∷ []
insert_sorted x (y ∷ ys) =
    let rest = insert_sorted x ys in
    if x == y then y ∷ ys else if precedes x y then x ∷ y ∷ ys else y ∷ rest

unfoldable pub sorted_set : List String → List String
unfolding insert_sorted
sorted_set [] = []
sorted_set (x ∷ xs) = insert_sorted x (sorted_set xs)

pub record EffectiveRow : Type 0 where
  pub user_sub : ℕ
  pub role_id : Option ℤ
  pub managed : Bool
  pub previous : Option EffectiveEntry

-- The resolved role, or null where the catalog does not list it.
unfoldable pub known_role : Store → String → ℕ → Option ℤ
known_role db client sub =
    let raw = (effective_app_role db sub client).role_id in
    if role_known db client raw then raw else none

unfoldable pub effective_row : Store → String → ℕ → EffectiveRow
effective_row db client sub = record {
  user_sub = sub;
  role_id = known_role db client sub;
  managed = true;
  previous = db.app_role_effective client sub;
}

abbrev pub chosen : Option (List ℕ) → ℕ → Bool
chosen none sub = true
chosen (some subs) sub = contains subs sub

-- The live identities that a publication is about.
unfoldable pub live_subjects : List Identity → Option (List ℕ) → List ℕ
live_subjects [] subjects = []
live_subjects (i ∷ is) subjects =
    let rest = live_subjects is subjects in
    if not i.deleted && chosen subjects i.sub then i.sub ∷ rest else rest

unfoldable pub effective_rows : Store → String → Option (List ℕ) → List EffectiveRow
unfolding effective_row live_subjects
effective_rows db client subjects =
    if is_some (db.app_role_catalogs client)
    then map (effective_row db client) (live_subjects db.identities subjects)
    else []

abbrev same_entry : EffectiveRow → Option EffectiveEntry → Bool
same_entry row none = false
same_entry row (some p) = row.role_id == p.role_id && (row.managed == p.managed)

unfoldable pub is_changed : Bool → List ℕ → EffectiveRow → Bool
is_changed force forced row =
    force || contains forced row.user_sub || not (same_entry row row.previous)

abbrev pub entry_of : ℕ → EffectiveRow → EffectiveEntry
entry_of revision row = record {
  role_id = row.role_id;
  managed = row.managed;
  authority_revision = revision;
}

-- The upsert into app_role_effective.
unfoldable pub store_rows :
    String
    → ℕ
    → List EffectiveRow
    → (String → ℕ → Option EffectiveEntry)
    → String
    → ℕ
    → Option EffectiveEntry
store_rows client revision [] table = table
store_rows client revision (row ∷ rows) table =
    store_rows client revision rows
      (write₂ client row.user_sub (some (entry_of revision row)) table)

abbrev pub change_of : String → ℕ → ℕ → EffectiveRow → RoleChange
change_of client epoch revision row = record {
  target = client;
  sub = row.user_sub;
  role_id = row.role_id;
  authority_epoch = epoch;
  authority_revision = revision;
}

-- One client with rows to publish: revision, events and ledger move together.
unfoldable pub publish_rows :
    Store → String → RoleSyncState → List EffectiveRow → Result RoleError (Store × ℕ)
unfolding store_rows
publish_rows db client state [] = ok (db, 0)
publish_rows db client state (row ∷ rows) = do
  fail_if (not (ltb state.authority_revision max_revision))
      (internal "Role authority revision is exhausted.")
  let revision = suc state.authority_revision
  ok (
    record db {
      app_role_sync_state =
          write client (some (record state { authority_revision = revision }))
            db.app_role_sync_state;
      event_outbox =
          db.event_outbox ++ map (change_of client state.authority_epoch revision) (row ∷ rows);
      app_role_effective = store_rows client revision (row ∷ rows) db.app_role_effective;
    },
    length (row ∷ rows),
  )

module _ (new_epoch : String → ℕ) where
  abbrev new_state : Store → String → RoleSyncState
  new_state db client = record {
    catalog_mode = legacy;
    catalog_epoch = none;
    catalog_revision = none;
    catalog_digest = none;
    last_sync_iat = stored_iat (db.app_role_catalogs client);
    authority_epoch = new_epoch client;
    authority_revision = 0;
  }

  unfoldable pub ensure_role_sync_state : Store → String → Result RoleError (Store × RoleSyncState)
  ensure_role_sync_state db client = elim (db.app_role_sync_state client) [
    | some state ↦ ok (db, state)
    | none ↦ elim (db.oauth_clients client) [
      | none ↦ err (internal "Role authority client is unavailable.")
      | some _ ↦ ok (
        record db {
          app_role_sync_state = write client (some (new_state db client)) db.app_role_sync_state;
        },
        new_state db client,
      )
    ]
  ]

  unfoldable pub publish_client :
      Store → String → Option (List ℕ) → Bool → List ℕ → Result RoleError (Store × ℕ)
  publish_client db client subjects force forced = do
    ensured ← ensure_role_sync_state db client
    publish_rows ensured.0 client ensured.1
        (filter (is_changed force forced) (effective_rows ensured.0 client subjects))

  unfoldable pub publish_each :
      Store → List String → Option (List ℕ) → Bool → List ℕ → Result RoleError (Store × ℕ)
  publish_each db [] subjects force forced = ok (db, 0)
  publish_each db (client ∷ clients) subjects force forced = do
    one ← publish_client db client subjects force forced
    rest ← publish_each one.0 clients subjects force forced
    ok (rest.0, one.1 + rest.1)

  unfoldable pub publish_role_changes :
      Store → List String → Option (List ℕ) → Bool → List ℕ → Result RoleError (Store × ℕ)
  publish_role_changes db clients = publish_each db (sorted_set clients)
