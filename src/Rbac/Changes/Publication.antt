-- ===== src/Rbac/Changes/Publication.antt =====
-- The events and the revision of a publication (src/rbac/roleChanges.ts), and its repetition.
use dreamsso.Common.{
  ℕ, suc, ◌<◌, String, Bool, true, false, Option, some, ◌≡◌, refl, ap, ◌∙◌, List, [], ◌∷◌, ◌++◌,
  map, filter, contains, length, is_some, arith, All, string_eq, nat_eq, option_eq, filter-map,
  filter-eq-nil, beq_refl,
}
use dreamsso.Common.Int.{int_eq}
use dreamsso.Common.Result.{ok, >>=-eq-ok}
use dreamsso.Store.{Store, RoleSyncState, RoleChange}
use dreamsso.Rbac.Changes.{
  EffectiveRow, effective_row, effective_rows, live_subjects, is_changed, known_role, publish_rows,
  publish_client, change_of, max_revision, ensure_role_sync_state,
}
use dreamsso.Rbac.Changes.Ledger.{
  IsCurrent, listed, Publishes, publishes, publish_client-seen, publish_client-Publishes,
  effective_rows-managed,
}

-- The events of one publication: each for the client, under its epoch and under one revision.
abbrev pub Stamped : String → ℕ → ℕ → List RoleChange → Type 0
Stamped client epoch revision events =
    All (λ e. (e.target ≡ client) × (e.authority_epoch ≡ epoch) × (e.authority_revision ≡ revision))
      events

changes-Stamped :
    (client : String) (epoch revision : ℕ) (rows : List EffectiveRow)
    → Stamped client epoch revision (map (change_of client epoch revision) rows)
changes-Stamped client epoch revision [] = tt
changes-Stamped client epoch revision (row ∷ rows) =
    ((refl, refl, refl), changes-Stamped client epoch revision rows)

length-map {ℓ κ} :
    {A : Type ℓ} {B : Type κ} (xs : List A) (f : A → B) → length (map f xs) ≡ length xs
length-map [] f = refl
length-map (x ∷ xs) f = ap suc (length-map xs f)

-- What one publication of `n` changes does to the client's revision and to the outbox.
pub data Advances (client : String) (state : RoleSyncState) (db db' : Store) (n : ℕ) : Type 0 where
  quiet :
      n ≡ 0
      → db'.event_outbox ≡ db.event_outbox
      → db'.app_role_sync_state ≡ db.app_role_sync_state
      → Advances client state db db' n
  advanced :
      (events : List RoleChange)
      → 0 < n
      → length events ≡ n
      → state.authority_revision < max_revision
      → db'.event_outbox ≡ db.event_outbox ++ events
      → Stamped client state.authority_epoch (suc state.authority_revision) events
      → db'.app_role_sync_state client
        ≡ some (record state { authority_revision = suc state.authority_revision })
      → Advances client state db db' n

-- A publication that finds nothing to tell is quiet; any other advances the client's revision by
-- one, below the largest BIGINT, and appends its events under that new revision.
pub publish_rows-Advances :
    (db : Store) (client : String) (state : RoleSyncState) (rows : List EffectiveRow) (db' : Store)
    (n : ℕ)
    → publish_rows db client state rows ≡ ok (db', n)
    → Advances client state db db' n
unfolding publish_rows
publish_rows-Advances db client state [] db' n h =
    quiet (ground arith) (ground arith) (ground arith)
publish_rows-Advances db client state (row ∷ rows) db' n h =
    let events : List RoleChange =
      map (change_of client state.authority_epoch (suc state.authority_revision)) (row ∷ rows) in
    advanced events (ground arith)
      (ground (
        arith,
        length-map (row ∷ rows)
            (change_of client state.authority_epoch (suc state.authority_revision)),
      ))
      (ground arith) (ground arith)
      (changes-Stamped client state.authority_epoch (suc state.authority_revision) (row ∷ rows))
      (ground (arith, beq_refl client))

not_changed_of_IsCurrent :
    (db : Store) (client : String) (s : ℕ)
    → IsCurrent db client s
    → is_changed false [] (effective_row db client s) ≡ false
unfolding is_changed effective_row
not_changed_of_IsCurrent db client s (listed e stored role managed) =
    ground (arith, option_eq.beq_iff (known_role db client s) e.role_id)

ensure_role_sync_state-stored :
    (new_epoch : String → ℕ) (db : Store) (client : String) (db' : Store) (state : RoleSyncState)
    → ensure_role_sync_state new_epoch db client ≡ ok (db', state)
    → db'.app_role_sync_state client ≡ some state
unfolding ensure_role_sync_state
ensure_role_sync_state-stored new_epoch db client db' state h = ground (arith, beq_refl client)

ensure_role_sync_state_found :
    (new_epoch : String → ℕ) (db : Store) (client : String) (state : RoleSyncState)
    → db.app_role_sync_state client ≡ some state
    → ensure_role_sync_state new_epoch db client ≡ ok (db, state)
unfolding ensure_role_sync_state
ensure_role_sync_state_found new_epoch db client state h = ground arith

Advances-stored :
    (client : String) (state : RoleSyncState) (db db' : Store) (n : ℕ)
    → Advances client state db db' n
    → db.app_role_sync_state client ≡ some state
    → (next : RoleSyncState) × (db'.app_role_sync_state client ≡ some next)
Advances-stored client state db db' n (quiet z o k) h = (state, rw k h)
Advances-stored client state db db' n (advanced events p l m o e k) h = (_, k)

Publishes-identities : {db db' : Store} → Publishes db db' → db'.identities ≡ db.identities
Publishes-identities (publishes sync outbox ledger e) = ap (λ d. d.identities) e

Publishes-catalogs :
    {db db' : Store} → Publishes db db' → db'.app_role_catalogs ≡ db.app_role_catalogs
Publishes-catalogs (publishes sync outbox ledger e) = ap (λ d. d.app_role_catalogs) e

no_rows :
    (db : Store) (client : String) (subs : List ℕ)
    → ((s : ℕ) → contains subs s ≡ true → IsCurrent db client s)
    → filter (is_changed false []) (map (effective_row db client) subs) ≡ []
no_rows db client subs h =
    filter-map (is_changed false []) (effective_row db client) subs
    ∙ ap (map (effective_row db client)) (
        filter-eq-nil (λ s. is_changed false [] (effective_row db client s)) subs
          (λ s m. not_changed_of_IsCurrent db client s (h s m)))

-- For a client with a catalog, a publication right after a successful one, of the same subjects and
-- with nothing forced, finds nothing to tell: it changes no table.
pub publish_client_twice :
    (new_epoch : String → ℕ) (db : Store) (client : String) (subjects : Option (List ℕ))
    (force : Bool) (forced : List ℕ) (db' : Store) (n : ℕ)
    → publish_client new_epoch db client subjects force forced ≡ ok (db', n)
    → is_some (db.app_role_catalogs client) ≡ true
    → publish_client new_epoch db' client subjects false [] ≡ ok (db', 0)
unfolding publish_client
publish_client_twice new_epoch db client subjects force forced db' n h managed =
    let (ensured, e, rest) = >>=-eq-ok (ensure_role_sync_state new_epoch db client) _ h in
    let (next, found) =
      Advances-stored client ensured.1 ensured.0 db' n
        (publish_rows-Advances ensured.0 client ensured.1 _ db' n rest)
        (ensure_role_sync_state-stored new_epoch db client ensured.0 ensured.1 e) in
    rw (ensure_role_sync_state_found new_epoch db' client next found, quiet_rows)
      (unfold publish_rows in refl)
  where
    quiet_rows : filter (is_changed false []) (effective_rows db' client subjects) ≡ []
    quiet_rows =
        let kept = publish_client-Publishes new_epoch db client subjects force forced db' n h in
        ap (filter (is_changed false [])) (
          effective_rows-managed db' client subjects (rw (Publishes-catalogs kept) managed)
          ∙ ap (λ is. map (effective_row db' client) (live_subjects is subjects))
              (Publishes-identities kept))
        ∙ no_rows db' client (live_subjects db.identities subjects)
            (λ s. publish_client-seen new_epoch db client subjects force forced db' n s h managed)
