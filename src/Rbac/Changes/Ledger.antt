-- ===== src/Rbac/Changes/Ledger.antt =====
-- What a publication of src/rbac/roleChanges.ts leaves in app_role_effective.
use dreamsso.Common.{
  ℕ, String, Bool, true, false, not, ◌&&◌, Option, some, ◌≡◌, refl, sym, ap, subst, ◌∙◌, List, [],
  ◌∷◌, ◌==◌, map, filter, any, contains, is_some, arith, beq_refl, string_eq, nat_eq, Bool-cases,
  inl, inr, contains-filter, filter-map, suc, ◌++◌, Option-cases, option_eq,
}
use dreamsso.Common.Result.{ok, >>=-eq-ok, ok-injective}
use dreamsso.Store.{Store, Identity, EffectiveEntry, RoleSyncState, RoleChange, write, write₂}
use dreamsso.Common.Int.{int_eq}
use dreamsso.Rbac.AppRoles.{effective_app_role}
use dreamsso.Rbac.Changes.{
  EffectiveRow, effective_row, effective_rows, entry_of, store_rows, live_subjects, chosen,
  is_changed, known_role, publish_rows, change_of, ensure_role_sync_state, publish_each,
  publish_role_changes, publish_client,
}

-- The ledger tells a client the role that the tables give the subject now.
pub data IsCurrent (db : Store) (client : String) (sub : ℕ) : Type 0 where
  listed :
      (e : EffectiveEntry)
      → db.app_role_effective client sub ≡ some e
      → e.role_id ≡ known_role db client sub
      → e.managed ≡ true
      → IsCurrent db client sub

-- What a publication may write.
pub data Publishes (db db' : Store) : Type 0 where
  publishes :
      (sync : String → Option RoleSyncState) (outbox : List RoleChange)
      (ledger : String → ℕ → Option EffectiveEntry)
      → db' ≡ record db {
        app_role_sync_state = sync;
        event_outbox = outbox;
        app_role_effective = ledger;
      }
      → Publishes db db'

module _ (db : Store) (client : String) (revision : ℕ) where
  store_rows_miss :
      (subs : List ℕ) (table : String → ℕ → Option EffectiveEntry) (s : ℕ)
      → contains subs s ≡ false
      → store_rows client revision (map (effective_row db client) subs) table client s
        ≡ table client s
  unfolding store_rows effective_row
  store_rows_miss [] table s h = refl
  store_rows_miss (x ∷ subs) table s h = ground (
    arith,
    store_rows_miss subs
        (write₂ client x (some (entry_of revision (effective_row db client x))) table) s,
  )

  store_rows_hit :
      (subs : List ℕ) (table : String → ℕ → Option EffectiveEntry) (s : ℕ)
      → contains subs s ≡ true
      → store_rows client revision (map (effective_row db client) subs) table client s
        ≡ some (entry_of revision (effective_row db client s))
  unfolding store_rows effective_row
  store_rows_hit [] table s h = absurd (ground arith)
  store_rows_hit (x ∷ subs) table s h = elim (Bool-cases (contains subs s)) [
    | inl later ↦ store_rows_hit subs _ s later
    | inr now ↦ store_rows_miss subs _ s now ∙ ground (arith, beq_refl client)
  ]

module _ (subjects : Option (List ℕ)) (s : ℕ) where
  contains-live_subjects :
      (is : List Identity)
      → any (λ i. not i.deleted && (i.sub == s)) is ≡ true
      → chosen subjects s ≡ true
      → contains (live_subjects is subjects) s ≡ true
  unfolding live_subjects
  contains-live_subjects [] h c = absurd (ground arith)
  contains-live_subjects (i ∷ is) h c = ground (arith, contains-live_subjects is)

publish_rows-Publishes :
    (db : Store) (client : String) (state : RoleSyncState) (rows : List EffectiveRow) (db' : Store)
    (n : ℕ)
    → publish_rows db client state rows ≡ ok (db', n)
    → (revision : ℕ) × Publishes db db'
      × (db'.app_role_effective ≡ store_rows client revision rows db.app_role_effective)
unfolding publish_rows store_rows
publish_rows-Publishes db client state [] db' n h = (
  0,
  publishes db.app_role_sync_state db.event_outbox db.app_role_effective ground arith,
  ground arith,
)
publish_rows-Publishes db client state (row ∷ rows) db' n h =
    let revision : ℕ = suc state.authority_revision in
    (
      revision,
      publishes
          (write client (some (record state { authority_revision = revision }))
            db.app_role_sync_state)
          (db.event_outbox ++ map (change_of client state.authority_epoch revision) (row ∷ rows))
          (store_rows client revision (row ∷ rows) db.app_role_effective) (ground arith),
      ground arith,
    )

ensure_role_sync_state-Publishes :
    (new_epoch : String → ℕ) (db : Store) (client : String) (db' : Store) (state : RoleSyncState)
    → ensure_role_sync_state new_epoch db client ≡ ok (db', state)
    → (sync : String → Option RoleSyncState) × (db' ≡ record db { app_role_sync_state = sync })
unfolding ensure_role_sync_state
ensure_role_sync_state-Publishes new_epoch db client db' state h =
    (db'.app_role_sync_state, ground arith)

Publishes-known_role :
    {db db' : Store} (client : String) (s : ℕ)
    → Publishes db db'
    → known_role db' client s ≡ known_role db client s
unfolding known_role effective_app_role
Publishes-known_role client s (publishes sync outbox ledger e) = rw e refl

-- The rows that a publication stores make the ledger current for each subject that it looks at.
module _ (db db' : Store) (client : String) (revision : ℕ) (force : Bool) (forced subs : List ℕ)
    (s : ℕ) (written : Publishes db db')
    (stored : db'.app_role_effective
      ≡ store_rows client revision
          (filter (is_changed force forced) (map (effective_row db client) subs))
          db.app_role_effective)
    (seen : contains subs s ≡ true) where
  changed_subs : List ℕ
  changed_subs = filter (λ a. is_changed force forced (effective_row db client a)) subs

  ledger-changed_subs :
      db'.app_role_effective client s
      ≡ store_rows client revision
          (map (effective_row db client) changed_subs)
          db.app_role_effective
          client
          s
  unfolding changed_subs
  ledger-changed_subs =
      rw (stored, filter-map (is_changed force forced) (effective_row db client) subs)

  contains-changed_subs :
      contains changed_subs s ≡ is_changed force forced (effective_row db client s)
  unfolding changed_subs
  contains-changed_subs =
      contains-filter (λ a. is_changed force forced (effective_row db client a)) subs s ∙ rw seen

  kept-IsCurrent :
      is_changed force forced (effective_row db client s) ≡ false → IsCurrent db' client s
  unfolding is_changed effective_row
  kept-IsCurrent k = elim (Option-cases (db.app_role_effective client s)) [
    | inl e ↦ absurd (ground arith)
    | inr (p, e) ↦
        listed p
          (ledger-changed_subs
            ∙ store_rows_miss db client revision changed_subs _ s (contains-changed_subs ∙ k)
            ∙ e)
          (sym (same p e) ∙ sym (Publishes-known_role client s written)) (ground arith)
  ]
    where
      same :
          (p : EffectiveEntry)
          → db.app_role_effective client s ≡ some p
          → known_role db client s ≡ p.role_id
      same p e = ground (arith, option_eq.beq_iff (known_role db client s) p.role_id)

  stored-IsCurrent : IsCurrent db' client s
  stored-IsCurrent = elim (Bool-cases (is_changed force forced (effective_row db client s))) [
    | inr kept ↦ kept-IsCurrent kept
    | inl changed ↦
        listed (entry_of revision (effective_row db client s))
          (ledger-changed_subs
            ∙ store_rows_hit db client revision changed_subs _ s (contains-changed_subs ∙ changed))
          (unfold effective_row in sym (Publishes-known_role client s written))
          (unfold effective_row in refl)
  ]

pub effective_rows-managed :
    (db : Store) (client : String) (subjects : Option (List ℕ))
    → is_some (db.app_role_catalogs client) ≡ true
    → effective_rows db client subjects
      ≡ map (effective_row db client) (live_subjects db.identities subjects)
unfolding effective_rows
effective_rows-managed db client subjects h = rw h

Publishes-after :
    {db mid db' : Store} {sync : String → Option RoleSyncState}
    → mid ≡ record db { app_role_sync_state = sync }
    → Publishes mid db'
    → Publishes db db'
Publishes-after e (publishes sync outbox ledger w) = publishes sync outbox ledger (rw e at w)

module _ (new_epoch : String → ℕ) where
  pub publish_client-seen :
      (db : Store) (client : String) (subjects : Option (List ℕ)) (force : Bool) (forced : List ℕ)
      (db' : Store) (n s : ℕ)
      → publish_client new_epoch db client subjects force forced ≡ ok (db', n)
      → is_some (db.app_role_catalogs client) ≡ true
      → contains (live_subjects db.identities subjects) s ≡ true
      → IsCurrent db' client s
  unfolding publish_client
  publish_client-seen db client subjects force forced db' n s h managed seen =
      let (ensured, e, rest) = >>=-eq-ok (ensure_role_sync_state new_epoch db client) _ h in
      let (sync, same) =
        ensure_role_sync_state-Publishes new_epoch db client ensured.0 ensured.1 e in
      let (revision, written, stored) =
        publish_rows-Publishes ensured.0 client ensured.1 _ db' n rest in
      stored-IsCurrent ensured.0 db' client revision force forced
        (live_subjects ensured.0.identities subjects) s written
        (stored
          ∙ ap
              (λ rows.
                store_rows client revision (filter (is_changed force forced) rows)
                  ensured.0.app_role_effective)
              (effective_rows-managed ensured.0 client subjects (rw same managed)))
        (rw same seen)

  -- A publication touches no table but the sync state, the outbox and the ledger.
  pub publish_client-Publishes :
      (db : Store) (client : String) (subjects : Option (List ℕ)) (force : Bool) (forced : List ℕ)
      (db' : Store) (n : ℕ)
      → publish_client new_epoch db client subjects force forced ≡ ok (db', n)
      → Publishes db db'
  unfolding publish_client
  publish_client-Publishes db client subjects force forced db' n h =
      let (ensured, e, rest) = >>=-eq-ok (ensure_role_sync_state new_epoch db client) _ h in
      let (sync, same) =
        ensure_role_sync_state-Publishes new_epoch db client ensured.0 ensured.1 e in
      let (revision, written, stored) =
        publish_rows-Publishes ensured.0 client ensured.1 _ db' n rest in
      Publishes-after same written

  -- After a publication at a client with a catalog, the ledger of app_role_effective holds, for
  -- each live identity that the publication is about, the role that the tables resolve to.
  pub publish_client-IsCurrent :
      (db : Store) (client : String) (subjects : Option (List ℕ)) (force : Bool) (forced : List ℕ)
      (db' : Store) (n s : ℕ)
      → publish_client new_epoch db client subjects force forced ≡ ok (db', n)
      → is_some (db.app_role_catalogs client) ≡ true
      → any (λ i. not i.deleted && (i.sub == s)) db.identities ≡ true
      → chosen subjects s ≡ true
      → IsCurrent db' client s
  publish_client-IsCurrent db client subjects force forced db' n s h managed live asked =
      publish_client-seen db client subjects force forced db' n s h managed
        (contains-live_subjects subjects s db.identities live asked)

Publishes-refl : (db : Store) → Publishes db db
Publishes-refl db = publishes db.app_role_sync_state db.event_outbox db.app_role_effective refl

Publishes-trans : {a b c : Store} → Publishes a b → Publishes b c → Publishes a c
Publishes-trans (publishes s o l e) (publishes s' o' l' e') = publishes s' o' l' (rw e at e')

publish_each-Publishes :
    (new_epoch : String → ℕ) (db : Store) (clients : List String) (subjects : Option (List ℕ))
    (force : Bool) (forced : List ℕ) (db' : Store) (n : ℕ)
    → publish_each new_epoch db clients subjects force forced ≡ ok (db', n)
    → Publishes db db'
unfolding publish_each
publish_each-Publishes new_epoch db [] subjects force forced db' n h =
    subst (λ r. Publishes db r.0) (ok-injective h) (Publishes-refl db)
publish_each-Publishes new_epoch db (client ∷ clients) subjects force forced db' n h =
    let ((one, m), e, h₁) =
      >>=-eq-ok (publish_client new_epoch db client subjects force forced) _ h in
    let ((rest, k), d, h₂) =
      >>=-eq-ok (publish_each new_epoch one clients subjects force forced) _ h₁ in
    subst (λ r. Publishes db r.0) (ok-injective h₂)
      (Publishes-trans (publish_client-Publishes new_epoch db client subjects force forced one m e)
        (publish_each-Publishes new_epoch one clients subjects force forced rest k d))

pub publish_role_changes-Publishes :
    (new_epoch : String → ℕ) (db : Store) (clients : List String) (subjects : Option (List ℕ))
    (force : Bool) (forced : List ℕ) (db' : Store) (n : ℕ)
    → publish_role_changes new_epoch db clients subjects force forced ≡ ok (db', n)
    → Publishes db db'
unfolding publish_role_changes
publish_role_changes-Publishes new_epoch db clients subjects force forced db' n h =
    publish_each-Publishes new_epoch db _ subjects force forced db' n h
