-- ===== src/Rbac/Administration/UserAccess/Success.antt =====
-- What a successful `applyUserAccess` of src/rbac/roleAdministration.ts went through.
use dreamsso.Common.{
  ℕ, String, Bool, true, false, Option, some, ◌≡◌, refl, subst, List, [], ◌∷◌, ◌++◌, string_eq,
  nat_eq, option_eq, if◌then◌else◌,
}
use dreamsso.Common.Int.{int_eq}
use dreamsso.Common.Result.{Result, ok, >>=-eq-ok, ok-injective}
use dreamsso.Rbac.Errors.{RoleError}
use dreamsso.Json.{Fields}
use dreamsso.Store.{Store, RoleSyncState, RoleChange, EffectiveEntry, AuditEntry}
use dreamsso.Rbac.Changes.Ledger.{Publishes, publishes, publish_role_changes-Publishes}
use dreamsso.Rbac.Administration.{Actor, write_audit}
use dreamsso.Rbac.Administration.UserAccess.{
  UserPlan, write_user_access, publish_user_access, apply_user_access, plan_user_access,
  admit_target, read_changes, check_areas,
}
use dreamsso.Rbac.Administration.UserAccess.Plan.{
  IsAdmitted, admit_target-IsAdmitted, IsChecked, check_changes-IsChecked,
}

-- The tables that the publication and the audit write after the plan's own writes.
pub data Follows (db db' : Store) : Type 0 where
  follows :
      (sync : String → Option RoleSyncState) (outbox : List RoleChange)
      (ledger : String → ℕ → Option EffectiveEntry) (audit : List AuditEntry)
      → db' ≡ record db {
        app_role_sync_state = sync;
        event_outbox = outbox;
        app_role_effective = ledger;
        org_audit_log = audit;
      }
      → Follows db db'

if-Publishes :
    (test : Bool) (db : Store) (published : Result RoleError (Store × ℕ)) (db' : Store) (n : ℕ)
    → ((db' : Store) (n : ℕ) → published ≡ ok (db', n) → Publishes db db')
    → (if test then published else ok (db, 0)) ≡ ok (db', n)
    → Publishes db db'
if-Publishes true db published db' n yes_case h = yes_case db' n h
if-Publishes false db published db' n yes_case h =
    subst (λ r. Publishes db r.0) (ok-injective h)
      (publishes db.app_role_sync_state db.event_outbox db.app_role_effective refl)

publish_user_access-Publishes :
    (new_epoch : String → ℕ) (db : Store) (target : ℕ) (plan : UserPlan) (db' : Store) (n : ℕ)
    → publish_user_access new_epoch db target plan ≡ ok (db', n)
    → Publishes db db'
unfolding publish_user_access
publish_user_access-Publishes new_epoch db target plan db' n h =
    if-Publishes _ db _ db' n (publish_role_changes-Publishes new_epoch db _ _ false []) h

write_audit-Follows :
    {db mid : Store} (actor : ℕ) (action : String) (target : Option ℕ)
    → Publishes db mid
    → Follows db (write_audit mid actor action target)
unfolding write_audit
write_audit-Follows {db} actor action target (publishes sync outbox ledger e) =
    follows sync outbox ledger
      (db.org_audit_log
        ++ record { actor_sub = some actor; target_sub = target; action = action } ∷ [])
      (rw e refl)

-- A successful call: an admitted actor, checked changes, their writes, and what follows them.
pub record Success (db : Store) (actor_sub target : ℕ) (db' : Store) : Type 0 where
  pub actor : Actor
  pub plan : UserPlan
  pub admitted : IsAdmitted db actor_sub target actor
  pub checked : IsChecked db actor target plan
  pub written : Follows (write_user_access db target plan) db'

plan_user_access-IsChecked :
    (db : Store) (actor_sub target : ℕ) (changes : Fields) (plan : UserPlan)
    → plan_user_access db actor_sub target changes ≡ ok plan
    → (actor : Actor) × IsAdmitted db actor_sub target actor × IsChecked db actor target plan
unfolding plan_user_access
plan_user_access-IsChecked db actor_sub target changes plan h =
    let (actor, e, h₁) = >>=-eq-ok (admit_target db actor_sub target) _ h in
    let (asked, r, h₂) = >>=-eq-ok (read_changes changes) _ h₁ in
    let (done, c, h₃) = >>=-eq-ok (check_areas actor.granted asked) _ h₂ in
    (
      actor,
      admit_target-IsAdmitted db actor_sub target actor e,
      check_changes-IsChecked db actor target asked plan h₃,
    )

module _ (new_epoch : String → ℕ) where
  pub apply_user_access-Success :
      (db : Store) (actor_sub target : ℕ) (changes : Fields) (action : String) (db' : Store)
      → apply_user_access new_epoch db actor_sub target changes action ≡ ok db'
      → Success db actor_sub target db'
  unfolding apply_user_access
  apply_user_access-Success db actor_sub target changes action db' h =
      let (plan, p, h₁) = >>=-eq-ok (plan_user_access db actor_sub target changes) _ h in
      let ((mid, n), q, h₂) =
        >>=-eq-ok (publish_user_access new_epoch (write_user_access db target plan) target plan) _
          h₁ in
      let (actor, admitted, checked) =
        plan_user_access-IsChecked db actor_sub target changes plan p in
      record {
        actor = actor;
        plan = plan;
        admitted = admitted;
        checked = checked;
        written = subst (Follows (write_user_access db target plan)) (ok-injective h₂) (
            write_audit-Follows actor_sub action (some target)
              (publish_user_access-Publishes new_epoch _ target plan mid n q));
      }
