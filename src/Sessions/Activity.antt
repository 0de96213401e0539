-- ===== src/Sessions/Activity.antt =====
-- Activity reports of src/routes/sessionActivity.ts.
use dreamsso.Common.{
  ℕ, ◌+◌, ◌*◌, ◌<◌, ◌⊎◌, ◌↔◌, String, true, false, Option, some, ap, Option-cases, List, [], ◌∷◌,
  ◌≡◌, refl, sym, subst, any, contains, max, min, if◌then◌else◌, string_eq, arith, Bool-cases, inl,
  inr,
}
use text.Mathlib.TextEquality.{eq_iff}
use dreamsso.Store.{Identity, Status, active, disabled, locked}
use dreamsso.Sessions.Windows.{SessionWindows}
use dreamsso.Sessions.{
  Session, SessionState, is_active, is_within, absolute_hours, is_reported, report_activity,
  update_rows,
}

-- A session that a client may report on: its own, used by the client, inside the idle and the absolute
-- window, of an active user.
pub record MayReport (now : ℕ) (w : SessionWindows) (identities : ℕ → Option Identity)
    (client sid : String) (row : Session) : Type 0 where
  pub same_sid : row.sid ≡ sid
  pub used_by : contains row.clients client ≡ true
  pub not_idle : now < row.last_seen + w.idle_hours * 3600000
  pub not_old :
      ((row.persistent ≡ true) × (now < row.created_at + w.max_hours * 3600000))
      ⊎ ((row.persistent ≡ false) × (now < row.created_at + w.transient_max_hours * 3600000))
  pub owner : Identity
  pub known : identities row.user_sub ≡ some owner
  pub active_owner : owner.status ≡ active
  pub not_deleted : owner.deleted ≡ false

-- A row after a report: of such a session, moved to the reported instant unless that is in the future or
-- before its last use; any other as it was.
pub data Reported (now : ℕ) (w : SessionWindows) (identities : ℕ → Option Identity)
    (client sid : String) (reported : ℕ) (row : Session) : Session → Type 0 where
  moved :
      MayReport now w identities client sid row
      → Reported now w identities client sid reported row
          (record row { last_seen = max row.last_seen (min reported now) })
  kept :
      (MayReport now w identities client sid row → ⊥)
      → Reported now w identities client sid reported row row

pub AllReported :
    ℕ
    → SessionWindows
    → (ℕ → Option Identity)
    → String
    → String
    → ℕ
    → List Session
    → List Session
    → Type 0
AllReported now w identities client sid reported [] [] = Unit
AllReported now w identities client sid reported [] (row' ∷ rows') = ⊥
AllReported now w identities client sid reported (row ∷ rows) [] = ⊥
AllReported now w identities client sid reported (row ∷ rows) (row' ∷ rows') =
    Reported now w identities client sid reported row row'
    × AllReported now w identities client sid reported rows rows'

-- Some row holds a session that the client may report on.
abbrev pub AnyReported :
    ℕ → SessionWindows → (ℕ → Option Identity) → String → String → List Session → Type 0
AnyReported now w identities client sid [] = ⊥
AnyReported now w identities client sid (row ∷ rows) =
    MayReport now w identities client sid row ⊎ AnyReported now w identities client sid rows

is_active-holds : (status : Status) → is_active status ≡ true → status ≡ active
is_active-holds active h = refl
is_active-holds disabled h = ground arith
is_active-holds locked h = ground arith

module _ (now : ℕ) (w : SessionWindows) (identities : ℕ → Option Identity)
    (client sid : String) where
  window_holds :
      (row : Session)
      → is_within now (absolute_hours w row) row.created_at ≡ true
      → ((row.persistent ≡ true) × (now < row.created_at + w.max_hours * 3600000))
        ⊎ ((row.persistent ≡ false) × (now < row.created_at + w.transient_max_hours * 3600000))
  window_holds row h = elim (Bool-cases row.persistent) [
    | inl persistent ↦ inl (persistent, ground arith)
    | inr transient ↦ inr (transient, ground arith)
  ]

  is_reported-MayReport :
      (row : Session)
      → is_reported now w identities client sid row ≡ true
      → MayReport now w identities client sid row
  is_reported-MayReport row h = elim (Option-cases (identities row.user_sub)) [
    | inl unknown ↦ absurd (ground arith)
    | inr (i, known) ↦ record {
      same_sid = (eq_iff row.sid sid).0 (ground arith);
      used_by = ground arith;
      not_idle = ground arith;
      not_old = window_holds row (ground arith);
      owner = i;
      known = known;
      active_owner = is_active-holds i.status (ground arith);
      not_deleted = ground arith;
    }
  ]

  MayReport-is_reported :
      (row : Session)
      → MayReport now w identities client sid row
      → is_reported now w identities client sid row ≡ true
  MayReport-is_reported row may =
      let sid_same = (eq_iff row.sid sid).1 may.same_sid in
      let used = may.used_by in
      let idle = may.not_idle in
      let known = may.known in
      let status = ap is_active may.active_owner in
      let present = may.not_deleted in
      elim may.not_old [
        | inl (persistent, old) ↦ ground arith
        | inr (transient, old) ↦ ground arith
      ]

  row-Reported :
      (reported : ℕ) (row : Session)
      → Reported now w identities client sid reported row (
          if is_reported now w identities client sid row
          then record row { last_seen = max row.last_seen (min reported now) }
          else row)
  row-Reported reported row = elim (Bool-cases (is_reported now w identities client sid row)) [
    | inl mine ↦
        let run : (if is_reported now w identities client sid row
              then record row { last_seen = max row.last_seen (min reported now) }
              else row)
            ≡ record row { last_seen = max row.last_seen (min reported now) } =
          ground arith in
        subst (Reported now w identities client sid reported row) (sym run)
          (moved (is_reported-MayReport row mine))
    | inr other ↦
        let run : (if is_reported now w identities client sid row
              then record row { last_seen = max row.last_seen (min reported now) }
              else row)
            ≡ row =
          ground arith in
        subst (Reported now w identities client sid reported row) (sym run)
          (kept (λ may. let mine = MayReport-is_reported row may in ground arith))
  ]

  rows-AllReported :
      (reported : ℕ) (rows : List Session)
      → AllReported now w identities client sid reported rows (
          update_rows
            (is_reported now w identities client sid)
            (λ row. record row { last_seen = max row.last_seen (min reported now) })
            rows)
  unfolding AllReported
  rows-AllReported reported [] = tt
  rows-AllReported reported (row ∷ rows) =
      (row-Reported reported row, rows-AllReported reported rows)

  any_reported :
      (rows : List Session)
      → (any (is_reported now w identities client sid) rows ≡ true)
        ↔ AnyReported now w identities client sid rows
  any_reported [] = (λ h. absurd (ground arith), λ h. absurd h)
  any_reported (row ∷ rows) =
      let rest = any_reported rows in
      (
        λ h. elim (Bool-cases (is_reported now w identities client sid row)) [
          | inl mine ↦ inl (is_reported-MayReport row mine)
          | inr other ↦ inr (rest.0 (ground arith))
        ],
        λ h. elim h [
          | inl may ↦ let mine = MayReport-is_reported row may in ground arith
          | inr later ↦ let some_later = rest.1 later in ground arith
        ],
      )

-- A report is accepted exactly when there is a session of that sid which the client used, inside both
-- windows and of an active user. The last use of such a session becomes the reported instant, but the
-- present if that is earlier, and never an instant before the last use; no other row changes.
pub report_activity-AllReported :
    (now : ℕ) (w : SessionWindows) (identities : ℕ → Option Identity) (client sid : String)
    (reported : ℕ) (s : SessionState)
    → AllReported now w identities client sid reported s.rows
        (report_activity now w identities client sid reported s).0.rows
      × (((report_activity now w identities client sid reported s).1 ≡ true)
          ↔ AnyReported now w identities client sid s.rows)
unfolding report_activity
report_activity-AllReported now w identities client sid reported s = (
  rows-AllReported now w identities client sid reported s.rows,
  any_reported now w identities client sid s.rows,
)
