-- ===== src/Sessions.antt =====
-- SSO master sessions, src/oidc/sessions.ts, and the activity reports of src/routes/sessionActivity.ts.
-- The table sessions is a list of rows in the order of insertion; instants are milliseconds, those of a
-- call one; the settings are what `getSetting` returns.
pub mod Windows
pub mod Stepup
pub mod Live
pub mod Activity
mod Tests
use dreamsso.Common.{
  ℕ, ◌+◌, ◌-◌, ◌*◌, ◌/◌, String, Bool, true, false, not, ◌&&◌, ◌||◌, Option, none, some, List, [],
  ◌∷◌, ◌++◌, ◌==◌, map, find?, filter, any, length, contains, ltb, leb, max, min, is_some,
  if◌then◌else◌, string_eq, nat_eq,
}
use dreamsso.Store.{Identity, Status, active, disabled, locked}
use dreamsso.Sessions.Windows.{SessionWindows}
use dreamsso.Sessions.Stepup.{method_from_amr}

abbrev pub hour_ms : ℕ
hour_ms = 3600000

abbrev pub touch_interval_ms : ℕ
touch_interval_ms = 60000

abbrev pub touched_max : ℕ
touched_max = 10000

-- A row of the table.
pub record Session : Type 0 where
  pub sid : String
  pub user_sub : ℕ
  pub token_hash : String
  pub amr : List String
  pub acr : Option String
  pub auth_time : ℕ
  pub ip : Option String
  pub user_agent : Option String
  pub country : Option String
  pub city : Option String
  pub region : Option String
  pub expires_at : ℕ
  pub stepup_at : Option ℕ
  pub stepup_method : Option String
  pub persistent : Bool
  pub created_at : ℕ
  pub last_seen : ℕ
  pub clients : List String

pub record NewSession : Type 0 where
  pub user_sub : ℕ
  pub amr : List String
  pub acr : Option String
  pub ip : Option String
  pub user_agent : Option String
  pub country : Option String
  pub city : Option String
  pub region : Option String

-- What a load returns, in whole seconds.
pub record ActiveSession : Type 0 where
  pub sid : String
  pub user_sub : ℕ
  pub amr : List String
  pub acr : Option String
  pub auth_time : ℕ
  pub stepup_at : Option ℕ
  pub stepup_method : Option String
  pub persistent : Bool
  pub created_at : ℕ

pub record SessionState : Type 0 where
  pub rows : List Session
  pub touched : List (String × ℕ)

-- `EXTRACT(EPOCH FROM ...)::bigint` rounds.
abbrev pub epoch : ℕ → ℕ
epoch ms = (ms + 500) / 1000

-- `t > hoursAgo(hours)`.
abbrev pub is_within : ℕ → ℕ → ℕ → Bool
is_within now hours t = ltb now (t + hours * hour_ms)

abbrev pub absolute_hours : SessionWindows → Session → ℕ
absolute_hours w row = if row.persistent then w.max_hours else w.transient_max_hours

-- `i.status = 'active' AND i.deleted_at IS NULL`, of the row's identity.
abbrev pub is_active : Status → Bool
is_active active = true
is_active disabled = false
is_active locked = false

abbrev pub owner_active : (ℕ → Option Identity) → Session → Bool
owner_active identities row = elim (identities row.user_sub) [
  | none ↦ false
  | some i ↦ is_active i.status && not i.deleted
]

abbrev pub is_live : ℕ → SessionWindows → (ℕ → Option Identity) → Session → Bool
is_live now w identities row =
    is_within now w.idle_hours row.last_seen
    && is_within now (absolute_hours w row) row.created_at
    && owner_active identities row

abbrev pub active_session : Session → ActiveSession
active_session row = record {
  sid = row.sid;
  user_sub = row.user_sub;
  amr = row.amr;
  acr = row.acr;
  auth_time = epoch row.auth_time;
  stepup_at = elim row.stepup_at [ none ↦ none | some t ↦ some (epoch t) ];
  stepup_method = row.stepup_method;
  persistent = row.persistent;
  created_at = epoch row.created_at;
}

-- `UPDATE sessions SET ... WHERE ...`, and its row count.
abbrev pub update_rows : (Session → Bool) → (Session → Session) → List Session → List Session
update_rows holds f [] = []
update_rows holds f (row ∷ rows) =
    let rest = update_rows holds f rows in (if holds row then f row else row) ∷ rest

abbrev pub touched_at : String → List (String × ℕ) → Option ℕ
touched_at sid [] = none
touched_at sid ((key, t) ∷ rest) = if key == sid then some t else touched_at sid rest

abbrev pub set_touched : String → ℕ → List (String × ℕ) → List (String × ℕ)
set_touched sid now [] = (sid, now) ∷ []
set_touched sid now ((key, t) ∷ rest) =
    let others = set_touched sid now rest in
    if key == sid then (key, now) ∷ rest else (key, t) ∷ others

-- `prev && now - prev < TOUCH_INTERVAL_MS`.
abbrev pub touched_lately : ℕ → Option ℕ → Bool
touched_lately now none = false
touched_lately now (some prev) = not (prev == 0) && ltb now (prev + touch_interval_ms)

pub touch_session : ℕ → String → SessionState → SessionState
touch_session now sid s =
    let entries = set_touched sid now s.touched in
    if touched_lately now (touched_at sid s.touched) then s else record {
      rows = update_rows (λ row. row.sid == sid) (λ row. record row { last_seen = now }) s.rows;
      touched = if ltb touched_max (length entries) then [] else entries;
    }

abbrev pub found : ℕ → Option Session → SessionState → SessionState × Option ActiveSession
found now none s = (s, none)
found now (some row) s = (touch_session now row.sid s, some (active_session row))

pub load_session :
    ℕ
    → SessionWindows
    → (ℕ → Option Identity)
    → String
    → SessionState
    → SessionState × Option ActiveSession
load_session now w identities hash s =
    found now (find? (λ row. row.token_hash == hash && is_live now w identities row) s.rows) s

pub load_session_by_sid :
    ℕ
    → SessionWindows
    → (ℕ → Option Identity)
    → String
    → SessionState
    → SessionState × Option ActiveSession
load_session_by_sid now w identities sid s =
    found now (find? (λ row. row.sid == sid && is_live now w identities row) s.rows) s

-- A session that is born; `sid` is the one the table makes, `hash` that of the minted token.
abbrev pub born : ℕ → SessionWindows → String → String → NewSession → Session
born now w sid hash new = record {
  sid = sid;
  user_sub = new.user_sub;
  token_hash = hash;
  amr = new.amr;
  acr = new.acr;
  auth_time = now;
  ip = new.ip;
  user_agent = new.user_agent;
  country = new.country;
  city = new.city;
  region = new.region;
  expires_at = now + w.transient_max_hours * hour_ms;
  stepup_at = some now;
  stepup_method = some (method_from_amr new.amr);
  persistent = false;
  created_at = now;
  last_seen = now;
  clients = [];
}

pub create_session : ℕ → SessionWindows → String → String → NewSession → SessionState → SessionState
create_session now w sid hash new s = record s { rows = s.rows ++ (born now w sid hash new ∷ []) }

-- For a request with the cookie whose hash this is.
pub persist_session : ℕ → SessionWindows → String → String → SessionState → SessionState × Bool
persist_session now w sid hash s =
    let mine : Session → Bool = λ row. row.sid == sid && row.token_hash == hash in
    (
      record s {
        rows =
            update_rows mine
              (λ row. record row { persistent = true; expires_at = now + w.max_hours * hour_ms })
              s.rows;
      },
      any mine s.rows,
    )

pub stamp_stepup : ℕ → String → String → SessionState → SessionState
stamp_stepup now sid method s = record s {
  rows =
      update_rows (λ row. row.sid == sid)
        (λ row. record row { stepup_at = some now; stepup_method = some method }) s.rows;
}

-- `last_seen < hoursAgo(idle) OR created_at < hoursAgo(absolute)`.
abbrev pub is_expired : ℕ → SessionWindows → Session → Bool
is_expired now w row =
    ltb (row.last_seen + w.idle_hours * hour_ms) now
    || ltb (row.created_at + absolute_hours w row * hour_ms) now

-- The rows that go, each with the clients to be told of the logout.
pub clean_expired_sessions :
    ℕ → SessionWindows → SessionState → SessionState × List (ℕ × String × List String)
clean_expired_sessions now w s = (
  record s { rows = filter (λ row. not (is_expired now w row)) s.rows },
  map (λ row. (row.user_sub, row.sid, row.clients)) (filter (is_expired now w) s.rows),
)

-- The UPDATE of an activity report: `GREATEST(last_seen, LEAST(reported, now()))`.
abbrev pub is_reported :
    ℕ → SessionWindows → (ℕ → Option Identity) → String → String → Session → Bool
is_reported now w identities client sid row =
    row.sid == sid && contains row.clients client && is_live now w identities row

pub report_activity :
    ℕ
    → SessionWindows
    → (ℕ → Option Identity)
    → String
    → String
    → ℕ
    → SessionState
    → SessionState × Bool
report_activity now w identities client sid reported s =
    let mine = is_reported now w identities client sid in
    (
      record s {
        rows =
            update_rows mine
              (λ row. record row { last_seen = max row.last_seen (min reported now) }) s.rows;
      },
      any mine s.rows,
    )
