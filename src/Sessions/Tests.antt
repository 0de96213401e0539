-- ===== src/Sessions/Tests.antt =====
-- A session of one user.
use dreamsso.Common.{
  ℕ, ◌≤◌, String, Bool, true, false, Option, none, some, List, [], ◌∷◌, ◌≡◌, ◌↔◌, map, ◌⊎◌, refl,
  arith, contains, string_eq,
}
use dreamsso.Store.{Identity, active}
use dreamsso.Sessions.Windows.{SessionWindows}
use dreamsso.Sessions.Stepup.{
  strong_mandatory, stepup_satisfies, accepted_stepup_methods, accepted_strong_stepup,
  method_from_amr, is_strong_amr, accepted_stepup_methods_strong,
}
use dreamsso.Sessions.{
  SessionState, NewSession, active_session, born, load_session, load_session_by_sid, create_session,
  clean_expired_sessions, report_activity,
}
use dreamsso.Token.{note_client}
use dreamsso.Sessions.Live.{load_session-clean_expired_sessions, load_session-create_session}
use dreamsso.Sessions.Activity.{AllReported, AnyReported, report_activity-AllReported}

abbrev windows : SessionWindows
windows = record { idle_hours = 72; max_hours = 168; transient_max_hours = 24 }

abbrev the_identity : Identity
the_identity = record {
  sub = 1;
  username = "u";
  display_name = "U";
  email = none;
  password_hash = "";
  status = active;
  deleted = false;
}

abbrev identities : ℕ → Option Identity
identities sub = some the_identity

abbrev login : NewSession
login = record {
  user_sub = 1;
  amr = "pwd" ∷ [];
  acr = none;
  ip = none;
  user_agent = none;
  country = none;
  city = none;
  region = none;
}

abbrev no_sessions : SessionState
no_sessions = record { rows = []; touched = [] }

abbrev one_session : SessionState
one_session = create_session 1000 windows "s1" "h1" login no_sessions

load_session-create_session_example :
    ((load_session 5000 windows identities "h1" one_session).1
      ≡ some (active_session (born 1000 windows "s1" "h1" login)))
    × ((load_session 90000000 windows identities "h1" one_session).1 ≡ none)
load_session-create_session_example =
    load_session-create_session 1000 windows identities "s1" "h1" login no_sessions 5000 90000000
      (λ u. refl) refl (omega arith) (omega arith) (omega arith)

load_session-clean_expired_sessions_example :
    ((load_session 5000 windows identities "h1"
        (clean_expired_sessions 5000 windows one_session).0).1
      ≡ (load_session 5000 windows identities "h1" one_session).1)
    × ((load_session_by_sid 5000 windows identities "s1"
          (clean_expired_sessions 5000 windows one_session).0).1
        ≡ (load_session_by_sid 5000 windows identities "s1" one_session).1)
load_session-clean_expired_sessions_example =
    load_session-clean_expired_sessions 5000 windows identities "h1" "s1" one_session

-- The session after a code was redeemed for the client.
abbrev used_session : SessionState
used_session = note_client "app" "s1" one_session

report_activity-AllReported_example :
    AllReported 5000 windows identities "app" "s1" 4000 used_session.rows
      (report_activity 5000 windows identities "app" "s1" 4000 used_session).0.rows
    × (((report_activity 5000 windows identities "app" "s1" 4000 used_session).1 ≡ true)
        ↔ AnyReported 5000 windows identities "app" "s1" used_session.rows)
report_activity-AllReported_example =
    report_activity-AllReported 5000 windows identities "app" "s1" 4000 used_session

report_moves :
    (map
        (λ row. row.last_seen)
        (report_activity 5000 windows identities "app" "s1" 4000 used_session).0.rows
      ≡ 4000 ∷ [])
    × ((report_activity 5000 windows identities "app" "s1" 4000 used_session).1 ≡ true)
unfolding report_activity create_session
report_moves = (refl, refl)

abbrev no_settings : String → Option String
no_settings key = none

abbrev mask : String → String
mask email = "***"

abbrev strong_login : List String
strong_login = "pwd" ∷ "otp" ∷ []

satisfied :
    stepup_satisfies
      (accepted_stepup_methods mask strong_mandatory 0 1 none).accepted
      (some (method_from_amr strong_login))
      true
    ≡ true
unfolding stepup_satisfies accepted_stepup_methods accepted_strong_stepup method_from_amr
satisfied = refl

accepted_stepup_methods_strong_example :
    ◌≡◌ {A = Bool} true true
    × (is_strong_amr strong_login ≡ true)
    × ((1 ≤ 0 × (contains strong_login "passkey" ≡ true))
        ⊎ (◌≡◌ {A = ℕ} 0 0 × 1 ≤ 1 × (contains strong_login "otp" ≡ true)))
accepted_stepup_methods_strong_example =
    accepted_stepup_methods_strong mask 0 1 none strong_login true satisfied
