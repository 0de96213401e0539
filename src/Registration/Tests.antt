-- ===== src/Registration/Tests.antt =====
-- A registration by invitation on empty tables.
use dreamsso.Common.{
  ℕ, String, Bool, true, false, none, some, List, [], ◌∷◌, ◌≡◌, refl, arith, is_some, ◌==◌,
  string_eq, if◌then◌else◌,
}
use dreamsso.Common.Text.{utf16_length}
use dreamsso.Redis.Table.{table}
use dreamsso.Registration.{
  PendingRegistration, RegistrationState, Invite, LiveInvite, get_pending, issue_pending,
  validate_pending, new_pending, get_live_invite, claim_invite_use, consume_invite, void_invite,
  sweep_invitations, refused_length,
}
use dreamsso.Registration.Pending.{validate-issue_pending}
use dreamsso.Registration.Invites.{done, then_step, taken, swept}
use dreamsso.Registration.Codes.{UsedBy, consume_invite-permanent}

abbrev Tables : Type 0
Tables = RegistrationState (table PendingRegistration)

abbrev same_text : String → String
same_text s = s

abbrev the_code : String
the_code = "ABCDEFGHIJ12"

abbrev open_invite : Invite
open_invite = record {
  invited_role_slug = none;
  use_count = 0;
  pending_email = none;
  pending_at = none;
  used_by = none;
  used_at = none;
  voided_at = none;
  expires_at = 90000000;
  clear_at = some 180000000;
}

abbrev start : Tables
start = record {
  pending_db = λ key. none;
  invites = λ code. if code == the_code then some open_invite else none;
}

abbrev the_token : String
the_token = "aaaaaaaaaaaaaaaaaaaaaaaaaaaaaaaaaaaaaaaa"

abbrev issued : Tables × String × Bool
issued =
    issue_pending (table PendingRegistration) same_text same_text 1000 "a@b" (some the_code)
      the_token start

abbrev rec_1 : PendingRegistration
rec_1 = record { token = the_token; code = some the_code; created_at = 1; last_sent = 1 }

abbrev pending : Tables
pending =
    new_pending (table PendingRegistration) same_text same_text 1000 "a@b" (some the_code) the_token
      start

issued_fits : refused_length issued.1 ≡ false
unfolding issue_pending get_pending utf16_length
issued_fits = refl

issued_alive :
    is_some (get_pending (table PendingRegistration) same_text same_text 2000 "a@b" issued.0) ≡ true
unfolding issue_pending get_pending new_pending
issued_alive = refl

validate-issue_pending_example :
    (rec : PendingRegistration) × (validate_pending
        (table PendingRegistration)
        same_text
        same_text
        2000
        "a@b"
        issued.1
        issued.0
      ≡ some rec)
    × (rec.token ≡ issued.1)
    × (rec.code ≡ some the_code)
validate-issue_pending_example =
    validate-issue_pending (table PendingRegistration) same_text same_text 1000 "a@b"
      (some the_code) the_token start 2000 issued_fits (omega arith) issued_alive

abbrev again : Tables × String × Bool
again =
    issue_pending (table PendingRegistration) same_text same_text 5000 "a@b" (some the_code)
      "unused" pending

sent_again_true : again.2 ≡ true
unfolding issue_pending get_pending new_pending
sent_again_true = refl

opens :
    validate_pending (table PendingRegistration) same_text same_text 2000 "a@b" the_token pending
    ≡ some rec_1
unfolding validate_pending get_pending new_pending utf16_length
opens = refl

abbrev the_invite : LiveInvite
the_invite = record {
  code = the_code;
  invited_role_slug = none;
  use_count = 0;
  pending_email = none;
}

live :
    get_live_invite (table PendingRegistration) same_text same_text 1000 the_code start
    ≡ some the_invite
unfolding get_live_invite
live = refl

abbrev claimed_state : Tables
claimed_state =
    (claim_invite_use (table PendingRegistration) same_text same_text 1000 the_invite "a@b" start).0

abbrev consumed_state : Tables
consumed_state =
    (consume_invite (table PendingRegistration) same_text same_text 2000 the_code "u1"
      claimed_state).0

-- A claim that was read before the code was consumed, and the sweep.
abbrev late_state : Tables
late_state =
    (claim_invite_use (table PendingRegistration) same_text same_text 3000 the_invite "a@b"
      consumed_state).0

abbrev swept_late : Tables
swept_late = sweep_invitations (table PendingRegistration) same_text same_text 400000000 late_state

consumed_true :
    (consume_invite
      (table PendingRegistration)
      same_text
      same_text
      2000
      the_code
      "u1"
      claimed_state).1
    ≡ true
unfolding consume_invite claim_invite_use
consumed_true = refl

consume_invite-permanent_example :
    UsedBy "u1" (swept_late.invites the_code)
    × ((consume_invite
          (table PendingRegistration)
          same_text
          same_text
          500000000
          the_code
          "u2"
          swept_late).1
        ≡ false)
consume_invite-permanent_example =
    consume_invite-permanent (table PendingRegistration) same_text same_text 2000 500000000 the_code
      "u1" "u2" claimed_state swept_late consumed_true
      (then_step consumed_state late_state swept_late (taken 3000 "a@b" the_invite consumed_state)
        (then_step late_state swept_late swept_late (swept 400000000 late_state) (done swept_late)))

abbrev voided_state : Tables
voided_state = void_invite (table PendingRegistration) same_text same_text 1000 the_code none start

abbrev some_bytes : List ℕ
some_bytes = 0 ∷ 35 ∷ 36 ∷ 255 ∷ 100 ∷ 7 ∷ 8 ∷ 9 ∷ 10 ∷ 11 ∷ 12 ∷ 13 ∷ []
