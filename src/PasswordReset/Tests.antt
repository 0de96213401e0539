-- ===== src/PasswordReset/Tests.antt =====
-- Reset links and tickets on empty tables.
use dreamsso.Common.{
  ℕ, String, true, false, Option, none, some, List, [], ◌∷◌, ◌≡◌, refl, arith, is_some, string_eq,
}
use dreamsso.Common.Text.{utf16_length}
use dreamsso.Redis.Table.{table}
use dreamsso.PasswordReset.{
  ResetToken, FoundToken, LoginTicket, ResetState, issue_reset_token, get_reset_token,
  consume_reset_token, bump_reset_attempts, mint_login_ticket, redeem_login_ticket, wrong_length,
}
use dreamsso.PasswordReset.Tokens.{bump_reset_attempts-revives}
use dreamsso.PasswordReset.Attempts.{fail_each, fail_each-burns}

abbrev Tables : Type 0
Tables = ResetState (table ResetToken) (table String) (table LoginTicket)

abbrev hash : String → String
hash s = s

abbrev no_tokens : Tables
no_tokens = record {
  token_db = λ key. none;
  user_db = λ key. none;
  passkey_db = λ key. none;
  ticket_db = λ key. none;
}

abbrev first_token : String
first_token = "aaaaaaaaaaaaaaaaaaaaaaaa"

first_fits : wrong_length first_token ≡ false
unfolding utf16_length
first_fits = refl

abbrev second_token : String
second_token = "bbbbbbbbbbbbbbbbbbbbbbbb"

abbrev issue : ℕ → String → Tables → Tables
issue = λ now minted s.
    issue_reset_token (table ResetToken) (table String) (table LoginTicket) hash now "u1" minted s

abbrev look : ℕ → String → Tables → Option FoundToken
look = λ now token s.
    get_reset_token (table ResetToken) (table String) (table LoginTicket) hash now token s

abbrev consume : FoundToken → Tables → Tables
consume =
    λ rec s. consume_reset_token (table ResetToken) (table String) (table LoginTicket) hash rec s

abbrev issued : Tables
issued = issue 1000 first_token no_tokens

abbrev found_token : FoundToken
found_token = record { sub = "u1"; attempts = 0; hash = first_token }

found_issued : look 2000 first_token issued ≡ some found_token
unfolding get_reset_token issue_reset_token utf16_length
found_issued = refl

pointed_issued : (table String).get issued.user_db 5000 "u1" ≡ some (hash first_token)
unfolding issue_reset_token
pointed_issued = refl

bump_reset_attempts-revives_example :
    is_some (
      look 9000000 first_token
        (bump_reset_attempts
          (table ResetToken)
          (table String)
          (table LoginTicket)
          hash
          4000
          found_token
          (consume found_token issued)).0)
    ≡ true
bump_reset_attempts-revives_example =
    bump_reset_attempts-revives (table ResetToken) (table String) (table LoginTicket) hash 2000 4000
      9000000 first_token found_token issued first_fits found_issued (omega arith) (omega arith)

abbrev a_ticket : LoginTicket
a_ticket = record { sub = "u1"; amr = "pwd" ∷ "otp" ∷ []; acr = "mfa"; user_label = "U" }

abbrev minted : Tables
minted =
    mint_login_ticket (table ResetToken) (table String) (table LoginTicket) hash 1000 first_token
      a_ticket no_tokens

abbrev redeem : ℕ → Tables → Tables × Option LoginTicket
redeem = λ now s.
    redeem_login_ticket (table ResetToken) (table String) (table LoginTicket) hash now first_token s

abbrev five_times : List (ℕ × ℕ)
five_times = (1000, 1100) ∷ (2000, 2100) ∷ (3000, 3100) ∷ (4000, 4100) ∷ (5000, 5100) ∷ []

fail_each-burns_example :
    look 6000 first_token (
      fail_each
        (table ResetToken)
        (table String)
        (table LoginTicket)
        hash
        first_token
        five_times
        issued)
    ≡ none
fail_each-burns_example =
    fail_each-burns (table ResetToken) (table String) (table LoginTicket) hash first_token 1000 "u1"
      five_times no_tokens 6000 first_fits
      (
        omega arith,
        omega arith,
        (
          omega arith,
          omega arith,
          (omega arith, omega arith, (omega arith, omega arith, (omega arith, omega arith, tt))),
        ),
      )
      refl (omega arith)
