-- ===== src/EmailChange/Tests.antt =====
-- A user who changes an address on empty tables.
use dreamsso.Common.{ℕ, String, Bool, false, Option, none, some, ◌≡◌, refl, arith, string_eq}
use dreamsso.Common.Text.{utf16_length}
use dreamsso.Redis.Table.{table}
use dreamsso.EmailChange.{
  EmailChange, Kind, change, Links, bad_length, get_email_change, new_link, issue_email_change,
  redeem_email_change, cancel_email_change,
}
use dreamsso.EmailChange.OneLink.{started_link, redeem-issue_email_change}

abbrev Tables : Type 0
Tables = Links (table EmailChange) (table String)

abbrev hash : String → String
hash s = s

abbrev no_links : Tables
no_links = record { tokens = λ key. none; users = λ key. none; addresses = λ key. none }

abbrev first_token : String
first_token = "aaaaaaaaaaaaaaaaaaaaaaaa"

first_fits : bad_length first_token ≡ false
unfolding utf16_length
first_fits = refl

abbrev second_token : String
second_token = "bbbbbbbbbbbbbbbbbbbbbbbb"

abbrev issue : ℕ → Kind → String → String → Tables → Tables × String × Bool
issue = λ now kind email minted s.
    issue_email_change (table EmailChange) (table String) hash hash now "u1" kind email minted s

abbrev redeem : ℕ → String → Tables → Tables × Option EmailChange
redeem = λ now token s. redeem_email_change (table EmailChange) (table String) hash hash now token s

new_issue : (issue 1000 change "new@b" first_token no_links).2 ≡ false
unfolding issue_email_change get_email_change
new_issue = refl

redeem-issue_email_change_example :
    ((redeem 2000 first_token (issue 1000 change "new@b" first_token no_links).0).1
      ≡ some (started_link 1000 "u1" change "new@b" first_token))
    × ((redeem 3000 first_token
          (redeem 2000 first_token (issue 1000 change "new@b" first_token no_links).0).0).1
        ≡ none)
redeem-issue_email_change_example =
    redeem-issue_email_change (table EmailChange) (table String) hash hash 1000 "u1" change "new@b"
      first_token no_links 2000 3000 new_issue first_fits (omega arith) (omega arith)

abbrev pending : Tables
pending =
    new_link (table EmailChange) (table String) hash hash 1000 "u1" change "new@b" first_token
      no_links

pending_link :
    get_email_change (table EmailChange) (table String) hash hash 5000 "u1" pending
    ≡ some (started_link 1000 "u1" change "new@b" first_token)
unfolding new_link get_email_change
pending_link = refl

another_address : (issue 5000 change "other@b" second_token pending).2 ≡ false
unfolding issue_email_change get_email_change new_link
another_address = refl

abbrev cancelled : Tables
cancelled = (cancel_email_change (table EmailChange) (table String) hash hash 5000 "u1" pending).0
