-- ===== src/Otp/Tests.antt =====
-- A code that is sent and then entered.
use dreamsso.Common.{
  ℕ, ◌+◌, ◌<◌, String, true, Option, none, some, ◌≡◌, refl, ◌≤◌, All, length, arith,
}
use dreamsso.Common.Text.{codes}
use dreamsso.Otp.{
  select_otp, settle_otp, verify_overlapping, Otp, OtpState, otp_ttl, max_attempts, valid, invalid,
  verify_email_otp, is_match, issue_email_otp, issued, send_code, reusable,
}
use dreamsso.Otp.Codes.{verify_email_otp_once}

abbrev seal : String → ℕ
seal code = 1

abbrev reveal : ℕ → Option String
reveal n = some "482913"

abbrev fresh : OtpState
fresh = record { otp = none; limit = none }

abbrev sent : OtpState
sent = (issue_email_otp seal reveal 1000 "482913" fresh).0

issue_run : issue_email_otp seal reveal 1000 "482913" fresh ≡ (sent, issued "482913")
unfolding issue_email_otp send_code reusable
issue_run = refl

abbrev waiting : OtpState
waiting = record {
  otp = some (record { code_enc = 1; generated_at = 1000; sent_at = 1000; attempts = 4 });
  limit = none;
}

verify_run : verify_email_otp reveal 200000 "482913" waiting ≡ (fresh, valid)
unfolding verify_email_otp settle_otp select_otp is_match
verify_run = refl

verify_email_otp_once_example :
    (row : Otp) × (waiting.otp ≡ some row)
    × (200000 < row.sent_at + otp_ttl)
    × (row.attempts < max_attempts)
    × (reveal row.code_enc ≡ some "482913")
    × (length (codes "482913") ≡ 6)
    × All (λ c. (b'0' ≤ c) × (c ≤ b'9')) (codes "482913")
    × ((later : ℕ) (other : String)
        → verify_email_otp reveal later other fresh ≡ (fresh, invalid true))
    × ((verify_overlapping reveal 199000 200000 "482913" waiting).1 ≡ valid)
    × ((verify_overlapping reveal 199000 200000 "482913" waiting).2 ≡ valid)
verify_email_otp_once_example =
    verify_email_otp_once reveal 199000 200000 "482913" waiting fresh (omega arith) verify_run
