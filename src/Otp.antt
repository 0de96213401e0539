-- ===== src/Otp.antt =====
-- Emailed one-time codes, src/emailOtp.ts, for one subject and purpose. Instants are milliseconds,
-- those of one read `now`; `seal` and `reveal` stand for `sealSecret` and `openSecret`, which throws
-- on what it cannot open, and `minted` for `genCode()`.
pub mod Codes
mod Tests
use dreamsso.Common.{
  ℕ, ◌+◌, ◌-◌, ◌/◌, String, Bool, true, false, not, ◌&&◌, ◌||◌, Option, none, some, ◌==◌, length,
  all, ltb, leb, if◌then◌else◌, nat_eq, string_eq, option_eq,
}
use dreamsso.Common.Text.{codes, is_digit}

abbrev pub otp_ttl : ℕ
otp_ttl = 300000

abbrev pub max_attempts : ℕ
max_attempts = 5

abbrev pub cooldown_seconds : ℕ
cooldown_seconds = 60

abbrev pub daily_cap : ℕ
daily_cap = 20

abbrev pub day : ℕ
day = 86400000

-- A row of email_otps.
pub record Otp : Type 0 where
  pub code_enc : ℕ
  pub generated_at : ℕ
  pub sent_at : ℕ
  pub attempts : ℕ

-- A row of email_otp_limits.
pub record OtpLimit : Type 0 where
  pub first_sent : ℕ
  pub last_sent : ℕ
  pub total_sent : ℕ

pub record OtpState : Type 0 where
  pub otp : Option Otp
  pub limit : Option OtpLimit

pub data IssueResult : Type 0 where
  issued : (code : String) → IssueResult
  cooldown : (retry_after : ℕ) → IssueResult
  daily_limit : (retry_after : ℕ) → IssueResult

pub data VerifyResult : Type 0 where
  valid : VerifyResult
  invalid : (must_resend : Bool) → VerifyResult

-- `GREATEST(0, EXTRACT(EPOCH FROM ...))::int` rounds to whole seconds.
abbrev seconds : ℕ → ℕ
seconds ms = (ms + 500) / 1000

-- `first_sent < now() - interval '24 hours'`.
abbrev pub window_lapsed : ℕ → OtpLimit → Bool
window_lapsed now lim = ltb (lim.first_sent + day) now

abbrev pub refusal : ℕ → Option OtpLimit → Option IssueResult
refusal now none = none
refusal now (some lim) =
    let since_last = seconds (now - lim.last_sent) in
    if window_lapsed now lim
    then none
    else if leb daily_cap lim.total_sent
    then some (daily_limit (seconds (lim.first_sent + day - now)))
    else if ltb since_last cooldown_seconds
    then some (cooldown (cooldown_seconds - since_last))
    else none

abbrev pub counted : ℕ → Option OtpLimit → OtpLimit
counted now none = record { first_sent = now; last_sent = now; total_sent = 1 }
counted now (some lim) =
    if window_lapsed now lim
    then record { first_sent = now; last_sent = now; total_sent = 1 }
    else record { first_sent = lim.first_sent; last_sent = now; total_sent = lim.total_sent + 1 }

module _ (seal : String → ℕ) (reveal : ℕ → Option String) where
  -- The live code, when it is fresh, has attempts left and can be opened (`if (code)`: not empty).
  pub reusable : ℕ → Option Otp → Option String
  reusable now none = none
  reusable now (some row) =
      if ltb now (row.generated_at + otp_ttl) && ltb row.attempts max_attempts
      then elim (reveal row.code_enc) [ none ↦ none | some c ↦ if c == "" then none else some c ]
      else none

  abbrev resent : ℕ → Option Otp → Option Otp
  resent now none = none
  resent now (some row) = some (record row { sent_at = now })

  pub send_code : ℕ → String → OtpState → OtpState × IssueResult
  send_code now minted s = elim (reusable now s.otp) [
    | some code ↦
        (record { otp = resent now s.otp; limit = some (counted now s.limit) }, issued code)
    | none ↦ (
      record {
        otp =
            some
              (record { code_enc = seal minted; generated_at = now; sent_at = now; attempts = 0 });
        limit = some (counted now s.limit);
      },
      issued minted,
    )
  ]

  pub issue_email_otp : ℕ → String → OtpState → OtpState × IssueResult
  issue_email_otp now minted s = elim (refusal now s.limit) [
    | some refused ↦ (s, refused)
    | none ↦ send_code now minted s
  ]

module _ (reveal : ℕ → Option String) where
  -- `/^\d{6}$/`, then the comparison of the texts; a stored code has six digits, so
  -- that `timingSafeEqual` gets texts of one length.
  pub is_match : Otp → String → Bool
  is_match row code =
      all is_digit (codes code) && length (codes code) == 6 && reveal row.code_enc == some code

  -- The SELECT of the row, with `live`.
  unfoldable pub select_otp : ℕ → OtpState → Option (Otp × Bool)
  select_otp now s = elim s.otp [
    | none ↦ none
    | some row ↦ some (row, ltb now (row.sent_at + otp_ttl))
  ]

  -- `UPDATE email_otps SET attempts = $3`, on the row there is by then.
  unfoldable pub count_attempts : ℕ → OtpState → OtpState
  count_attempts attempts s = elim s.otp [
    | none ↦ s
    | some row ↦ record s { otp = some (record row { attempts = attempts }) }
  ]

  -- The answer to what was read, with its DELETE or UPDATE.
  unfoldable pub settle_otp : String → Option (Otp × Bool) → OtpState → OtpState × VerifyResult
  settle_otp code none s = (s, invalid true)
  settle_otp code (some (row, live)) s =
      if not live || leb max_attempts row.attempts
      then (s, invalid true)
      else if is_match row code
      then (record s { otp = none }, valid)
      else (count_attempts (row.attempts + 1) s, invalid (leb max_attempts (row.attempts + 1)))

  unfoldable pub verify_email_otp : ℕ → String → OtpState → OtpState × VerifyResult
  verify_email_otp now code s = settle_otp code (select_otp now s) s

  -- Two calls that overlap: both read, then both write.
  unfoldable pub verify_overlapping :
      ℕ → ℕ → String → OtpState → OtpState × VerifyResult × VerifyResult
  verify_overlapping now later code s =
      let first = settle_otp code (select_otp now s) s in
      let second = settle_otp code (select_otp later s) first.0 in (second.0, first.1, second.1)
