-- ===== src/PasswordReset.antt =====
-- Password reset links, src/passwordReset.ts, but for the send limiter: the live tokens by their hash
-- (pwreset:tok), the hash of a user's token (pwreset:user), the passkey challenges (pwreset:pk) and the
-- login tickets (pwreset:ticket). Instants are milliseconds; `minted` stands for the random token and
-- `sha256` for the hash. A record is written and read as a value.
pub mod Tokens
pub mod Attempts
mod Tests
use dreamsso.Common.{
  ℕ, suc, ◌+◌, ◌-◌, String, Bool, ◌||◌, Option, none, some, List, [], ◌∷◌, ◌==◌, leb, ltb,
  if◌then◌else◌, string_eq,
}
use dreamsso.Common.Text.{utf16_length}
use dreamsso.Redis.{Redis}

abbrev pub reset_ttl_seconds : ℕ
reset_ttl_seconds = 1800

abbrev pub ticket_ttl_seconds : ℕ
ticket_ttl_seconds = 60

abbrev pub passkey_ttl_seconds : ℕ
passkey_ttl_seconds = 300

abbrev pub max_challenge_attempts : ℕ
max_challenge_attempts = 5

pub record ResetToken : Type 0 where
  pub sub : String
  pub attempts : ℕ

-- What getResetToken returns: the record with its hash.
pub record FoundToken : Type 0 where
  pub sub : String
  pub attempts : ℕ
  pub hash : String

pub record LoginTicket : Type 0 where
  pub sub : String
  pub amr : List String
  pub acr : String
  pub user_label : String

pub record ResetState (records : Redis ResetToken) (texts : Redis String)
    (tickets : Redis LoginTicket) : Type 0 where
  pub token_db : records.Db
  pub user_db : texts.Db
  pub passkey_db : texts.Db
  pub ticket_db : tickets.Db

-- `token.length < 20 || token.length > 100`.
abbrev pub wrong_length : String → Bool
wrong_length token = ltb (utf16_length token) 20 || ltb 100 (utf16_length token)

module _ (records : Redis ResetToken) (texts : Redis String) (tickets : Redis LoginTicket)
    (sha256 : String → String) where
  abbrev State : Type 0
  State = ResetState records texts tickets

  -- The previous link, and its half-done ceremony, go; an empty pointer counts as none.
  abbrev pub drop_previous : ℕ → String → State → State
  drop_previous now sub s = elim (texts.get s.user_db now sub) [
    | none ↦ s
    | some prev ↦ if prev == "" then s else record s {
      token_db = records.del s.token_db prev;
      passkey_db = texts.del s.passkey_db prev;
    }
  ]

  abbrev pub keep_new : ℕ → String → String → State → State
  keep_new now sub hash s = record s {
    token_db =
        records.set_ex s.token_db now hash (record { sub = sub; attempts = 0 }) reset_ttl_seconds;
    user_db = texts.set_ex s.user_db now sub hash reset_ttl_seconds;
  }

  unfoldable pub issue_reset_token : ℕ → String → String → State → State
  issue_reset_token now sub minted s = keep_new now sub (sha256 minted) (drop_previous now sub s)

  unfoldable pub get_reset_token : ℕ → String → State → Option FoundToken
  get_reset_token now token s =
      if wrong_length token then none else (elim (records.get s.token_db now (sha256 token)) [
        | none ↦ none
        | some rec ↦ some (record { sub = rec.sub; attempts = rec.attempts; hash = sha256 token })
      ])

  unfoldable pub consume_reset_token : FoundToken → State → State
  consume_reset_token rec s = record s {
    token_db = records.del s.token_db rec.hash;
    passkey_db = texts.del s.passkey_db rec.hash;
    user_db = texts.del s.user_db rec.sub;
  }

  unfoldable pub bump_reset_attempts : ℕ → FoundToken → State → State × ℕ
  bump_reset_attempts now rec s =
      if leb max_challenge_attempts (rec.attempts + 1) then (consume_reset_token rec s, 0) else (
        record s {
          token_db =
              records.set_keep s.token_db now rec.hash
                (record { sub = rec.sub; attempts = rec.attempts + 1 });
        },
        max_challenge_attempts - (rec.attempts + 1),
      )

  pub store_reset_passkey_challenge : ℕ → String → String → State → State
  store_reset_passkey_challenge now hash challenge s = record s {
    passkey_db = texts.set_ex s.passkey_db now hash challenge passkey_ttl_seconds;
  }

  pub take_reset_passkey_challenge : ℕ → String → State → State × Option String
  take_reset_passkey_challenge now hash s =
      (record s { passkey_db = texts.del s.passkey_db hash }, texts.get s.passkey_db now hash)

  pub mint_login_ticket : ℕ → String → LoginTicket → State → State
  mint_login_ticket now minted t s = record s {
    ticket_db = tickets.set_ex s.ticket_db now (sha256 minted) t ticket_ttl_seconds;
  }

  -- `GETDEL`.
  pub redeem_login_ticket : ℕ → String → State → State × Option LoginTicket
  redeem_login_ticket now ticket s = if wrong_length ticket then (s, none) else (
    record s { ticket_db = tickets.del s.ticket_db (sha256 ticket) },
    tickets.get s.ticket_db now (sha256 ticket),
  )
