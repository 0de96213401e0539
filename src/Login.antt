-- ===== src/Login.antt =====
-- Login transactions and authorization codes, src/oidc/transactions.ts and src/oidc/codes.ts, in Redis
-- (txn:<id> and code:<code>). Instants are milliseconds; `id`, `csrf` and `code` stand for random texts.
-- A record is written and read as a value.
pub mod Codes
mod Tests
use dreamsso.Common.{ℕ, String, Bool, Option, none, some, List, ◌==◌, if◌then◌else◌, string_eq}
use dreamsso.Redis.{Redis}

abbrev pub txn_ttl_seconds : ℕ
txn_ttl_seconds = 600

abbrev pub code_ttl_seconds : ℕ
code_ttl_seconds = 60

-- The challenge phase: the password is verified, a second factor is due.
pub record MfaPhase : Type 0 where
  pub sub : String
  pub user_label : String
  pub kmsi_label : Option String
  pub methods : List String
  pub attempts : ℕ
  pub masked_email : Option String
  pub email_sent : Option Bool
  pub passkey_challenge : Option String
  pub stepup_sid : Option String
  pub stepup_return : Option String

-- The phase of "Stay signed in?".
pub record KmsiPhase : Type 0 where
  pub sid : String
  pub sub : String
  pub user_label : String
  pub amr : List String
  pub acr : String
  pub auth_time : ℕ

-- A transaction but for its csrf token.
pub record TxnData : Type 0 where
  pub client_id : String
  pub redirect_uri : String
  pub state : Option String
  pub nonce : Option String
  pub code_challenge : String
  pub code_challenge_method : String
  pub scope : String
  pub acr_values : Option String
  pub client_name : Option String
  pub local_next : Option String
  pub passkey : Option String
  pub mfa : Option MfaPhase
  pub kmsi : Option KmsiPhase

pub record LoginTxn : Type 0 where
  pub data_part : TxnData
  pub csrf : String

pub record AuthCode : Type 0 where
  pub client_id : String
  pub redirect_uri : String
  pub user_sub : String
  pub sid : String
  pub code_challenge : String
  pub code_challenge_method : String
  pub nonce : Option String
  pub scope : String
  pub amr : List String
  pub acr : Option String
  pub auth_time : ℕ

module _ (txns : Redis LoginTxn) where
  unfoldable pub create_txn : ℕ → String → String → TxnData → txns.Db → txns.Db
  create_txn now id csrf fields db =
      txns.set_ex db now id (record { data_part = fields; csrf = csrf }) txn_ttl_seconds

  unfoldable pub get_txn : ℕ → String → txns.Db → Option LoginTxn
  get_txn now id db = if id == "" then none else txns.get db now id

  unfoldable pub update_txn : ℕ → String → LoginTxn → txns.Db → txns.Db
  update_txn now id txn db = txns.set_keep db now id txn

  unfoldable pub consume_txn : String → txns.Db → txns.Db
  consume_txn id db = txns.del db id

module _ (codes : Redis AuthCode) where
  unfoldable pub create_code : ℕ → String → AuthCode → codes.Db → codes.Db
  create_code now code fields db = codes.set_ex db now code fields code_ttl_seconds

  -- The two commands of consumeCode: the read, and the delete of what was read.
  unfoldable pub read_code : ℕ → String → codes.Db → Option AuthCode
  read_code now code db = codes.get db now code

  unfoldable pub delete_code : String → Option AuthCode → codes.Db → codes.Db
  delete_code code none db = db
  delete_code code (some fields) db = codes.del db code

  unfoldable pub consume_code : ℕ → String → codes.Db → codes.Db × Option AuthCode
  consume_code now code db = (delete_code code (read_code now code db) db, read_code now code db)

  -- Two exchanges of a code that overlap: both read, then both delete.
  unfoldable pub consume_overlapping :
      ℕ → ℕ → String → codes.Db → codes.Db × Option AuthCode × Option AuthCode
  consume_overlapping now later code db =
      let first = read_code now code db in
      let second = read_code later code db in
      (delete_code code second (delete_code code first db), first, second)
