-- ===== src/Token/Tests.antt =====
-- One exchange over the store of Store.Sample.
use dreamsso.Common.{ℕ, String, some, none, [], ◌∷◌, ◌≡◌, refl, arith}
use dreamsso.Common.Int.{pos}
use dreamsso.Common.Result.{ok, err}
use dreamsso.Redis.Table.{Entries, table}
use dreamsso.Store.Sample.{sample}
use dreamsso.Login.{AuthCode, create_code, consume_code, read_code}
use dreamsso.Sessions.Windows.{SessionWindows}
use dreamsso.Sessions.{SessionState}
use dreamsso.Access.{access_row, access_state, read_access_state_snapshot, snapshot_of}
use dreamsso.Token.{TokenClaims, refuse, checked_code, token_claims, token_exchange}
use dreamsso.Token.Replay.{token_exchange_once}
use dreamsso.Token.Exchange.{Entitled, token_exchange-Entitled}

abbrev no_codes : Entries AuthCode
no_codes key = none

-- The hash of the test is the text itself; every subject is the administrator.
abbrev hash : String → String
hash text = text

abbrev sub_number : String → ℕ
sub_number sub = 2

abbrev code_grant : AuthCode
code_grant = record {
  client_id = "videosite";
  redirect_uri = "https://v/cb";
  user_sub = "u2";
  sid = "s1";
  code_challenge = "proof";
  code_challenge_method = "S256";
  nonce = none;
  scope = "openid";
  amr = "pwd" ∷ [];
  acr = none;
  auth_time = 1;
}

abbrev issued : Entries AuthCode
issued = create_code (table AuthCode) 1000 "k" code_grant no_codes

abbrev hours : SessionWindows
hours = record { idle_hours = 72; max_hours = 168; transient_max_hours = 24 }

abbrev no_rows : SessionState
no_rows = record { rows = []; touched = [] }

abbrev granted : TokenClaims
granted = record {
  sub = "u2";
  client_id = "videosite";
  nonce = none;
  acr = none;
  amr = "pwd" ∷ [];
  auth_time = 1;
  sid = "s1";
  scope = "openid";
  session = none;
  role = some (record { app_role = some (pos 1); app_role_epoch = 5; app_role_revision = 3 });
}

exchange_runs :
    (token_exchange hash sub_number
      (table AuthCode)
      2000
      sample
      hours
      "videosite"
      "https://v/cb"
      "k"
      "proof"
      issued
      no_rows).1
    ≡ ok granted
unfolding token_exchange token_claims checked_code consume_code read_code create_code
    read_access_state_snapshot snapshot_of access_row access_state
exchange_runs = refl

token_exchange-Entitled_example :
    Entitled hash sub_number sample "videosite" "https://v/cb" "proof"
      (consume_code (table AuthCode) 2000 "k" issued).1
      granted
token_exchange-Entitled_example =
    token_exchange-Entitled hash sub_number (table AuthCode) 2000 sample hours "videosite"
      "https://v/cb" "k" "proof" issued no_rows granted exchange_runs

token_exchange_once_example :
    ((token_exchange hash sub_number
        (table AuthCode)
        3000
        sample
        hours
        "videosite"
        "https://v/cb"
        "k"
        "proof"
        (token_exchange hash sub_number
          (table AuthCode)
          2000
          sample
          hours
          "other"
          "https://v/cb"
          "k"
          "proof"
          issued
          no_rows).0.0
        no_rows).1
      ≡ err (refuse 400 "invalid_grant"))
    × ((token_exchange hash sub_number
          (table AuthCode)
          3000
          sample
          hours
          "videosite"
          "https://v/cb"
          "k"
          "proof"
          (token_exchange hash sub_number
            (table AuthCode)
            2000
            sample
            hours
            "other"
            "https://v/cb"
            "k"
            "proof"
            issued
            no_rows).0.0
          no_rows).0.1
        ≡ no_rows)
token_exchange_once_example =
    token_exchange_once hash sub_number (table AuthCode) 2000 3000 sample sample hours hours "other"
      "videosite" "https://v/cb" "https://v/cb" "k" "proof" "proof" issued no_rows no_rows
      (omega arith)
