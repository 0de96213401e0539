-- ===== src/Login/Tests.antt =====
-- A code on an empty table.
use dreamsso.Common.{none, some, [], ◌∷◌, ◌≡◌, arith}
use dreamsso.Redis.Table.{Entries, table}
use dreamsso.Login.{AuthCode, create_code, consume_code, consume_overlapping}
use dreamsso.Login.Codes.{consume-create_code}

abbrev no_codes : Entries AuthCode
no_codes key = none

abbrev grant : AuthCode
grant = record {
  client_id = "app";
  redirect_uri = "https://app/cb";
  user_sub = "u1";
  sid = "s1";
  code_challenge = "c";
  code_challenge_method = "S256";
  nonce = none;
  scope = "openid";
  amr = "pwd" ∷ [];
  acr = none;
  auth_time = 1;
}

abbrev with_code : Entries AuthCode
with_code = create_code (table AuthCode) 1000 "k" grant no_codes

consume-create_code_example :
    ((consume_code (table AuthCode) 2000 "k" with_code).1 ≡ some grant)
    × ((consume_code
          (table AuthCode)
          3000
          "k"
          (consume_code (table AuthCode) 2000 "k" with_code).0).1
        ≡ none)
    × ((consume_overlapping (table AuthCode) 2000 3000 "k" with_code).1 ≡ some grant)
    × ((consume_overlapping (table AuthCode) 2000 3000 "k" with_code).2 ≡ some grant)
consume-create_code_example =
    consume-create_code (table AuthCode) 1000 "k" grant no_codes 2000 3000 (omega arith)
      (omega arith) (omega arith)
