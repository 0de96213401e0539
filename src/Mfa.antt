-- ===== src/Mfa.antt =====
-- Authenticators and the single use of their time steps, src/mfa.ts. The table totp_credentials is a
-- list in the order of creation; the last accepted step of a credential is in Redis (totp:step:<id>).
-- Instants are milliseconds. `verify` stands for otplib's verifySync: the time step of a code that is
-- valid for a secret at an instant; `unseal` for openSecret, which throws on what it cannot open.
pub mod Steps
mod Tests
use dreamsso.Common.{
  ℕ, ◌+◌, ◌*◌, ◌<◌, String, Bool, true, false, not, ◌&&◌, ◌||◌, Option, none, some, List, [], ◌∷◌,
  ◌++◌, ◌==◌, map, filter, find?, any, all, length, ltb, leb, is_some, get_or, if◌then◌else◌,
  string_eq, nat_eq,
}
use dreamsso.Common.Text.{codes, is_digit}
use dreamsso.Redis.{Redis}

abbrev pub totp_step_ttl : ℕ
totp_step_ttl = 300

abbrev pub max_authenticators : ℕ
max_authenticators = 5

abbrev pub setup_ttl_ms : ℕ
setup_ttl_ms = 900000

-- A row of totp_credentials.
pub record Credential : Type 0 where
  pub id : String
  pub user_sub : String
  pub secret_enc : ℕ
  pub label : Option String
  pub created_at : ℕ
  pub confirmed_at : Option ℕ
  pub last_used_at : Option ℕ

pub data ConfirmResult : Type 0 where
  confirmed not_found decrypt_failed invalid_code : ConfirmResult

abbrev pub is_confirmed : String → Credential → Bool
is_confirmed sub row = row.user_sub == sub && is_some row.confirmed_at

abbrev pub is_pending : String → Credential → Bool
is_pending sub row = row.user_sub == sub && not (is_some row.confirmed_at)

abbrev pub update_credentials :
    (Credential → Bool) → (Credential → Credential) → List Credential → List Credential
update_credentials holds f rows = map (λ row. if holds row then f row else row) rows

unfoldable pub list_authenticators : String → List Credential → List Credential
list_authenticators sub rows = filter (is_confirmed sub) rows

unfoldable pub count_authenticators : String → List Credential → ℕ
count_authenticators sub rows = length (filter (is_confirmed sub) rows)

-- None when the maximum is reached; `id` is the one the table makes, `sealed` the sealed new secret.
unfoldable pub start_authenticator_setup :
    ℕ → String → String → ℕ → Option String → List Credential → Option (List Credential)
start_authenticator_setup now sub id sealed label rows =
    if leb max_authenticators (count_authenticators sub rows)
    then none
    else some (
        filter (λ row. not (is_pending sub row)) rows
        ++ (record {
          id = id;
          user_sub = sub;
          secret_enc = sealed;
          label = label;
          created_at = now;
          confirmed_at = none;
          last_used_at = none;
        }
            ∷ []))

unfoldable pub rename_authenticator :
    String → String → String → List Credential → List Credential × Bool
rename_authenticator sub id label rows =
    let mine : Credential → Bool = λ row. row.id == id && is_confirmed sub row in
    (update_credentials mine (λ row. record row { label = some label }) rows, any mine rows)

unfoldable pub remove_authenticator : String → String → List Credential → List Credential × Bool
remove_authenticator sub id rows =
    let mine : Credential → Bool = λ row. row.id == id && row.user_sub == sub in
    (filter (λ row. not (mine row)) rows, any mine rows)

-- `tonumber(GET) or 0`.
abbrev pub last_step : Option ℕ → ℕ
last_step none = 0
last_step (some n) = n

-- `COALESCE($3, label)`.
abbrev pub coalesce : Option String → Option String → Option String
coalesce none old = old
coalesce (some new) old = some new

-- `/^\d{6}$/`.
abbrev pub is_six_digits : String → Bool
is_six_digits code = all is_digit (codes code) && length (codes code) == 6

module _ (steps : Redis ℕ) where
  unfoldable pub claim_totp_step : ℕ → String → ℕ → steps.Db → steps.Db × Bool
  claim_totp_step now id step db =
      if ltb (last_step (steps.get db now id)) step
      then (steps.set_ex db now id step totp_step_ttl, true)
      else (db, false)

  module _ (verify : String → String → ℕ → Option ℕ) (unseal : ℕ → Option String) where
    abbrev pub valid_step : ℕ → String → Credential → Option ℕ
    valid_step now code row = elim (unseal row.secret_enc) [
      | none ↦ none
      | some secret ↦ verify secret code now
    ]

    -- The first authenticator whose valid step is new; its id.
    pub try_each : ℕ → String → List Credential → steps.Db → steps.Db × Option String
    try_each now code [] db = (db, none)
    try_each now code (row ∷ rows) db =
        let next = try_each now code rows db in
        elim (valid_step now code row) [
          | none ↦ next
          | some step ↦
              let claim = claim_totp_step now row.id step db in
              if claim.1 then (claim.0, some row.id) else next
        ]

    pub verify_login_totp :
        ℕ → String → String → List Credential → steps.Db → (List Credential × steps.Db) × Bool
    verify_login_totp now sub code rows db =
        let tried = try_each now code (filter (is_confirmed sub) rows) db in
        if is_six_digits code
        then (elim tried.1 [
          | none ↦ ((rows, tried.0), false)
          | some id ↦ (
            (
              update_credentials (λ row. row.id == id)
                  (λ row. record row { last_used_at = some now }) rows,
              tried.0,
            ),
            true,
          )
        ])
        else ((rows, db), false)

    abbrev pub awaits_confirmation : ℕ → String → String → Credential → Bool
    awaits_confirmation now sub id row =
        row.id == id && is_pending sub row && ltb now (row.created_at + setup_ttl_ms)

    abbrev pub confirmed_with :
        ℕ
        → String
        → String
        → Option String
        → List Credential
        → steps.Db
        → Option ℕ
        → (List Credential × steps.Db) × ConfirmResult
    confirmed_with now sub id label rows db none = ((rows, db), invalid_code)
    confirmed_with now sub id label rows db (some step) = (
      (
        update_credentials (λ row. row.id == id && row.user_sub == sub)
            (λ row. record row { confirmed_at = some now; label = coalesce label row.label }) rows,
        (claim_totp_step now id step db).0,
      ),
      confirmed,
    )

    pub confirm_authenticator :
        ℕ
        → String
        → String
        → String
        → Option String
        → List Credential
        → steps.Db
        → (List Credential × steps.Db) × ConfirmResult
    confirm_authenticator now sub id code label rows db =
        elim (find? (awaits_confirmation now sub id) rows) [
          | none ↦ ((rows, db), not_found)
          | some row ↦ elim (unseal row.secret_enc) [
            | none ↦ ((rows, db), decrypt_failed)
            | some secret ↦ confirmed_with now sub id label rows db (verify secret code now)
          ]
        ]
