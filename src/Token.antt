-- ===== src/Token.antt =====
-- The exchange of an authorization code, `POST /token` of src/routes/token.ts, for a client whose
-- assertion was verified: single use of the code, its bindings, PKCE, the session's clients and the
-- access state. `s256` stands for the hash of PKCE, `sub_number` for the number of a subject's uuid.
-- The claims by scope, the site name and the signing of the tokens are left out.
pub mod Exchange
pub mod Replay
mod Tests
use dreamsso.Common.{
  ℕ, ◌+◌, ◌*◌, String, Bool, true, false, not, ◌&&◌, ◌||◌, Option, none, some, List, [], ◌∷◌, ◌++◌,
  ◌==◌, find?, contains, if◌then◌else◌, string_eq, nat_eq,
}
use dreamsso.Common.Int.{ℤ}
use dreamsso.Common.Result.{Result, ok, err, ◌>>=◌, ◌>>◌, fail_if, or_fail}
use dreamsso.Redis.{Redis}
use dreamsso.Store.{Store}
use dreamsso.Login.{AuthCode, consume_code}
use dreamsso.Access.{AccessState, read_access_state_snapshot}
use dreamsso.Sessions.Windows.{SessionWindows}
use dreamsso.Sessions.{Session, SessionState, update_rows, absolute_hours, epoch}

-- `fail(res, status, error)`.
pub record TokenError : Type 0 where
  pub status : ℕ
  pub error : String

-- How durable the session behind the login is.
pub record Durability : Type 0 where
  pub sess_persistent : Bool
  pub sess_exp : ℕ

pub record AppRoleClaim : Type 0 where
  pub app_role : Option ℤ
  pub app_role_epoch : ℕ
  pub app_role_revision : ℕ

pub record TokenClaims : Type 0 where
  pub sub : String
  pub client_id : String
  pub nonce : Option String
  pub acr : Option String
  pub amr : List String
  pub auth_time : ℕ
  pub sid : String
  pub scope : String
  pub session : Option Durability
  pub role : Option AppRoleClaim

abbrev pub refuse : ℕ → String → TokenError
refuse status error = record { status = status; error = error }

-- The session remembers the client, once.
abbrev pub note_client : String → String → SessionState → SessionState
note_client client sid s = record s {
  rows =
      update_rows (λ row. row.sid == sid && not (contains row.clients client))
        (λ row. record row { clients = row.clients ++ client ∷ [] }) s.rows;
}

abbrev pub durability : SessionWindows → String → SessionState → Option Durability
durability w sid s =
    if sid == "" then none else (elim (find? (λ (row : Session). row.sid == sid) s.rows) [
      | none ↦ none
      | some row ↦ some (record {
        sess_persistent = row.persistent;
        sess_exp = epoch row.created_at + absolute_hours w row * 3600;
      })
    ])

-- The one state of the answer, when it lets the subject in.
abbrev pub admitted : List AccessState → Result TokenError AccessState
admitted [] = err (refuse 403 "access_denied")
admitted (state ∷ []) = if state.is_allowed then ok state else err (refuse 403 "access_denied")
admitted (state ∷ other ∷ rest) = err (refuse 403 "access_denied")

abbrev pub role_claim : AccessState → Option (ℕ × ℕ) → Result TokenError (Option AppRoleClaim)
role_claim state none =
    if state.catalog_synced then err (refuse 503 "temporarily_unavailable") else ok none
role_claim state (some (epoch_id, revision)) = ok (
    if state.catalog_synced
    then some (record {
      app_role = state.role_id;
      app_role_epoch = epoch_id;
      app_role_revision = revision;
    })
    else none)

module _ (s256 : String → String) (sub_number : String → ℕ) where
  -- The code's own checks.
  unfoldable pub checked_code :
      String → String → String → Option AuthCode → Result TokenError AuthCode
  checked_code client redirect_uri verifier found = do
    ac ← or_fail found (refuse 400 "invalid_grant")
    fail_if (not (ac.client_id == client)) (refuse 400 "invalid_grant")
    fail_if (not (ac.redirect_uri == redirect_uri)) (refuse 400 "invalid_grant")
    fail_if (verifier == "" || not (s256 verifier == ac.code_challenge))
        (refuse 400 "invalid_grant")
    ok ac

  unfoldable pub token_claims :
      Store → SessionWindows → SessionState → String → AuthCode → Result TokenError TokenClaims
  token_claims db w s client ac = do
    snapshot ←
        or_fail (read_access_state_snapshot db client (sub_number ac.user_sub ∷ []))
          (refuse 503 "temporarily_unavailable")
    state ← admitted snapshot.0
    role ← role_claim state snapshot.1
    ok (record {
      sub = ac.user_sub;
      client_id = client;
      nonce = ac.nonce;
      acr = ac.acr;
      amr = ac.amr;
      auth_time = ac.auth_time;
      sid = ac.sid;
      scope = ac.scope;
      session = durability w ac.sid s;
      role = role;
    })

  module _ (codes : Redis AuthCode) where
    abbrev pub sessions_after : String → Result TokenError AuthCode → SessionState → SessionState
    sessions_after client (err e) s = s
    sessions_after client (ok ac) s = if ac.sid == "" then s else note_client client ac.sid s

    unfoldable pub token_exchange :
        ℕ
        → Store
        → SessionWindows
        → String
        → String
        → String
        → String
        → codes.Db
        → SessionState
        → (codes.Db × SessionState) × Result TokenError TokenClaims
    token_exchange now db w client redirect_uri code verifier codes_db s =
        let consumed = consume_code codes now code codes_db in
        let checked = checked_code client redirect_uri verifier consumed.1 in
        ((consumed.0, sessions_after client checked s), checked >>= token_claims db w s client)
