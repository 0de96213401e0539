-- ===== src/Token/Exchange.antt =====
-- What a granted exchange of src/routes/token.ts rests on.
use dreamsso.Common.{
  ℕ, String, Bool, true, false, not, ◌||◌, Option, some, List, [], ◌∷◌, ◌≡◌, refl, sym, ap, ◌∙◌,
  subst, ◌==◌, map, if◌then◌else◌, arith, Bool-cases, inl, inr, string_eq, nat_eq,
}
use text.Mathlib.TextEquality.{eq_iff}
use dreamsso.Common.Result.{ok, >>=-eq-ok, fail_if-ok, or_fail-ok, ok-injective}
use dreamsso.Redis.{Redis}
use dreamsso.Store.{Store}
use dreamsso.Login.{AuthCode, consume_code}
use dreamsso.Access.Snapshot.{snapshot_of-states}
use dreamsso.Access.{
  AccessState, access_row, access_state, read_access_state_snapshot, access_rows, in_service,
}
use dreamsso.Sessions.Windows.{SessionWindows}
use dreamsso.Sessions.{SessionState}
use dreamsso.Token.{TokenClaims, checked_code, token_claims, token_exchange, admitted, role_claim}

-- The code was live, and bound to this client, this address and this verifier; the client is in service
-- and the subject is let in there.
pub record Entitled (s256 : String → String) (sub_number : String → ℕ) (db : Store)
    (client redirect_uri verifier : String) (found : Option AuthCode) (claims : TokenClaims)
    : Type 0 where
  pub ac : AuthCode
  pub live : found ≡ some ac
  pub same_client : ac.client_id ≡ client
  pub same_address : ac.redirect_uri ≡ redirect_uri
  pub proven : s256 verifier ≡ ac.code_challenge
  pub same_subject : claims.sub ≡ ac.user_sub
  pub same_session : claims.sid ≡ ac.sid
  pub serving : in_service db client ≡ true
  pub let_in : (access_state (access_row db client (sub_number ac.user_sub))).is_allowed ≡ true

admitted-allowed :
    (state found : AccessState) → admitted (state ∷ []) ≡ ok found → state.is_allowed ≡ true
admitted-allowed state found let_in = elim (Bool-cases state.is_allowed) [
  | inl given ↦ given
  | inr refused ↦ ground arith
]

snapshot-admitted :
    (db : Store) (client : String) (sub : ℕ) (states : List AccessState)
    (authority : Option (ℕ × ℕ)) (state : AccessState)
    → read_access_state_snapshot db client (sub ∷ []) ≡ some (states, authority)
    → admitted states ≡ ok state
    → (in_service db client ≡ true) × ((access_state (access_row db client sub)).is_allowed ≡ true)
unfolding read_access_state_snapshot
snapshot-admitted db client sub states authority state read let_in =
    let listed = snapshot_of-states (access_rows db client (sub ∷ [])) states authority read in
    let passed : admitted (map access_state (access_rows db client (sub ∷ []))) ≡ ok state =
      sym (ap admitted listed) ∙ let_in in
    elim (Bool-cases (in_service db client)) [
      | inr out ↦ ground arith
      | inl serving ↦ (
        serving,
        admitted-allowed (access_state (access_row db client sub)) state (
            ap
              (λ (b : Bool).
                admitted (map access_state (if b then access_row db client sub ∷ [] else [])))
              (sym serving)
            ∙ passed),
      )
    ]

not_test-false : (b : Bool) → not b ≡ false → b ≡ true
not_test-false true h = refl
not_test-false false h = sym h

or_test-false : (a b : Bool) → (a || b) ≡ false → (a ≡ false) × (b ≡ false)
or_test-false true b h = cc
or_test-false false b h = (refl, h)

module _ (s256 : String → String) (sub_number : String → ℕ) where
  checked_code-bound :
      (client redirect_uri verifier : String) (found : Option AuthCode) (ac : AuthCode)
      → checked_code s256 sub_number client redirect_uri verifier found ≡ ok ac
      → (found ≡ some ac)
        × ((ac.client_id == client) ≡ true)
        × ((ac.redirect_uri == redirect_uri) ≡ true)
        × ((s256 verifier == ac.code_challenge) ≡ true)
  unfolding checked_code
  checked_code-bound client redirect_uri verifier found ac h =
      let (code, live, h₁) = or_fail-ok found _ _ h in
      let (same_client, h₂) = fail_if-ok _ _ _ h₁ in
      let (same_address, h₃) = fail_if-ok _ _ _ h₂ in
      let (proven, h₄) = fail_if-ok _ _ _ h₃ in
      let same = ok-injective h₄ in
      let (read, shown) =
        or_test-false (verifier == "") (not (s256 verifier == code.code_challenge)) proven in
      (
        live ∙ ap some same,
        subst (λ (c : AuthCode). (c.client_id == client) ≡ true) same
            (not_test-false _ same_client),
        subst (λ (c : AuthCode). (c.redirect_uri == redirect_uri) ≡ true) same
            (not_test-false _ same_address),
        subst (λ (c : AuthCode). (s256 verifier == c.code_challenge) ≡ true) same
            (not_test-false _ shown),
      )

  module _ (codes : Redis AuthCode) where
    -- A granted exchange rests on a code that was live in the store, issued to this client and for this
    -- address, with the challenge of this verifier; the client is in service, the access state lets the
    -- subject in there, and the token is about the code's subject and session.
    pub token_exchange-Entitled :
        (now : ℕ) (db : Store) (w : SessionWindows) (client redirect_uri code verifier : String)
        (codes_db : codes.Db) (s : SessionState) (claims : TokenClaims)
        → (token_exchange s256 sub_number codes now db w client redirect_uri code verifier codes_db
            s).1
          ≡ ok claims
        → Entitled s256 sub_number db client redirect_uri verifier
            (consume_code codes now code codes_db).1
            claims
    unfolding token_exchange token_claims
    token_exchange-Entitled now db w client redirect_uri code verifier codes_db s claims h =
        let (ac, checked, h₁) =
          >>=-eq-ok
            (checked_code s256 sub_number client redirect_uri verifier
              (consume_code codes now code codes_db).1)
            _ h in
        let (live, same_client, same_address, proven) =
          checked_code-bound client redirect_uri verifier (consume_code codes now code codes_db).1
            ac checked in
        let (snapshot, read, h₂) =
          or_fail-ok (read_access_state_snapshot db client (sub_number ac.user_sub ∷ [])) _ _ h₁ in
        let (state, let_in, h₃) = >>=-eq-ok (admitted snapshot.0) _ h₂ in
        let (role, claimed, h₄) = >>=-eq-ok (role_claim state snapshot.1) _ h₃ in
        let given = ok-injective h₄ in
        let (serving, allowed) =
          snapshot-admitted db client (sub_number ac.user_sub) snapshot.0 snapshot.1 state read
            let_in in
        record {
          ac = ac;
          live = live;
          same_client = (eq_iff _ _).0 same_client;
          same_address = (eq_iff _ _).0 same_address;
          proven = (eq_iff _ _).0 proven;
          same_subject = sym (ap (λ (c : TokenClaims). c.sub) given);
          same_session = sym (ap (λ (c : TokenClaims). c.sid) given);
          serving = serving;
          let_in = allowed;
        }
