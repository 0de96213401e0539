-- ===== src/Token/Replay.antt =====
-- A code of src/routes/token.ts that was presented before.
use dreamsso.Common.{ℕ, ◌≤◌, String, Option, none, ◌≡◌, ap, ◌∙◌, Option-cases, inl, inr}
use dreamsso.Common.Result.{err, ◌>>=◌}
use dreamsso.Redis.{Redis}
use dreamsso.Redis.Reads.{get-del_same}
use dreamsso.Store.{Store}
use dreamsso.Login.{AuthCode, consume_code, read_code, delete_code}
use dreamsso.Sessions.Windows.{SessionWindows}
use dreamsso.Sessions.{SessionState}
use dreamsso.Token.{refuse, checked_code, token_claims, sessions_after, token_exchange}

consume-consume_code :
    (codes : Redis AuthCode) (now later : ℕ) (code : String) (db : codes.Db)
    → now ≤ later
    → (consume_code codes later code (consume_code codes now code db).0).1 ≡ none
unfolding consume_code read_code delete_code
consume-consume_code codes now later code db order = elim (Option-cases (codes.get db now code)) [
  | inr (fields, found) ↦
      ap (λ seen. codes.get (delete_code codes code seen db) later code) found
      ∙ get-del_same codes db code later
  | inl unknown ↦
      ap (λ seen. codes.get (delete_code codes code seen db) later code) unknown
      ∙ (elim (Option-cases (codes.get db later code)) [
        | inl gone ↦ gone
        | inr (fields, back) ↦
            let before = codes.get_earlier db now later code fields order back in cc
      ])
]

module _ (s256 : String → String) (sub_number : String → ℕ) (codes : Redis AuthCode) where
  -- A code is good for one request: after any exchange of it, granted or refused, each later one is
  -- answered with 400 invalid_grant, whatever else it sends, and leaves the sessions as they are.
  pub token_exchange_once :
      (now later : ℕ) (db db₂ : Store) (w w₂ : SessionWindows)
      (client client₂ redirect_uri redirect_uri₂ code verifier verifier₂ : String)
      (codes_db : codes.Db) (s s₂ : SessionState)
      → now ≤ later
      → let spent =
          (token_exchange s256 sub_number codes now db w client redirect_uri code verifier codes_db
            s).0.0 in
        let again =
          token_exchange s256 sub_number codes later db₂ w₂ client₂ redirect_uri₂ code verifier₂
            spent s₂ in
        (again.1 ≡ err (refuse 400 "invalid_grant")) × (again.0.1 ≡ s₂)
  unfolding token_exchange checked_code
  token_exchange_once now later db db₂ w w₂ client client₂ redirect_uri redirect_uri₂ code verifier
        verifier₂ codes_db s s₂ order =
      let gone = consume-consume_code codes now later code codes_db order in
      (
        ap
            (λ (found : Option AuthCode).
              checked_code s256 sub_number client₂ redirect_uri₂ verifier₂ found
              >>= token_claims s256 sub_number db₂ w₂ s₂ client₂)
            gone,
        ap
            (λ (found : Option AuthCode).
              sessions_after s256 sub_number codes client₂
                (checked_code s256 sub_number client₂ redirect_uri₂ verifier₂ found) s₂)
            gone,
      )
