-- ===== src/Mfa/Tests.antt =====
-- A code that is tried twice.
use dreamsso.Common.{
  ℕ, ◌/◌, String, true, false, Option, none, some, List, [], ◌∷◌, ◌≡◌, refl, arith,
}
use dreamsso.Redis.Table.{Entries, table}
use dreamsso.Mfa.{claim_totp_step}
use dreamsso.Mfa.Steps.{Claim, run_claims, claim_totp_step_once}

-- A verifier that takes every text for the code of the running period.
abbrev running : String → String → ℕ → Option ℕ
running secret code now = some (now / 30000)

abbrev no_steps : Entries ℕ
no_steps key = none

abbrev another : List Claim
another = record { at = 70000; credential = "c2"; step = 2 } ∷ []

granted : (claim_totp_step (table ℕ) 65000 "c1" 2 no_steps).1 ≡ true
unfolding claim_totp_step
granted = refl

claim_totp_step_once_example :
    (claim_totp_step
      (table ℕ)
      80000
      "c1"
      2
      (run_claims (table ℕ) another (claim_totp_step (table ℕ) 65000 "c1" 2 no_steps).0)).1
    ≡ false
claim_totp_step_once_example =
    claim_totp_step_once (table ℕ) running "k" "123456" "123456" "c1" 65000 80000 2 2 another
      no_steps (λ key text u step valid. (ground arith, ground arith)) refl granted
      (omega arith, omega arith) refl (omega arith)
