-- ===== src/Sessions/Stepup.antt =====
-- Step-up verification: src/oidc/stepupRules.ts, src/oidc/stepupPolicy.ts and the rules about methods
-- in src/oidc/sessions.ts. Methods are the texts the code uses.
use dreamsso.Common.{
  ℕ, ◌+◌, ◌*◌, ◌≤◌, String, Bool, true, false, ◌&&◌, ◌||◌, not, Option, none, some, List, [], ◌∷◌,
  ◌++◌, ◌==◌, contains, ltb, leb, if◌then◌else◌, string_eq, nat_eq, get_or, length, ◌≡◌, ◌⊎◌, arith,
  Bool-cases, inl, inr, refl, ap, ◌∙◌,
}
use dreamsso.Sessions.Windows.{parse_int, in_range}

unfoldable pub is_strong_amr : List String → Bool
is_strong_amr amr = contains amr "otp" || contains amr "passkey"

unfoldable pub method_from_amr : List String → String
method_from_amr amr =
    if contains amr "passkey"
    then "passkey"
    else if contains amr "otp"
    then "totp"
    else if contains amr "email"
    then "email"
    else "password"

unfoldable pub accepted_strong_stepup : ℕ → ℕ → List String
accepted_strong_stepup passkeys totp =
    if ltb 0 passkeys then "passkey" ∷ [] else if ltb 0 totp then "totp" ∷ [] else []

unfoldable pub stepup_satisfies : List String → Option String → Bool → Bool
stepup_satisfies accepted none fresh = false
stepup_satisfies accepted (some method) fresh = fresh && contains accepted method

unfoldable pub stepup_validity_minutes : Option String → ℕ
stepup_validity_minutes value = in_range (parse_int (get_or value "")) 30 1440

-- The stamp in seconds, `now` in milliseconds; a stamp of 0 counts as none.
unfoldable pub stepup_stamp_fresh : Option ℕ → ℕ → ℕ → Bool
stepup_stamp_fresh none minutes now = false
stepup_stamp_fresh (some stamp) minutes now =
    not (stamp == 0) && ltb now ((stamp + minutes * 60) * 1000)

unfoldable pub is_stepup_fresh : (String → Option String) → Option ℕ → ℕ → Bool
is_stepup_fresh setting stamp now =
    stepup_stamp_fresh stamp (stepup_validity_minutes (setting "stepup_validity_minutes")) now

pub data StepupMode : Type 0 where
  strong_mandatory fallback email_change : StepupMode

-- The user's row as acceptedStepupMethods reads it.
pub record Factors : Type 0 where
  pub mfa_enabled : Bool
  pub email_verified : Bool
  pub email : Option String

pub record AcceptedStepup : Type 0 where
  pub accepted : List String
  pub enroll_required : Bool
  pub masked_email : Option String

abbrev pub when : Bool → String → List String
when b method = if b then method ∷ [] else []

abbrev pub is_email_change : StepupMode → Bool
is_email_change strong_mandatory = false
is_email_change fallback = false
is_email_change email_change = true

abbrev pub email_of : Option Factors → Option String
email_of none = none
email_of (some i) = elim i.email [ none ↦ none | some e ↦ if e == "" then none else some e ]

abbrev pub email_counts : StepupMode → Option Factors → Bool
email_counts mode none = false
email_counts mode (some i) = i.email_verified && (is_email_change mode || i.mfa_enabled)

module _ (mask_email : String → String) where
  abbrev pub weak_fallback : StepupMode → Option Factors → AcceptedStepup
  weak_fallback mode identity = elim (email_of identity) [
    | none ↦ record { accepted = "password" ∷ []; enroll_required = false; masked_email = none }
    | some email ↦
        if email_counts mode identity
        then record {
          accepted = "email" ∷ [];
          enroll_required = false;
          masked_email = some (mask_email email);
        }
        else record { accepted = "password" ∷ []; enroll_required = false; masked_email = none }
  ]

  abbrev pub owned_factors : StepupMode → ℕ → ℕ → Option Factors → AcceptedStepup
  owned_factors mode passkeys totp identity =
      let strong = when (ltb 0 passkeys) "passkey" ++ when (ltb 0 totp) "totp" in
      if leb 1 (length strong)
      then record { accepted = strong; enroll_required = false; masked_email = none }
      else weak_fallback mode identity

  unfoldable pub accepted_stepup_methods : StepupMode → ℕ → ℕ → Option Factors → AcceptedStepup
  accepted_stepup_methods strong_mandatory passkeys totp identity =
      let accepted = accepted_strong_stepup passkeys totp in
      record { accepted = accepted; enroll_required = length accepted == 0; masked_email = none }
  accepted_stepup_methods fallback passkeys totp identity =
      owned_factors fallback passkeys totp identity
  accepted_stepup_methods email_change passkeys totp identity =
      owned_factors email_change passkeys totp identity

weak_method :
    (amr : List String)
    → contains amr "passkey" ≡ false
    → contains amr "otp" ≡ false
    → ((◌==◌ {A = String} "passkey" (method_from_amr amr)) ≡ false)
      × ((◌==◌ {A = String} "totp" (method_from_amr amr)) ≡ false)
unfolding method_from_amr
weak_method amr no_passkey no_otp =
    let passkey_email : ◌==◌ {A = String} "passkey" "email" ≡ false = refl in
    let totp_email : ◌==◌ {A = String} "totp" "email" ≡ false = refl in
    let passkey_password : ◌==◌ {A = String} "passkey" "password" ≡ false = refl in
    let totp_password : ◌==◌ {A = String} "totp" "password" ≡ false = refl in
    elim (Bool-cases (contains amr "email")) [
      | inl email ↦
          let method : method_from_amr amr ≡ "email" = ground arith in
          (
            ap (λ m. ◌==◌ {A = String} "passkey" m) method ∙ passkey_email,
            ap (λ m. ◌==◌ {A = String} "totp" m) method ∙ totp_email,
          )
      | inr none_left ↦
          let method : method_from_amr amr ≡ "password" = ground arith in
          (
            ap (λ m. ◌==◌ {A = String} "passkey" m) method ∙ passkey_password,
            ap (λ m. ◌==◌ {A = String} "totp" m) method ∙ totp_password,
          )
    ]

weak_refused :
    (passkeys totp : ℕ) (method : String)
    → ◌==◌ {A = String} "passkey" method ≡ false
    → ◌==◌ {A = String} "totp" method ≡ false
    → contains (accepted_strong_stepup passkeys totp) method ≡ false
unfolding accepted_strong_stepup
weak_refused passkeys totp method no_passkey no_totp = elim (Bool-cases (ltb 0 passkeys)) [
  | inl owns ↦
      let list : accepted_strong_stepup passkeys totp ≡ "passkey" ∷ [] = ground arith in
      ap (λ accepted. contains accepted method) list ∙ ground arith
  | inr owns_none ↦ elim (Bool-cases (ltb 0 totp)) [
    | inl owns_totp ↦
        let list : accepted_strong_stepup passkeys totp ≡ "totp" ∷ [] = ground arith in
        ap (λ accepted. contains accepted method) list ∙ ground arith
    | inr nothing ↦
        let list : accepted_strong_stepup passkeys totp ≡ [] = ground arith in
        ap (λ accepted. contains accepted method) list
  ]
]

passkey_refused :
    (passkeys totp : ℕ)
    → ltb 0 passkeys ≡ false
    → contains (accepted_strong_stepup passkeys totp) "passkey" ≡ false
unfolding accepted_strong_stepup
passkey_refused passkeys totp owns_none = elim (Bool-cases (ltb 0 totp)) [
  | inl owns_totp ↦
      let list : accepted_strong_stepup passkeys totp ≡ "totp" ∷ [] = ground arith in
      ap (λ accepted. contains accepted "passkey") list
  | inr nothing ↦
      let list : accepted_strong_stepup passkeys totp ≡ [] = ground arith in
      ap (λ accepted. contains accepted "passkey") list
]

totp_refused :
    (passkeys totp : ℕ)
    → (not (ltb 0 passkeys) && ltb 0 totp) ≡ false
    → contains (accepted_strong_stepup passkeys totp) "totp" ≡ false
unfolding accepted_strong_stepup
totp_refused passkeys totp unasked = elim (Bool-cases (ltb 0 passkeys)) [
  | inl owns ↦
      let list : accepted_strong_stepup passkeys totp ≡ "passkey" ∷ [] = ground arith in
      ap (λ accepted. contains accepted "totp") list
  | inr owns_none ↦
      let list : accepted_strong_stepup passkeys totp ≡ [] = ground arith in
      ap (λ accepted. contains accepted "totp") list
]

-- Where strong verification is mandatory, the method a session was born with satisfies it only if the
-- login proved a strong factor and the user owns the one asked for, a passkey if there is one.
pub accepted_stepup_methods_strong :
    (mask_email : String → String) (passkeys totp : ℕ) (identity : Option Factors)
    (amr : List String) (fresh : Bool)
    → stepup_satisfies
        (accepted_stepup_methods mask_email strong_mandatory passkeys totp identity).accepted
        (some (method_from_amr amr))
        fresh
      ≡ true
    → (fresh ≡ true)
      × (is_strong_amr amr ≡ true)
      × ((1 ≤ passkeys × (contains amr "passkey" ≡ true))
          ⊎ (passkeys ≡ 0 × 1 ≤ totp × (contains amr "otp" ≡ true)))
unfolding accepted_stepup_methods accepted_strong_stepup stepup_satisfies method_from_amr
    is_strong_amr
accepted_stepup_methods_strong mask_email passkeys totp identity amr fresh ok =
    elim (Bool-cases (contains amr "passkey")) [
      | inl by_passkey ↦ elim (Bool-cases (ltb 0 passkeys)) [
        | inl owns ↦ (ground arith, ground arith, inl (ground arith, by_passkey))
        | inr owns_none ↦
            let method : method_from_amr amr ≡ "passkey" = ground arith in
            let refused =
              ap (λ m. contains (accepted_strong_stepup passkeys totp) m) method
              ∙ passkey_refused passkeys totp owns_none in
            ground arith
      ]
      | inr other ↦ elim (Bool-cases (contains amr "otp")) [
        | inl by_totp ↦ elim (Bool-cases (not (ltb 0 passkeys) && ltb 0 totp)) [
          | inl asked ↦ (ground arith, ground arith, inr (ground arith, ground arith, by_totp))
          | inr unasked ↦
              let method : method_from_amr amr ≡ "totp" = ground arith in
              let refused =
                ap (λ m. contains (accepted_strong_stepup passkeys totp) m) method
                ∙ totp_refused passkeys totp unasked in
              ground arith
        ]
        | inr weak ↦
            let method = weak_method amr other weak in
            let refused = weak_refused passkeys totp (method_from_amr amr) method.0 method.1 in
            ground arith
      ]
    ]
