-- ===== src/Otp/Codes.antt =====
-- What a one-time code of src/emailOtp.ts is good for.
use dreamsso.Common.{
  ℕ, ◌+◌, ◌-◌, ◌/◌, ◌<◌, ◌≤◌, String, true, false, not, ◌||◌, Bool, List, [], ◌∷◌, ◌&&◌, ◌==◌, all,
  All, length, Option, none, some, ◌≡◌, refl, sym, ap, ◌∙◌, ltb, leb, arith, nat_eq, string_eq,
  option_eq, Bool-cases, Option-cases, inl, inr,
}
use dreamsso.Common.Text.{codes, is_digit}
use dreamsso.Otp.{
  select_otp, settle_otp, count_attempts, verify_overlapping, Otp, OtpLimit, OtpState, otp_ttl,
  max_attempts, valid, invalid, verify_email_otp, is_match, issue_email_otp, issued, refusal,
  counted, send_code, reusable, IssueResult, window_lapsed,
}

digits_hold : (cs : List ℕ) → all is_digit cs ≡ true → All (λ c. (b'0' ≤ c) × (c ≤ b'9')) cs
digits_hold [] h = tt
digits_hold (c ∷ cs) h = ((ground arith, ground arith), digits_hold cs (ground arith))

-- What the check of a row tells of the text.
is_match-holds :
    (reveal : ℕ → Option String) (row : Otp) (code : String)
    → is_match reveal row code ≡ true
    → (reveal row.code_enc ≡ some code)
      × (length (codes code) ≡ 6)
      × All (λ c. (b'0' ≤ c) × (c ≤ b'9')) (codes code)
unfolding is_match
is_match-holds reveal row code h =
    let three : (all is_digit (codes code) ≡ true)
        × ((length (codes code) == 6) ≡ true)
        × ((reveal row.code_enc == some code) ≡ true) =
      both _ _ _ h in
    (
      (option_eq.beq_iff (reveal row.code_enc) (some code)).0 three.2,
      (nat_eq.beq_iff (length (codes code)) 6).0 three.1,
      digits_hold (codes code) three.0,
    )
  where
    both : (a b c : Bool) → (a && b && c) ≡ true → (a ≡ true) × (b ≡ true) × (c ≡ true)
    both a b c h = (ground arith, ground arith, ground arith)

-- A code is accepted only when the live row, with attempts left, holds it, and it is six digits; the row
-- is then gone, and no later call accepts a code on the state that is left. But of two calls with that
-- code that both read the row before either deletes it, both accept it.
pub verify_email_otp_once :
    (reveal : ℕ → Option String) (earlier now : ℕ) (code : String) (s s' : OtpState)
    → earlier ≤ now
    → verify_email_otp reveal now code s ≡ (s', valid)
    → (row : Otp) × (s.otp ≡ some row)
      × (now < row.sent_at + otp_ttl)
      × (row.attempts < max_attempts)
      × (reveal row.code_enc ≡ some code)
      × (length (codes code) ≡ 6)
      × All (λ c. (b'0' ≤ c) × (c ≤ b'9')) (codes code)
      × ((later : ℕ) (other : String) → verify_email_otp reveal later other s' ≡ (s', invalid true))
      × ((verify_overlapping reveal earlier now code s).1 ≡ valid)
      × ((verify_overlapping reveal earlier now code s).2 ≡ valid)
unfolding verify_email_otp settle_otp select_otp count_attempts verify_overlapping
verify_email_otp_once reveal earlier now code s s' order h = elim (Option-cases s.otp) [
  | inl missing ↦ ground arith
  | inr (row, found) ↦
      elim (Bool-cases (not (ltb now (row.sent_at + otp_ttl)) || leb max_attempts row.attempts)) [
        | inl closed ↦ ground arith
        | inr usable ↦ elim (Bool-cases (is_match reveal row code)) [
          | inr wrong ↦ ground arith
          | inl right ↦
              let (held, six, digits) = is_match-holds reveal row code right in
              (
                row,
                found,
                ground arith,
                ground arith,
                held,
                six,
                digits,
                λ later other. ground arith,
                ground arith,
                ground arith,
              )
        ]
      ]
]

-- No row counts more than five attempts.
pub IsBounded : OtpState → Type 0
IsBounded s = (row : Otp) → s.otp ≡ some row → row.attempts ≤ max_attempts

issued-limit :
    (seal : String → ℕ) (reveal : ℕ → Option String) (now : ℕ) (minted : String) (s : OtpState)
    → (send_code seal reveal now minted s).0.limit ≡ some (counted now s.limit)
unfolding send_code
issued-limit seal reveal now minted s = elim (Option-cases (reusable seal reveal now s.otp)) [
  | inl fresh ↦ ground arith
  | inr (code, again) ↦ ground arith
]

counted-last_sent : (now : ℕ) (lim : Option OtpLimit) → (counted now lim).last_sent ≡ now
counted-last_sent now none = refl
counted-last_sent now (some lim) = ground arith

refusal_soon :
    (later now : ℕ) (lim : OtpLimit)
    → lim.last_sent ≡ now
    → later ≤ now + 59000
    → window_lapsed later lim ≡ false
    → (r : IssueResult) × (refusal later (some lim) ≡ some r)
refusal_soon later now lim last soon running =
    let brief : (later - lim.last_sent + 500) / 1000 < 60 = omega arith in
    elim (Option-cases (refusal later (some lim))) [ inl sends ↦ ground arith | inr found ↦ found ]

refusal-issued :
    (now : ℕ) (lim : Option OtpLimit) (code : String) → refusal now lim ≡ some (issued code) → ⊥
refusal-issued now none code h = ground arith
refusal-issued now (some lim) code h = ground arith

-- After a code was sent, a further call within 59 seconds, in the same window of 24 hours, is refused
-- and changes nothing.
issue_email_otp_cooldown :
    (seal : String → ℕ) (reveal : ℕ → Option String) (now : ℕ) (minted : String) (s s' : OtpState)
    (code : String)
    → issue_email_otp seal reveal now minted s ≡ (s', issued code)
    → (later : ℕ) (next : String) → later ≤ now + 59000
    → window_lapsed later (counted now s.limit) ≡ false
    → (r : IssueResult) × (refusal later s'.limit ≡ some r)
      × (issue_email_otp seal reveal later next s' ≡ (s', r))
unfolding issue_email_otp
issue_email_otp_cooldown seal reveal now minted s s' code h later next soon running =
    elim (Option-cases (refusal now s.limit)) [
      | inr (r, refused) ↦ ground (arith, refusal-issued now s.limit code)
      | inl free ↦
          let sent : send_code seal reveal now minted s ≡ (s', issued code) = ground arith in
          let limit : s'.limit ≡ some (counted now s.limit) =
            ap (λ p. p.0.limit) (sym sent) ∙ issued-limit seal reveal now minted s in
          let (r, again) =
            refusal_soon later now (counted now s.limit) (counted-last_sent now s.limit) soon
              running in
          (r, ap (refusal later) limit ∙ again, ground (arith))
    ]

-- Verification keeps the count of attempts within five.
pub verify_email_otp-IsBounded :
    (reveal : ℕ → Option String) (now : ℕ) (code : String) (s : OtpState)
    → IsBounded s
    → IsBounded (verify_email_otp reveal now code s).0
unfolding verify_email_otp settle_otp select_otp count_attempts IsBounded
verify_email_otp-IsBounded reveal now code s h row kept = elim (Option-cases s.otp) [
  | inl missing ↦ ground arith
  | inr (r, found) ↦
      let bound = h r found in
      elim (Bool-cases (not (ltb now (r.sent_at + otp_ttl)) || leb max_attempts r.attempts)) [
        | inl closed ↦ ground arith
        | inr usable ↦ elim (Bool-cases (is_match reveal r code)) [
          | inl right ↦ ground arith
          | inr wrong ↦ ground arith
        ]
      ]
]
