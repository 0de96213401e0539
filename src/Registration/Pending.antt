-- ===== src/Registration/Pending.antt =====
-- Pending registrations of src/registration.ts: the mailed link works while it lives, a resend does
-- not lengthen its life, and no other token works.
use dreamsso.Common.{
  ℕ, ◌/◌, ◌≤◌, String, Bool, true, false, Option, some, ◌≡◌, ◌==◌, is_some, string_eq, arith,
  Option-cases, Bool-cases, inl, inr, beq_refl, option_eq, nat_eq, refl,
}
use text.Mathlib.TextEquality.{eq_iff}
use dreamsso.Redis.{Redis}
use dreamsso.Registration.{
  PendingRegistration, RegistrationState, refused_length, link_ttl_seconds, get_pending,
  issue_pending, new_pending, sent_again, validate_pending, can_reuse,
}

module _ (pend : Redis PendingRegistration) (sha256 lower_case : String → String) where
  abbrev State : Type 0
  State = RegistrationState pend

  module _ (now : ℕ) (email : String) (code : Option String) (minted : String) (s : State) where
    abbrev issued : State × String × Bool
    issued = issue_pending pend sha256 lower_case now email code minted s

    -- As long as the address has a pending registration, the token just mailed, new or sent again,
    -- opens it, and it carries the invitation code of the call.
    pub validate-issue_pending :
        (t : ℕ)
        → refused_length issued.1 ≡ false
        → now ≤ t
        → is_some (get_pending pend sha256 lower_case t email issued.0) ≡ true
        → (rec : PendingRegistration) × (validate_pending pend sha256 lower_case t email issued.1
              issued.0
            ≡ some rec)
          × (rec.token ≡ issued.1)
          × (rec.code ≡ code)
    unfolding issue_pending get_pending new_pending sent_again validate_pending
    validate-issue_pending t fits later alive =
        let key = lower_case email in
        let fresh : PendingRegistration = record {
          token = minted;
          code = code;
          created_at = now / 1000;
          last_sent = now / 1000;
        } in
        let started = pend.get-set_ex s.pending_db now key fresh link_ttl_seconds t key later in
        elim (Option-cases (pend.get s.pending_db now key)) [
          | inl missing ↦
              let read : pend.get issued.0.pending_db t key ≡ some fresh =
                ground (arith, beq_refl key) in
              (fresh, ground (arith, beq_refl (sha256 minted)), ground arith, refl)
          | inr (cur, found) ↦ elim (Bool-cases (can_reuse pend sha256 lower_case now code cur)) [
            | inl again ↦
                let next : PendingRegistration = record cur { last_sent = now / 1000 } in
                let kept = pend.get-set_keep s.pending_db now key next t key later (ground arith) in
                let same_code = (option_eq.beq_iff cur.code code).0 (ground arith) in
                let read : pend.get issued.0.pending_db t key ≡ some next =
                  ground (arith, beq_refl key) in
                (next, ground (arith, beq_refl (sha256 cur.token)), ground arith, same_code)
            | inr other ↦
                let read : pend.get issued.0.pending_db t key ≡ some fresh =
                  ground (arith, beq_refl key) in
                (fresh, ground (arith, beq_refl (sha256 minted)), ground arith, refl)
          ]
        ]

    -- A resend leaves the end of the link's life where it was.
    issue_pending-life :
        (t : ℕ)
        → issued.2 ≡ true
        → now ≤ t
        → is_some (get_pending pend sha256 lower_case t email issued.0)
          ≡ is_some (get_pending pend sha256 lower_case t email s)
    unfolding issue_pending get_pending sent_again
    issue_pending-life t again later =
        elim (Option-cases (pend.get s.pending_db now (lower_case email))) [
          | inl missing ↦ ground arith
          | inr (cur, found) ↦
              let reused : can_reuse pend sha256 lower_case now code cur ≡ true = ground arith in
              let next : PendingRegistration = record cur { last_sent = now / 1000 } in
              let law =
                pend.get-set_keep s.pending_db now (lower_case email) next t (lower_case email)
                  later (ground arith) in
              elim (Option-cases (pend.get s.pending_db t (lower_case email))) [
                | inl gone ↦ ground (arith, beq_refl (lower_case email))
                | inr (v, still) ↦ ground (arith, beq_refl (lower_case email))
              ]
        ]

  -- When the hash tells tokens apart, only the address's own token opens its registration.
  validate_pending-token :
      (now : ℕ) (email token : String) (s : State) (rec : PendingRegistration)
      → ((a b : String) → sha256 a ≡ sha256 b → a ≡ b)
      → validate_pending pend sha256 lower_case now email token s ≡ some rec
      → (get_pending pend sha256 lower_case now email s ≡ some rec) × (rec.token ≡ token)
  unfolding validate_pending get_pending
  validate_pending-token now email token s rec apart valid =
      elim (Option-cases (pend.get s.pending_db now (lower_case email))) [
        | inl missing ↦ ground arith
        | inr (cur, found) ↦ elim (Bool-cases (sha256 cur.token == sha256 token)) [
          | inl same ↦
              let hashes =
                apart cur.token token ((eq_iff (sha256 cur.token) (sha256 token)).0 same) in
              (ground arith, ground arith)
          | inr other ↦ ground arith
        ]
      ]
