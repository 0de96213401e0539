-- ===== src/Registration/Invites.antt =====
-- Steps of src/registration.ts, and what one does to the row of an invitation code.
use dreamsso.Common.{
  ℕ, ◌+◌, String, Bool, true, Option, none, some, ◌≡◌, refl, sym, ap, subst, ◌==◌, leb, string_eq,
  arith, Option-cases, Bool-cases, inl, inr, nat_eq,
}
use text.Mathlib.TextEquality.{eq_iff}
use dreamsso.Redis.{Redis}
use dreamsso.Registration.{
  PendingRegistration, RegistrationState, Invite, LiveInvite, max_code_uses, is_open, update_code,
  voided_row, consumed_row, claimed_row, swept_row, filled, void_invite, claim_invite_use,
  consume_invite, sweep_invitations, issue_pending, drop_if, drop_pending, is_same_address,
  is_before, stale_pending_ms, new_pending, sent_again, get_pending, can_reuse,
}

-- One operation; a claim is made for an invite that was read earlier, at any time.
pub data Step (pend : Redis PendingRegistration) (sha256 lower_case : String → String)
    : RegistrationState pend → RegistrationState pend → Type 0 where
  issued :
      (now : ℕ) (email : String) (code : Option String) (minted : String)
      (s : RegistrationState pend)
      → Step pend sha256 lower_case s
          (issue_pending pend sha256 lower_case now email code minted s).0
  taken :
      (now : ℕ) (email : String) (invite : LiveInvite) (s : RegistrationState pend)
      → Step pend sha256 lower_case s (claim_invite_use pend sha256 lower_case now invite email s).0
  revoked :
      (now : ℕ) (code : String) (email : Option String) (s : RegistrationState pend)
      → Step pend sha256 lower_case s (void_invite pend sha256 lower_case now code email s)
  consumed :
      (now : ℕ) (code sub : String) (s : RegistrationState pend)
      → Step pend sha256 lower_case s (consume_invite pend sha256 lower_case now code sub s).0
  swept :
      (now : ℕ) (s : RegistrationState pend)
      → Step pend sha256 lower_case s (sweep_invitations pend sha256 lower_case now s)

pub data Steps (pend : Redis PendingRegistration) (sha256 lower_case : String → String)
    : RegistrationState pend → RegistrationState pend → Type 0 where
  done : (s : RegistrationState pend) → Steps pend sha256 lower_case s s
  then_step :
      (s s₁ s₂ : RegistrationState pend)
      → Step pend sha256 lower_case s s₁
      → Steps pend sha256 lower_case s₁ s₂
      → Steps pend sha256 lower_case s s₂

-- What may become of a code's row in one operation.
pub data RowStep : Option Invite → Option Invite → Type 0 where
  row_same : (o : Option Invite) → RowStep o o
  row_touched :
      (row : Invite) (email : Option String) (at : Option ℕ)
      → RowStep (some row) (some (record row { pending_email = email; pending_at = at }))
  row_claimed :
      (now : ℕ) (email : String) (row : Invite)
      → RowStep (some row) (some (claimed_row now email row))
  row_voided :
      (now : ℕ) (row : Invite) → is_open row ≡ true → RowStep (some row) (some (voided_row now row))
  row_consumed :
      (now : ℕ) (sub : String) (row : Invite)
      → is_open row ≡ true
      → RowStep (some row) (some (consumed_row now sub row))
  row_cleared :
      (now : ℕ) (row : Invite) → is_before row.clear_at now ≡ true → RowStep (some row) none

update_code-RowStep :
    (code : String) (holds : Invite → Bool) (f : Invite → Invite) (table : String → Option Invite)
    (other : String)
    → ((row : Invite)
        → table code ≡ some row
        → holds row ≡ true
        → RowStep (some row) (some (f row)))
    → RowStep (table other) (update_code code holds f table other)
update_code-RowStep code holds f table other change = elim (Bool-cases (code == other)) [
  | inr apart ↦ subst (λ o. RowStep (table other) o) (sym (ground arith)) (row_same (table other))
  | inl here ↦
      let same = (eq_iff code other).0 here in
      elim (Option-cases (table other)) [
        | inl gone ↦
            subst (λ o. RowStep (table other) o) (sym (ground arith)) (row_same (table other))
        | inr (row, found) ↦ elim (Bool-cases (holds row)) [
          | inr kept ↦
              subst (λ o. RowStep (table other) o) (sym (ground arith)) (row_same (table other))
          | inl changed ↦
              let run : update_code code holds f table other ≡ some (f row) = ground arith in
              subst (λ o. RowStep o (update_code code holds f table other)) (sym found)
                (subst (λ o. RowStep (some row) o) (sym run) (change row (ground arith) changed))
        ]
      ]
]

swept_row-RowStep : (now : ℕ) (o : Option Invite) → RowStep o (swept_row now o)
swept_row-RowStep now none = row_same none
swept_row-RowStep now (some row) = elim (Bool-cases (is_before row.clear_at now)) [
  | inl due ↦ subst (λ o. RowStep (some row) o) (sym (ground arith)) (row_cleared now row due)
  | inr kept ↦
      elim (Bool-cases (
        is_before (elim row.pending_at [ none ↦ none | some t ↦ some (t + stale_pending_ms) ])
          now)) [
            | inl stale ↦
                let run : swept_row now (some row)
                    ≡ some (record row { pending_email = none; pending_at = none }) =
                  ground arith in
                subst (λ o. RowStep (some row) o) (sym run) (row_touched row none none)
            | inr recent ↦
                subst (λ o. RowStep (some row) o) (sym (ground arith)) (row_same (some row))
          ]
]

module _ (pend : Redis PendingRegistration) (sha256 lower_case : String → String) where
  abbrev State : Type 0
  State = RegistrationState pend

  issue_pending-invites :
      (now : ℕ) (email : String) (code : Option String) (minted : String) (s : State)
      → (issue_pending pend sha256 lower_case now email code minted s).0.invites ≡ s.invites
  unfolding issue_pending new_pending sent_again
  issue_pending-invites now email code minted s =
      elim (Option-cases (get_pending pend sha256 lower_case now email s)) [
        | inl missing ↦ ground arith
        | inr (cur, found) ↦ elim (Bool-cases (can_reuse pend sha256 lower_case now code cur)) [
          | inl again ↦ ground arith
          | inr other ↦ ground arith
        ]
      ]

  drop_if-invites :
      (email : Option String) (s : State)
      → (drop_if pend sha256 lower_case email s).invites ≡ s.invites
  unfolding drop_pending
  drop_if-invites none s = refl
  drop_if-invites (some email) s = refl

  pub void_invite-row :
      (now : ℕ) (code : String) (email : Option String) (s : State)
      → (void_invite pend sha256 lower_case now code email s).invites
        ≡ update_code code is_open (voided_row now) s.invites
  unfolding void_invite
  void_invite-row now code email s =
      ap (λ (table : String → Option Invite). update_code code is_open (voided_row now) table)
        (drop_if-invites (filled email) s)

  void_invite-RowStep :
      (now : ℕ) (code : String) (email : Option String) (s : State) (other : String)
      → RowStep
          (s.invites other)
          ((void_invite pend sha256 lower_case now code email s).invites other)
  void_invite-RowStep now code email s other =
      subst (λ (table : String → Option Invite). RowStep (s.invites other) (table other))
        (sym (void_invite-row now code email s))
        (update_code-RowStep code is_open (voided_row now) s.invites other
          (λ row found open_row. row_voided now row open_row))

  claim_invite_use-RowStep :
      (now : ℕ) (email : String) (invite : LiveInvite) (s : State) (other : String)
      → RowStep
          (s.invites other)
          ((claim_invite_use pend sha256 lower_case now invite email s).0.invites other)
  unfolding claim_invite_use
  claim_invite_use-RowStep now email invite s other =
      elim (Bool-cases
        (is_same_address pend sha256 lower_case (filled invite.pending_email) email)) [
          | inl same ↦
              let touch =
                update_code-RowStep invite.code (λ row. true)
                  (λ row. record row { pending_at = some now }) s.invites other
                  (λ row found yes_row. row_touched row row.pending_email (some now)) in
              let run : (claim_invite_use pend sha256 lower_case now invite email s).0.invites
                  ≡ update_code invite.code (λ row. true)
                      (λ row. record row { pending_at = some now }) s.invites =
                ground arith in
              subst (λ (table : String → Option Invite). RowStep (s.invites other) (table other))
                (sym run) touch
          | inr switch ↦ elim (Bool-cases (leb max_code_uses invite.use_count)) [
            | inl over ↦
                let run : (claim_invite_use pend sha256 lower_case now invite email s).0
                    ≡ void_invite pend sha256 lower_case now invite.code invite.pending_email s =
                  ground arith in
                subst (λ (d : State). RowStep (s.invites other) (d.invites other)) (sym run)
                  (void_invite-RowStep now invite.code invite.pending_email s other)
            | inr room ↦
                let claim =
                  update_code-RowStep invite.code (λ row. true) (claimed_row now email) s.invites
                    other (λ row found yes_row. row_claimed now email row) in
                let unchanged = drop_if-invites (filled invite.pending_email) s in
                let run : (claim_invite_use pend sha256 lower_case now invite email s).0.invites
                    ≡ update_code invite.code (λ row. true) (claimed_row now email) s.invites =
                  ground arith in
                subst (λ (table : String → Option Invite). RowStep (s.invites other) (table other))
                  (sym run) claim
          ]
        ]

  pub Step-RowStep :
      (s s' : State) (code : String)
      → Step pend sha256 lower_case s s'
      → RowStep (s.invites code) (s'.invites code)
  unfolding consume_invite sweep_invitations
  Step-RowStep _ _ code (issued now email c minted s) =
      subst (λ (table : String → Option Invite). RowStep (s.invites code) (table code))
        (sym (issue_pending-invites now email c minted s)) (row_same (s.invites code))
  Step-RowStep _ _ code (taken now email invite s) =
      claim_invite_use-RowStep now email invite s code
  Step-RowStep _ _ code (revoked now c email s) = void_invite-RowStep now c email s code
  Step-RowStep _ _ code (consumed now c sub s) =
      update_code-RowStep c is_open (consumed_row now sub) s.invites code
        (λ row found open_row. row_consumed now sub row open_row)
  Step-RowStep _ _ code (swept now s) = swept_row-RowStep now (s.invites code)
