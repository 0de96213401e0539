-- ===== src/Registration/Codes.antt =====
-- Invitation codes of src/registration.ts over any run of the module's operations.
use dreamsso.Common.{
  ℕ, suc, zero, ◌%◌, ◌<◌, String, Bool, true, false, Option, none, some, List, [], ◌∷◌, ◌≡◌, refl,
  sym, ap, subst, string_eq, arith, Option-cases, Bool-cases, inl, inr, beq_refl, length, all,
  nat_eq,
}
use dreamsso.Redis.{Redis}
use dreamsso.Registration.{
  PendingRegistration, RegistrationState, Invite, is_open, is_code, is_code_char, char_at,
  code_charset, consume_invite, void_invite, generate_invite_code, update_code, consumed_row,
  voided_row,
}
use dreamsso.Registration.Invites.{
  Steps, done, then_step, RowStep, row_same, row_touched, row_claimed, row_voided, row_consumed,
  row_cleared, Step-RowStep, void_invite-row,
}

abbrev pub UsedBy : String → Option Invite → Type 0
UsedBy sub none = ⊥
UsedBy sub (some row) = (row.used_by ≡ some sub) × (row.clear_at ≡ none)

abbrev pub IsClosed : Option Invite → Type 0
IsClosed none = Unit
IsClosed (some row) = is_open row ≡ false

RowStep-UsedBy : (sub : String) (o o' : Option Invite) → RowStep o o' → UsedBy sub o → UsedBy sub o'
RowStep-UsedBy sub _ _ (row_same o) used = used
RowStep-UsedBy sub _ _ (row_touched row email at) used = used
RowStep-UsedBy sub _ _ (row_claimed now email row) used = used
RowStep-UsedBy sub _ _ (row_voided now row open_row) used = let by = used.0 in ground arith
RowStep-UsedBy sub _ _ (row_consumed now sub' row open_row) used = let by = used.0 in ground arith
RowStep-UsedBy sub _ _ (row_cleared now row due) used = let never = used.1 in ground arith

RowStep-IsClosed : (o o' : Option Invite) → RowStep o o' → IsClosed o → IsClosed o'
RowStep-IsClosed _ _ (row_same o) closed = closed
RowStep-IsClosed _ _ (row_touched row email at) closed = closed
RowStep-IsClosed _ _ (row_claimed now email row) closed = closed
RowStep-IsClosed _ _ (row_voided now row open_row) closed = ground arith
RowStep-IsClosed _ _ (row_consumed now sub row open_row) closed = ground arith
RowStep-IsClosed _ _ (row_cleared now row due) closed = tt

update_code-IsClosed :
    (now : ℕ) (code : String) (table : String → Option Invite)
    → IsClosed (update_code code is_open (voided_row now) table code)
update_code-IsClosed now code table = elim (Option-cases (table code)) [
  | inl missing ↦
      let run : update_code code is_open (voided_row now) table code ≡ none =
        ground (arith, beq_refl code) in
      subst IsClosed (sym run) tt
  | inr (row, found) ↦ elim (Bool-cases (is_open row)) [
    | inl open_row ↦
        let run : update_code code is_open (voided_row now) table code ≡ some (voided_row now row) =
          ground (arith, beq_refl code) in
        subst IsClosed (sym run) (ground arith)
    | inr shut ↦
        let run : update_code code is_open (voided_row now) table code ≡ some row =
          ground (arith, beq_refl code) in
        subst IsClosed (sym run) shut
  ]
]

module _ (pend : Redis PendingRegistration) (sha256 lower_case : String → String) where
  abbrev State : Type 0
  State = RegistrationState pend

  -- What every operation keeps of a code's row, every run keeps.
  kept :
      (P : Option Invite → Type 0) (code : String) (s s' : State)
      → ((o o' : Option Invite) → RowStep o o' → P o → P o')
      → Steps pend sha256 lower_case s s'
      → P (s.invites code)
      → P (s'.invites code)
  kept P code _ _ keep (done s) holds = holds
  kept P code _ _ keep (then_step s s₁ s₂ step rest) holds = kept P code s₁ s₂ keep rest (
      keep (s.invites code) (s₁.invites code) (Step-RowStep pend sha256 lower_case s s₁ code step)
        holds)

  closed-consume :
      (now : ℕ) (code sub : String) (s : State)
      → IsClosed (s.invites code)
      → (consume_invite pend sha256 lower_case now code sub s).1 ≡ false
  unfolding consume_invite
  closed-consume now code sub s closed = elim (Option-cases (s.invites code)) [
    | inl missing ↦ ground arith
    | inr (row, found) ↦
        let shut : is_open row ≡ false = subst IsClosed found closed in ground arith
  ]

  -- A code that was consumed once stays on record under its user through every later operation, the
  -- sweep too, and is never consumed again.
  pub consume_invite-permanent :
      (now later : ℕ) (code sub sub' : String) (s s' : State)
      → (consume_invite pend sha256 lower_case now code sub s).1 ≡ true
      → Steps pend sha256 lower_case (consume_invite pend sha256 lower_case now code sub s).0 s'
      → UsedBy sub (s'.invites code)
        × ((consume_invite pend sha256 lower_case later code sub' s').1 ≡ false)
  unfolding consume_invite
  consume_invite-permanent now later code sub sub' s s' consumed steps =
      elim (Option-cases (s.invites code)) [
        | inl missing ↦ ground arith
        | inr (row, found) ↦
            let after : State = (consume_invite pend sha256 lower_case now code sub s).0 in
            let run : after.invites code ≡ some (consumed_row now sub row) =
              ground (arith, beq_refl code) in
            let used : UsedBy sub (after.invites code) =
              subst (UsedBy sub) (sym run) (refl, refl) in
            let closed : IsClosed (after.invites code) = subst IsClosed (sym run) refl in
            (
              kept (UsedBy sub) code after s' (RowStep-UsedBy sub) steps used,
              closed-consume later code sub' s'
                  (kept IsClosed code after s' RowStep-IsClosed steps closed),
            )
      ]

  -- A code that was voided is never consumed by a later operation.
  void_invite-final :
      (now later : ℕ) (code sub : String) (email : Option String) (s s' : State)
      → Steps pend sha256 lower_case (void_invite pend sha256 lower_case now code email s) s'
      → (consume_invite pend sha256 lower_case later code sub s').1 ≡ false
  void_invite-final now later code sub email s s' steps =
      let after : State = void_invite pend sha256 lower_case now code email s in
      let voided : IsClosed (after.invites code) =
        subst IsClosed
          (sym (ap (λ table. table code) (void_invite-row pend sha256 lower_case now code email s)))
          (update_code-IsClosed now code s.invites) in
      closed-consume later code sub s' (kept IsClosed code after s' RowStep-IsClosed steps voided)

char_at-holds :
    (p : ℕ → Bool) (cs : List ℕ) (n : ℕ) → n < length cs → all p cs ≡ true → p (char_at cs n) ≡ true
char_at-holds p [] n few holds = ground arith
char_at-holds p (c ∷ cs) zero few holds = ground arith
char_at-holds p (c ∷ cs) (suc n) few holds =
    char_at-holds p cs n (omega (arith, few)) (ground arith)

length-generate_invite_code : (bytes : List ℕ) → length (generate_invite_code bytes) ≡ length bytes
unfolding generate_invite_code
length-generate_invite_code [] = refl
length-generate_invite_code (b ∷ bytes) = omega (arith, length-generate_invite_code bytes)

generated_chars : (bytes : List ℕ) → all is_code_char (generate_invite_code bytes) ≡ true
unfolding generate_invite_code
generated_chars [] = refl
generated_chars (b ∷ bytes) =
    let here = char_at-holds is_code_char code_charset (b % 36) (omega arith) refl in
    ground (arith, generated_chars bytes)

-- Whatever the random bytes, a generated code has the form that the code check accepts.
generate_invite_code-IsCode :
    (bytes : List ℕ) → length bytes ≡ 12 → is_code (generate_invite_code bytes) ≡ true
generate_invite_code-IsCode bytes twelve =
    let twelve_chars : length (generate_invite_code bytes) ≡ 12 =
      omega (arith, length-generate_invite_code bytes, twelve) in
    ground (
      arith,
      (nat_eq.beq_iff (length (generate_invite_code bytes)) 12).1 twelve_chars,
      generated_chars bytes,
    )
