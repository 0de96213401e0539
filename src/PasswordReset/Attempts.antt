-- ===== src/PasswordReset/Attempts.antt =====
-- A reset token of src/passwordReset.ts is burned by five failed attempts.
use dreamsso.Common.{
  ℕ, suc, ◌+◌, ◌≤◌, ◌<◌, String, false, none, some, List, [], ◌∷◌, ◌≡◌, leb, length, string_eq,
  arith, Option-cases, Bool-cases, inl, inr, beq_refl,
}
use dreamsso.Redis.{Redis}
use dreamsso.Redis.Reads.{get-del_same}
use dreamsso.PasswordReset.{
  ResetToken, LoginTicket, ResetState, max_challenge_attempts, get_reset_token, consume_reset_token,
  bump_reset_attempts, wrong_length, issue_reset_token, drop_previous, reset_ttl_seconds,
}

-- Attempts one after the other, from an instant on: each reads the record at its first instant and
-- counts itself at its second, before the next one reads.
abbrev pub Ordered : ℕ → List (ℕ × ℕ) → Type 0
Ordered now [] = Unit
Ordered now ((read, counted) ∷ ts) = (now ≤ read) × (read ≤ counted) × Ordered counted ts

abbrev pub last_of : ℕ → List (ℕ × ℕ) → ℕ
last_of now [] = now
last_of now ((read, counted) ∷ ts) = last_of counted ts

module _ (records : Redis ResetToken) (texts : Redis String) (tickets : Redis LoginTicket)
    (sha256 : String → String) (token : String) where
  abbrev State : Type 0
  State = ResetState records texts tickets

  -- A challenge with a wrong answer: the record is read, the answer is verified, and the attempt is
  -- counted on the record that was read.
  unfoldable pub fail_at : ℕ × ℕ → State → State
  fail_at (now, later) s = elim (get_reset_token records texts tickets sha256 now token s) [
    | none ↦ s
    | some rec ↦ (bump_reset_attempts records texts tickets sha256 later rec s).0
  ]

  unfoldable pub fail_each : List (ℕ × ℕ) → State → State
  fail_each [] s = s
  fail_each (t ∷ ts) s = fail_each ts (fail_at t s)

  -- From an instant on, the token has so many attempts, and fewer than five, or it is gone.
  abbrev pub Tried : ℕ → ℕ → State → Type 0
  Tried now n s =
      (t : ℕ) (rec : ResetToken)
      → now ≤ t
      → records.get s.token_db t (sha256 token) ≡ some rec
      → (n ≤ rec.attempts) × (rec.attempts < max_challenge_attempts)

  -- What a count of attempts leaves to a later read: nothing, or the record as counted.
  kept_record :
      (now t : ℕ) (next rec : ResetToken) (s : State)
      → now ≤ t
      → records.get (records.set_keep s.token_db now (sha256 token) next) t (sha256 token)
        ≡ some rec
      → rec ≡ next
  kept_record now t next rec s later found =
      elim (Option-cases (records.get s.token_db now (sha256 token))) [
        | inl lapsed ↦
            let law =
              records.get-set_keep_new s.token_db now (sha256 token) next t (sha256 token) later
                lapsed in
            ground (arith, beq_refl (sha256 token))
        | inr (old, there) ↦
            let law =
              records.get-set_keep s.token_db now (sha256 token) next t (sha256 token) later
                (ground arith) in
            ground (arith, beq_refl (sha256 token))
      ]

  fail_at-Tried :
      (read counted n : ℕ) (s : State)
      → wrong_length token ≡ false
      → read ≤ counted
      → Tried read n s
      → Tried counted (suc n) (fail_at (read, counted) s)
  unfolding fail_at get_reset_token bump_reset_attempts consume_reset_token
  fail_at-Tried read counted n s fits order tried t rec later found =
      elim (Option-cases (records.get s.token_db read (sha256 token))) [
        | inl missing ↦
            let same : records.get s.token_db t (sha256 token) ≡ some rec = ground arith in
            let earlier =
              records.get_earlier s.token_db read t (sha256 token) rec (omega (arith, order, later))
                same in
            ground arith
        | inr (old, seen) ↦
            let before = tried read old (omega arith) seen in
            elim (Bool-cases (leb max_challenge_attempts (old.attempts + 1))) [
              | inl burned ↦
                  let gone = get-del_same records s.token_db (sha256 token) t in ground arith
              | inr few ↦
                  let next : ResetToken = record { sub = old.sub; attempts = old.attempts + 1 } in
                  let same : records.get (records.set_keep s.token_db counted (sha256 token) next) t
                        (sha256 token)
                      ≡ some rec =
                    ground arith in
                  let kept = kept_record counted t next rec s later same in ground arith
            ]
      ]

  fail_each-Tried :
      (now n : ℕ) (times : List (ℕ × ℕ)) (s : State)
      → wrong_length token ≡ false
      → Ordered now times
      → Tried now n s
      → Tried (last_of now times) (n + length times) (fail_each times s)
  unfolding fail_each
  fail_each-Tried now n [] s fits order tried t rec later found =
      let bounds = tried t rec later found in (omega (arith, bounds.0), bounds.1)
  fail_each-Tried now n ((read, counted) ∷ us) s fits order tried t rec later found =
      let next =
        fail_at-Tried read counted n s fits order.1
          (λ t' rec' later'. tried t' rec' (omega (arith, order.0, later'))) in
      let bounds =
        fail_each-Tried counted (suc n) us (fail_at (read, counted) s) fits order.2 next t rec later
          found in
      (omega (arith, bounds.0), bounds.1)

  issue-Tried :
      (now : ℕ) (sub : String) (s : State)
      → Tried now 0 (issue_reset_token records texts tickets sha256 now sub token s)
  unfolding issue_reset_token
  issue-Tried now sub s t rec later found =
      let law =
        records.get-set_ex (drop_previous records texts tickets sha256 now sub s).token_db now
          (sha256 token) (record { sub = sub; attempts = 0 }) reset_ttl_seconds t (sha256 token)
          later in
      let fresh : rec.attempts ≡ 0 = ground (arith, beq_refl (sha256 token)) in
      (omega arith, omega (arith, fresh))

  -- Five wrong answers one after the other, at any instants since a link was issued, each counted before
  -- the next one reads the record, end the link: no later read finds it while nothing else writes.
  pub fail_each-burns :
      (now : ℕ) (sub : String) (times : List (ℕ × ℕ)) (s : State) (t : ℕ)
      → wrong_length token ≡ false
      → Ordered now times
      → length times ≡ max_challenge_attempts
      → last_of now times ≤ t
      → get_reset_token records texts tickets sha256 t token
          (fail_each times (issue_reset_token records texts tickets sha256 now sub token s))
        ≡ none
  unfolding get_reset_token
  fail_each-burns now sub times s t fits order five later =
      let start = issue_reset_token records texts tickets sha256 now sub token s in
      elim (Option-cases (records.get (fail_each times start).token_db t (sha256 token))) [
        | inl gone ↦ ground arith
        | inr (rec, found) ↦
            let bounds =
              fail_each-Tried now 0 times start fits order (issue-Tried now sub s) t rec later
                found in
            absurd (omega (arith, bounds.0, bounds.1, five))
      ]
