-- ===== src/Mfa/Steps.antt =====
-- A time step of src/mfa.ts is accepted once.
use dreamsso.Common.{
  ℕ, ◌+◌, ◌*◌, ◌≤◌, ◌<◌, String, true, false, Option, some, List, [], ◌∷◌, ◌≡◌, sym, subst, ◌==◌,
  ltb, string_eq, arith, Bool-cases, inl, inr, beq_refl,
}
use text.Mathlib.TextEquality.{eq_iff}
use dreamsso.Redis.{Redis}
use dreamsso.Mfa.{claim_totp_step, totp_step_ttl, last_step}

-- A claim at an instant: of which credential, and which step.
pub record Claim : Type 0 where
  pub at : ℕ
  pub credential : String
  pub step : ℕ

module _ (steps : Redis ℕ) where
  unfoldable pub run_claims : List Claim → steps.Db → steps.Db
  run_claims [] db = db
  run_claims (c ∷ cs) db = run_claims cs (claim_totp_step steps c.at c.credential c.step db).0

  -- Claims in the order of time, from an instant on and before another.
  abbrev pub InSpan : ℕ → ℕ → List Claim → Type 0
  InSpan now end [] = now ≤ end
  InSpan now end (c ∷ cs) = (now ≤ c.at) × InSpan c.at end cs

  -- Up to an instant, the credential's last step reads as this one or a later one.
  abbrev Held : ℕ → ℕ → String → ℕ → steps.Db → Type 0
  Held now end id step db = (t : ℕ) → now ≤ t → t < end → step ≤ last_step (steps.get db t id)

  claim-Held :
      (now t end : ℕ) (id : String) (step : ℕ) (c : String) (n : ℕ) (db : steps.Db)
      → now ≤ t
      → end ≤ t + totp_step_ttl * 1000
      → Held now end id step db
      → Held t end id step (claim_totp_step steps t c n db).0
  unfolding claim_totp_step
  claim-Held now t end id step c n db later soon held u after before =
      let law = steps.get-set_ex db t c n totp_step_ttl u id after in
      let here = held t later (omega (arith, after, before)) in
      let there = held u (omega (arith, later, after)) before in
      elim (Bool-cases (ltb (last_step (steps.get db t c)) n)) [
        | inr refused ↦ ground arith
        | inl granted ↦ elim (Bool-cases (c == id)) [
          | inr other ↦
              let read : steps.get (steps.set_ex db t c n totp_step_ttl) u id ≡ steps.get db u id =
                ground arith in
              ground arith
          | inl same ↦
              let names = (eq_iff c id).0 same in
              let read : steps.get (steps.set_ex db t c n totp_step_ttl) u id ≡ some n =
                ground arith in
              let here_c = subst (λ k. step ≤ last_step (steps.get db t k)) (sym names) here in
              let newer : step ≤ n = ground arith in ground arith
        ]
      ]

  run_claims-Held :
      (now later end : ℕ) (id : String) (step : ℕ) (cs : List Claim) (db : steps.Db)
      → InSpan now later cs
      → end ≤ now + totp_step_ttl * 1000
      → Held now end id step db
      → Held later end id step (run_claims cs db)
  unfolding run_claims
  run_claims-Held now later end id step [] db order soon held t after before =
      held t (omega (arith, order, after)) before
  run_claims-Held now later end id step (c ∷ cs) db order soon held t after before =
      run_claims-Held c.at later end id step cs
        (claim_totp_step steps c.at c.credential c.step db).0 order.1 (omega (arith, soon, order.0))
        (claim-Held now c.at end id step c.credential c.step db order.0
          (omega (arith, soon, order.0)) held)
        t after before

  claimed-Held :
      (t : ℕ) (id : String) (step : ℕ) (db : steps.Db)
      → (claim_totp_step steps t id step db).1 ≡ true
      → Held t (t + totp_step_ttl * 1000) id step (claim_totp_step steps t id step db).0
  unfolding claim_totp_step
  claimed-Held t id step db granted u after before =
      elim (Bool-cases (ltb (last_step (steps.get db t id)) step)) [
        | inr refused ↦ ground arith
        | inl newer ↦
            let law = steps.get-set_ex db t id step totp_step_ttl u id after in
            let read : steps.get (steps.set_ex db t id step totp_step_ttl) u id ≡ some step =
              ground (arith, beq_refl id) in
            ground arith
      ]

  -- When a code is valid only from a period before its time step to a period after it: a credential's
  -- time step that was accepted is never accepted again, nor an earlier one, whatever is claimed in
  -- between and however long the wait.
  pub claim_totp_step_once :
      (verify : String → String → ℕ → Option ℕ) (secret code code' id : String) (t later n m : ℕ)
      (cs : List Claim) (db : steps.Db)
      → ((key text : String) (u step : ℕ)
          → verify key text u ≡ some step
          → (step * 30000 ≤ u + 30000) × (u < step * 30000 + 60000))
      → verify secret code t ≡ some n
      → (claim_totp_step steps t id n db).1 ≡ true
      → InSpan t later cs
      → verify secret code' later ≡ some m
      → m ≤ n
      → (claim_totp_step steps later id m (run_claims cs (claim_totp_step steps t id n db).0)).1
        ≡ false
  unfolding claim_totp_step
  claim_totp_step_once verify secret code code' id t later n m cs db near first granted order again
        older =
      let early = near secret code t n first in
      let late = near secret code' later m again in
      let held =
        run_claims-Held t later (t + totp_step_ttl * 1000) id n cs
          (claim_totp_step steps t id n db).0 order (omega arith) (claimed-Held t id n db granted)
          later (omega arith) (omega (arith, early.0, late.1, older)) in
      ground arith
