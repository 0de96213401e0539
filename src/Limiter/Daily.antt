-- ===== src/Limiter/Daily.antt =====
-- How many mails the two senders of src/registration.ts and src/passwordReset.ts let through in a day.
use dreamsso.Common.{
  ℕ, suc, ◌+◌, ◌/◌, ◌≤◌, String, Bool, none, List, [], ◌∷◌, ◌≡◌, refl, sym, ap, subst, ◌∙◌,
  if◌then◌else◌, arith,
}
use dreamsso.Redis.{Redis}
use dreamsso.Limiter.{Sends}
use dreamsso.Limiter.Stored.{send, give_back}
use dreamsso.Limiter.Capped.{Call, Tally, reserve_at, release_at, InOrder, run, run_capped}
use dreamsso.Limiter.Registration.{
  rl_window_seconds, rl_max_sends, backoff, is_reserved, reserve_registration_send,
  release_registration_send, reserve_registration_send_lem,
}
use dreamsso.Limiter.Reset.{
  reset_window_seconds, reset_max_sends, reset_cooldown_seconds, reserve_reset_send,
  release_reset_send, reserve_reset_send_lem,
}

module _ (r : Redis Sends) (lower_case : String → String) (email : String) where
  open r use {Db, get}

  -- Calls by their instants: which of the reservations are granted, and the releases.
  unfoldable pub mail_run : (ℕ → Db → Db × Bool) → (ℕ → Db → Db) → List Call → Db → Tally
  mail_run reserve_one release_one [] db = record { granted = 0; released = 0 }
  mail_run reserve_one release_one (reserve_at t ∷ calls) db =
      let answer = reserve_one t db in
      let rest = mail_run reserve_one release_one calls answer.0 in
      if answer.1 then record rest { granted = suc rest.granted } else rest
  mail_run reserve_one release_one (release_at t ∷ calls) db =
      let rest = mail_run reserve_one release_one calls (release_one t db) in
      record rest { released = suc rest.released }

  abbrev pub registration_sends : List Call → Db → Tally
  registration_sends =
      mail_run
        (λ now db.
          let answer = reserve_registration_send r lower_case now email db in
          (answer.0, is_reserved answer.1))
        (λ now db. release_registration_send r lower_case now email db)

  abbrev pub reset_sends : List Call → Db → Tally
  reset_sends =
      mail_run (λ now db. reserve_reset_send r lower_case now email db)
        (λ now db. release_reset_send r lower_case now email db)

  mail_run-run :
      (window cap : ℕ) (gap : ℕ → ℕ) (reserve_one : ℕ → Db → Db × Bool) (release_one : ℕ → Db → Db)
      (calls : List Call) (db : Db)
      → ((t : ℕ) (d : Db) → reserve_one t d ≡ send r window cap gap t (lower_case email) d)
      → ((t : ℕ) (d : Db) → release_one t d ≡ give_back r window t (lower_case email) d)
      → mail_run reserve_one release_one calls db ≡ run r window cap gap (lower_case email) calls db
  unfolding mail_run run
  mail_run-run window cap gap reserve_one release_one [] db reserves releases = refl
  mail_run-run window cap gap reserve_one release_one (reserve_at t ∷ calls) db reserves releases =
      let step : (Db × Bool → Tally) = λ answer.
        (let rest = mail_run reserve_one release_one calls answer.0 in
          if answer.1 then record rest { granted = suc rest.granted } else rest) in
      let answer = send r window cap gap t (lower_case email) db in
      let rest =
        mail_run-run window cap gap reserve_one release_one calls answer.0 reserves releases in
      ap step (reserves t db)
      ∙ ap
          (λ (tally : Tally).
            if answer.1 then record tally { granted = suc tally.granted } else tally)
          rest
  mail_run-run window cap gap reserve_one release_one (release_at t ∷ calls) db reserves releases =
      let step : (Db → Tally) = λ d.
        (let rest = mail_run reserve_one release_one calls d in
          record rest { released = suc rest.released }) in
      let rest =
        mail_run-run window cap gap reserve_one release_one calls
          (give_back r window t (lower_case email) db) reserves releases in
      ap step (releases t db)
      ∙ ap (λ (tally : Tally). record tally { released = suc tally.released }) rest

  -- Whatever calls arrive, in the order of time, within a day from an instant at which the address has
  -- no record: at most 5 registration mails and 3 reset mails are let through, but for the slots that
  -- were given back after a failed send.
  pub sends_per_day :
      (now : ℕ) (db : Db) (calls : List Call)
      → get db now (lower_case email) ≡ none
      → InOrder 86400 (now / 1000) now calls
      → ((registration_sends calls db).granted ≤ 5 + (registration_sends calls db).released)
        × ((reset_sends calls db).granted ≤ 3 + (reset_sends calls db).released)
  unfolding release_registration_send release_reset_send
  sends_per_day now db calls empty order =
      let registration =
        mail_run-run rl_window_seconds rl_max_sends backoff
          (λ t d.
            let answer = reserve_registration_send r lower_case t email d in
            (answer.0, is_reserved answer.1))
          (λ t d. release_registration_send r lower_case t email d) calls db
          (λ t d. reserve_registration_send_lem r lower_case t email d) (λ t d. refl) in
      let reset =
        mail_run-run reset_window_seconds reset_max_sends (λ n. reset_cooldown_seconds)
          (λ t d. reserve_reset_send r lower_case t email d)
          (λ t d. release_reset_send r lower_case t email d) calls db
          (λ t d. reserve_reset_send_lem r lower_case t email d) (λ t d. refl) in
      (
        subst (λ (tally : Tally). tally.granted ≤ 5 + tally.released) (sym registration)
            (run_capped r 86400 5 backoff (lower_case email) (omega arith) now db calls empty
              order),
        subst (λ (tally : Tally). tally.granted ≤ 3 + tally.released) (sym reset)
            (run_capped r 86400 3 (λ n. reset_cooldown_seconds) (lower_case email) (omega arith) now
              db calls empty order),
      )
