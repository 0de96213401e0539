-- ===== src/Limiter/Reset.antt =====
-- The limiter of src/passwordReset.ts, RESERVE_LUA and RELEASE_LUA with their callers.
use dreamsso.Common.{
  ℕ, ◌+◌, ◌/◌, String, Bool, ltb, leb, if◌then◌else◌, ◌==◌, nat_eq, ◌≡◌, ap, arith, Bool-cases, inl,
  inr,
}
use dreamsso.Redis.{Redis}
use dreamsso.Limiter.{
  Sends, Write, untouched, fields_set, started, fields, in_window, one_more, fresh_sends, reserve,
}
use dreamsso.Limiter.Stored.{written, send, give_back}

abbrev pub reset_max_sends : ℕ
reset_max_sends = 3

abbrev pub reset_window_seconds : ℕ
reset_window_seconds = 86400

abbrev pub reset_cooldown_seconds : ℕ
reset_cooldown_seconds = 120

pub reset_script : ℕ → Sends → ℕ × Write
reset_script now s =
    if in_window reset_window_seconds now s
    then (if leb reset_max_sends s.count
        then (0, untouched)
        else if ltb now (s.last + reset_cooldown_seconds)
        then (0, untouched)
        else (1, fields_set (one_more now s)))
    else (1, started (fresh_sends now))

module _ (r : Redis Sends) (lower_case : String → String) where
  open r use {Db, get}

  unfoldable pub reserve_reset_send : ℕ → String → Db → Db × Bool
  reserve_reset_send now email db =
      let ok = reset_script (now / 1000) (fields (get db now (lower_case email))) in
      (written r reset_window_seconds db now (lower_case email) ok.1, ok.0 == 1)

  unfoldable pub release_reset_send : ℕ → String → Db → Db
  release_reset_send now email db = give_back r reset_window_seconds now (lower_case email) db

reset_script_lem :
    (now : ℕ) (s : Sends)
    → ◌≡◌ {A = Bool × Write}
        ((reset_script now s).0 == 1, (reset_script now s).1)
        (reserve reset_window_seconds reset_max_sends (λ n. reset_cooldown_seconds) now s)
unfolding reset_script reserve
reset_script_lem now s = elim (Bool-cases (in_window reset_window_seconds now s)) [
  | inr over ↦ ground arith
  | inl counting ↦ elim (Bool-cases (leb reset_max_sends s.count)) [
    | inl full ↦ ground arith
    | inr room ↦ elim (Bool-cases (ltb now (s.last + reset_cooldown_seconds))) [
      | inl soon ↦ ground arith
      | inr late ↦ ground arith
    ]
  ]
]

module _ (r : Redis Sends) (lower_case : String → String) (now : ℕ) (email : String)
    (db : r.Db) where
  -- Reserving a send of a reset link answers with a slot and changes the key exactly as the abstract
  -- limiter with 3 sends a day and a gap of 120 seconds.
  pub reserve_reset_send_lem :
      reserve_reset_send r lower_case now email db
      ≡ send r reset_window_seconds reset_max_sends
          (λ n. reset_cooldown_seconds)
          now
          (lower_case email)
          db
  unfolding reserve_reset_send send
  reserve_reset_send_lem =
      let same = reset_script_lem (now / 1000) (fields (r.get db now (lower_case email))) in
      ap (λ (p : Bool × Write). (written r reset_window_seconds db now (lower_case email) p.1, p.0))
        same
