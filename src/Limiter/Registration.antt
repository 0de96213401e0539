-- ===== src/Limiter/Registration.antt =====
-- The limiter of src/registration.ts, RESERVE_LUA and RELEASE_LUA with their callers.
use dreamsso.Common.{
  ℕ, zero, suc, ◌+◌, ◌-◌, ◌/◌, String, Bool, true, false, List, [], ◌∷◌, ltb, leb, min, max,
  if◌then◌else◌, ◌≡◌, ap, arith, Bool-cases, inl, inr,
}
use dreamsso.Redis.{Redis}
use dreamsso.Limiter.{
  Sends, Write, untouched, fields_set, started, fields, in_window, one_more, fresh_sends, reserve,
}
use dreamsso.Limiter.Stored.{written, send, give_back}

abbrev pub rl_max_sends : ℕ
rl_max_sends = 5

abbrev pub rl_window_seconds : ℕ
rl_window_seconds = 86400

abbrev pub rl_backoffs : List ℕ
rl_backoffs = 0 ∷ 60 ∷ 120 ∷ 180 ∷ 240 ∷ []

abbrev pub nth : List ℕ → ℕ → ℕ
nth [] n = 0
nth (x ∷ xs) zero = x
nth (x ∷ xs) (suc n) = nth xs n

-- `ARGV[3 + math.min(count, max - 1) + 1]`.
abbrev pub backoff : ℕ → ℕ
backoff count = nth rl_backoffs (min count (rl_max_sends - 1))

-- The script's reply.
pub data Reply : Type 0 where
  reserved : (next_backoff : ℕ) → Reply
  denied : (retry_after : ℕ) (can_retry : Bool) → Reply

abbrev pub is_reserved : Reply → Bool
is_reserved (reserved next) = true
is_reserved (denied after again) = false

pub reserve_script : ℕ → Sends → Reply × Write
reserve_script now s =
    if in_window rl_window_seconds now s
    then (if leb rl_max_sends s.count
        then (denied (s.first + rl_window_seconds - now) false, untouched)
        else if ltb now (s.last + backoff s.count)
        then (denied (s.last + backoff s.count - now) true, untouched)
        else (reserved (backoff (s.count + 1)), fields_set (one_more now s)))
    else (reserved (backoff 1), started (fresh_sends now))

-- `Math.max(1, r[1])` on a denial.
abbrev pub reservation : Reply → Reply
reservation (reserved next) = reserved next
reservation (denied after again) = denied (max 1 after) again

module _ (r : Redis Sends) (lower_case : String → String) where
  open r use {Db, get}

  unfoldable pub reserve_registration_send : ℕ → String → Db → Db × Reply
  reserve_registration_send now email db =
      let answer = reserve_script (now / 1000) (fields (get db now (lower_case email))) in
      (written r rl_window_seconds db now (lower_case email) answer.1, reservation answer.0)

  unfoldable pub release_registration_send : ℕ → String → Db → Db
  release_registration_send now email db = give_back r rl_window_seconds now (lower_case email) db

-- A script's answer in the terms of the limiter.
script_lem :
    (now : ℕ) (s : Sends)
    → ◌≡◌ {A = Bool × Write}
        (is_reserved (reservation (reserve_script now s).0), (reserve_script now s).1)
        (reserve rl_window_seconds rl_max_sends backoff now s)
unfolding reserve_script reserve
script_lem now s = elim (Bool-cases (in_window rl_window_seconds now s)) [
  | inr over ↦ ground arith
  | inl counting ↦ elim (Bool-cases (leb rl_max_sends s.count)) [
    | inl full ↦ ground arith
    | inr room ↦ elim (Bool-cases (ltb now (s.last + backoff s.count))) [
      | inl soon ↦ ground arith
      | inr late ↦ ground arith
    ]
  ]
]

module _ (r : Redis Sends) (lower_case : String → String) (now : ℕ) (email : String)
    (db : r.Db) where
  -- Reserving a send of a registration mail answers with a slot and changes the key exactly as the
  -- abstract limiter with 5 sends a day and gaps of 0, 60, 120, 180 and 240 seconds.
  pub reserve_registration_send_lem :
      ◌≡◌ {A = r.Db × Bool}
        (
          (reserve_registration_send r lower_case now email db).0,
          is_reserved (reserve_registration_send r lower_case now email db).1,
        )
        (send r rl_window_seconds rl_max_sends backoff now (lower_case email) db)
  unfolding reserve_registration_send send
  reserve_registration_send_lem =
      let same = script_lem (now / 1000) (fields (r.get db now (lower_case email))) in
      ap (λ (p : Bool × Write). (written r rl_window_seconds db now (lower_case email) p.1, p.0))
        same
