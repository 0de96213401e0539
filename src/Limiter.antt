-- ===== src/Limiter.antt =====
-- Send limiters kept in Redis: the abstract limiter here, the scripts of src/registration.ts and
-- src/passwordReset.ts in the children. Instants are whole seconds. A hash that is missing, or a field
-- of it, counts as 0.
pub mod Stored
pub mod Capped
pub mod Registration
pub mod Reset
pub mod Daily
mod Tests
use dreamsso.Common.{
  ℕ, suc, ◌+◌, ◌-◌, Bool, true, false, ◌&&◌, ◌||◌, Option, none, some, ltb, leb, if◌then◌else◌,
}

-- The fields of the hash.
pub record Sends : Type 0 where
  pub first : ℕ
  pub count : ℕ
  pub last : ℕ

abbrev pub no_sends : Sends
no_sends = record { first = 0; count = 0; last = 0 }

abbrev pub fields : Option Sends → Sends
fields none = no_sends
fields (some s) = s

-- What a script leaves of the key: nothing new, changed fields, or a new key with a new life.
pub data Write : Type 0 where
  untouched : Write
  fields_set : Sends → Write
  started : Sends → Write

abbrev pub fresh_sends : ℕ → Sends
fresh_sends now = record { first = now; count = 1; last = now }

-- `count > 0 and (now - first) < win`.
abbrev pub in_window : ℕ → ℕ → Sends → Bool
in_window window now s = ltb 0 s.count && ltb now (s.first + window)

abbrev pub one_more : ℕ → Sends → Sends
one_more now s = record s { count = s.count + 1; last = now }

-- The limiter that both scripts are: at most `cap` sends in a window, and `gap n` seconds after the
-- last one when there have been n.
module _ (window cap : ℕ) (gap : ℕ → ℕ) where
  pub reserve : ℕ → Sends → Bool × Write
  reserve now s =
      if in_window window now s
      then (if leb cap s.count || ltb now (s.last + gap s.count)
          then (false, untouched)
          else (true, fields_set (one_more now s)))
      else (true, started (fresh_sends now))

-- `HINCRBY -1`, no less than 0, and `HDEL last`.
pub release : Sends → Write
release s = fields_set (record s { count = s.count - 1; last = 0 })
