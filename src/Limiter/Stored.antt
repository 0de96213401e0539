-- ===== src/Limiter/Stored.antt =====
-- A limiter over the Redis key that holds its fields; instants are milliseconds, and a script sees
-- their whole seconds.
use dreamsso.Common.{ℕ, ◌/◌, String, Bool}
use dreamsso.Redis.{Redis}
use dreamsso.Limiter.{Sends, Write, untouched, fields_set, started, fields, reserve, release}

module _ (r : Redis Sends) where
  open r use {Db, get, set_ex, set_keep}

  -- A new key lives for a window.
  abbrev pub written : ℕ → Db → ℕ → String → Write → Db
  written window db now key untouched = db
  written window db now key (fields_set s) = set_keep db now key s
  written window db now key (started s) = set_ex db now key s window

  unfoldable pub send : ℕ → ℕ → (ℕ → ℕ) → ℕ → String → Db → Db × Bool
  send window cap gap now key db =
      let answer = reserve window cap gap (now / 1000) (fields (get db now key)) in
      (written window db now key answer.1, answer.0)

  unfoldable pub give_back : ℕ → ℕ → String → Db → Db
  give_back window now key db = written window db now key (release (fields (get db now key)))
