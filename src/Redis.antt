-- ===== src/Redis.antt =====
-- What the program relies on of Redis: one family of keys with its values, at instants in
-- milliseconds. `GET`, `SET EX`, `SET KEEPTTL` (which is also what a change of a hash's fields does to
-- the key) and `DEL`, with the documented effect of each on later reads.
pub mod Table
pub mod Reads
use dreamsso.Common.{
  ℕ, ◌+◌, ◌*◌, ◌≤◌, String, Bool, true, Option, none, some, ◌≡◌, ◌==◌, is_some, ltb, if◌then◌else◌,
  string_eq,
}

pub record Redis (V : Type 0) : Type 1 where
  pub Db : Type 0
  pub get : Db → ℕ → String → Option V
  pub set_ex : Db → ℕ → String → V → ℕ → Db
  pub set_keep : Db → ℕ → String → V → Db
  pub del : Db → String → Db
  pub get-set_ex :
      (db : Db) (now : ℕ) (key : String) (v : V) (ttl t : ℕ) (other : String)
      → now ≤ t
      → get (set_ex db now key v ttl) t other ≡ (
          if key == other
          then (if ltb t (now + ttl * 1000) then some v else none)
          else get db t other)
  pub get-set_keep :
      (db : Db) (now : ℕ) (key : String) (v : V) (t : ℕ) (other : String)
      → now ≤ t
      → is_some (get db now key) ≡ true
      → get (set_keep db now key v) t other ≡ (
          if key == other
          then (if is_some (get db t key) then some v else none)
          else get db t other)
  pub get-set_keep_new :
      (db : Db) (now : ℕ) (key : String) (v : V) (t : ℕ) (other : String)
      → now ≤ t
      → get db now key ≡ none
      → get (set_keep db now key v) t other ≡ (if key == other then some v else get db t other)
  pub get-del :
      (db : Db) (key : String) (t : ℕ) (other : String)
      → get (del db key) t other ≡ (if key == other then none else get db t other)
  pub get_earlier :
      (db : Db) (s t : ℕ) (key : String) (v : V)
      → s ≤ t
      → get db t key ≡ some v
      → get db s key ≡ some v
