-- ===== src/Settings.antt =====
-- The settings cache of src/settings.ts, for one key of one process. A call that waits for the database
-- is several steps: a read begins, its SELECT sees the table, it ends; a write commits, then invalidates
-- and fills the cache. Reads are told apart by numbers; instants are milliseconds.
pub mod Fresh
mod Tests
use dreamsso.Common.{
  ℕ, suc, ◌+◌, String, Bool, true, false, ◌&&◌, not, Option, none, some, ◌==◌, ltb, is_some,
  if◌then◌else◌, nat_eq, string_eq,
}

abbrev pub ttl_ms : ℕ
ttl_ms = 5000

-- A cached value (null for a missing row) and when it was cached.
pub record Cached : Type 0 where
  pub v : Option String
  pub at : ℕ

-- A read that has begun: the version it saw, and what its SELECT gave, once it has run.
pub record Reading : Type 0 where
  pub version : ℕ
  pub selected : Option (Option String)

-- `committed`: a write whose statement has run and whose invalidation has not.
pub record SettingState : Type 0 where
  pub stored : Option String
  pub cached : Option Cached
  pub version : ℕ
  pub reading : ℕ → Option Reading
  pub committed : Option (Option String)

abbrev pub cache_hit : ℕ → Option Cached → Option (Option String)
cache_hit now none = none
cache_hit now (some hit) = if ltb now (hit.at + ttl_ms) then some hit.v else none

-- `value == null || value === ''` is a deletion.
abbrev pub normal : Option String → Option String
normal none = none
normal (some s) = if s == "" then none else some s

abbrev pub set_reading : ℕ → Option Reading → (ℕ → Option Reading) → ℕ → Option Reading
set_reading id r readings other = if id == other then r else readings other

unfoldable pub begin_read : ℕ → SettingState → SettingState
begin_read id s = record s {
  reading = set_reading id (some (record { version = s.version; selected = none })) s.reading;
}

unfoldable pub select_read : ℕ → Reading → SettingState → SettingState
select_read id r s = record s {
  reading = set_reading id (some (record r { selected = some s.stored })) s.reading;
}

-- A read that began before an invalidation does not fill the cache.
unfoldable pub end_read : ℕ → ℕ → Reading → Option String → SettingState → SettingState
end_read now id r v s = record s {
  cached = if s.version == r.version then some (record { v = v; at = now }) else s.cached;
  reading = set_reading id none s.reading;
}

unfoldable pub commit_write : Option String → SettingState → SettingState
commit_write value s = record s { stored = normal value; committed = some (normal value) }

-- `invalidateSettingCache`.
unfoldable pub invalidate : SettingState → SettingState
invalidate s = record s { cached = none; version = s.version + 1 }

unfoldable pub end_write : ℕ → Option String → SettingState → SettingState
end_write now value s = record (invalidate s) {
  cached = some (record { v = normal value; at = now });
  committed = none;
}

-- The end of a transaction that committed the setting through its own connection.
unfoldable pub end_transaction : SettingState → SettingState
end_transaction s = record (invalidate s) { committed = none }

-- What the callers make of a raw value.
pub get_setting : Option String → Option String → Option String
get_setting raw fallback = elim (normal raw) [ none ↦ fallback | some v ↦ some v ]

pub has_setting : Option String → Bool
has_setting raw = is_some raw

-- `strip` gives the sealed text of a value with the prefix `enc:v1:`; `unseal` stands for openSecret.
pub get_secret_setting :
    (String → Option String) → (String → Option String) → Option String → Option String
get_secret_setting strip unseal raw = elim (normal raw) [
  | none ↦ none
  | some v ↦ elim (strip v) [ none ↦ none | some text ↦ unseal text ]
]
