-- ===== src/Sync/Reports.antt =====
-- The reading of a client's report: `normalizeRoleCatalog` and `validateIncomingEvents` of
-- src/backchannel/rolesSync.ts. `uuid_number` stands for the number of a uuid's lower-case text, and
-- `event_digest` for `inboxDigest`, none where `canonicalJson` throws.
pub mod Sorting
pub mod Normal
mod Tests
use dreamsso.Common.{
  ℕ, zero, suc, ◌+◌, String, Bool, true, false, not, ◌&&◌, ◌||◌, Option, none, some, List, [], ◌∷◌,
  ◌==◌, map, contains, all, is_some, ltb, leb, length, if◌then◌else◌, nat_eq, string_eq,
}
use dreamsso.Common.Int.{ℤ, pos, negsuc, leb_ℤ, ltb_ℤ, int_eq}
use dreamsso.Common.Result.{Result, ok, err, ◌>>=◌, ◌>>◌, fail_if, or_fail}
use dreamsso.Common.Text.{codes, trim, utf16_length}
use dreamsso.Json.{
  Json, null, boolean, number, fractional, text, array, object, Elems, nil, cons, Fields, end, get,
}
use dreamsso.Store.{CatalogRole}
use dreamsso.Rbac.Errors.{RoleError, fail}
use dreamsso.Events.Intake.{is_uuid, parse_version}
use dreamsso.Sync.Order.{RoleCatalog}
use dreamsso.Sync.Inbox.{IncomingEvent}

abbrev pub max_events : ℕ
max_events = 100

abbrev pub max_roles : ℕ
max_roles = 500

abbrev pub in_int32 : ℤ → Bool
in_int32 z = leb_ℤ (negsuc 2147483647) z && leb_ℤ z (pos 2147483647)

abbrev pub int32 : Option Json → Option ℤ
int32 (some (number z)) = if in_int32 z then some z else none
int32 _ = none

abbrev pub is_text_code : ℕ → Bool
is_text_code c = not (c == 0) && (ltb c 0xd800 || ltb 0xdfff c)

abbrev pub valid_text : String → Bool
valid_text s = all is_text_code (codes s)

pub take_chars : ℕ → String → String
take_chars zero s = String.[]
take_chars (suc n) String.[] = String.[]
take_chars (suc n) (String.◌∷◌ c s) = String.◌∷◌ c (take_chars n s)

abbrev pub trim_name : String → String
trim_name s = take_chars 100 (trim s)

-- `value.name`, when it is a text that names something.
abbrev pub role_name : Option Json → Option String
role_name (some (text s)) = if trim s == "" || not (valid_text s) then none else some s
role_name _ = none

abbrev pub is_flag : Option Json → Bool
is_flag none = true
is_flag (some (boolean b)) = true
is_flag (some _) = false

abbrev pub is_true : Option Json → Bool
is_true (some (boolean b)) = b
is_true _ = false

unfoldable pub read_catalog_role : Json → Result RoleError CatalogRole
read_catalog_role (object fs) = do
  id ← or_fail (int32 (get "role_id" fs)) (fail 400 "invalid_role_row")
  level ← or_fail (int32 (get "level" fs)) (fail 400 "invalid_role_row")
  name ← or_fail (role_name (get "name" fs)) (fail 400 "invalid_role_row")
  fail_if (not (is_flag (get "is_system" fs))) (fail 400 "invalid_role_row")
  ok (record {
    role_id = id;
    name = trim_name name;
    level = level;
    is_system = is_true (get "is_system" fs);
  })
read_catalog_role _ = err (fail 400 "invalid_role_row")

-- In the order of the report, with the ids read before.
unfoldable pub read_catalog_roles : List ℤ → Elems → Result RoleError (List CatalogRole)
read_catalog_roles ids nil = ok []
read_catalog_roles ids (cons value rest) = do
  role ← read_catalog_role value
  fail_if (contains ids role.role_id) (fail 400 "duplicate_role_id")
  roles ← read_catalog_roles (role.role_id ∷ ids) rest
  ok (role ∷ roles)

unfoldable pub insert_role_by_id : CatalogRole → List CatalogRole → List CatalogRole
insert_role_by_id r [] = r ∷ []
insert_role_by_id r (x ∷ xs) =
    let rest = insert_role_by_id r xs in if ltb_ℤ r.role_id x.role_id then r ∷ x ∷ xs else x ∷ rest

-- `.sort((a, b) => a.role_id - b.role_id)`.
unfoldable pub sort_roles : List CatalogRole → List CatalogRole
sort_roles [] = []
sort_roles (r ∷ rs) = insert_role_by_id r (sort_roles rs)

abbrev pub role_ids : List CatalogRole → List ℤ
role_ids [] = []
role_ids (r ∷ rs) = r.role_id ∷ role_ids rs

abbrev pub elems_length : Elems → ℕ
elems_length nil = 0
elems_length (cons value rest) = suc (elems_length rest)

-- An array of at most the maximum.
abbrev pub read_elems : ℕ → Option Json → Option Elems
read_elems most (some (array es)) = if ltb most (elems_length es) then none else some es
read_elems most _ = none

abbrev pub bad_site_name : Option Json → Bool
bad_site_name (some (text s)) = not (valid_text s)
bad_site_name _ = false

abbrev pub bad_default_role : Option Json → Bool
bad_default_role none = false
bad_default_role (some null) = false
bad_default_role (some v) = not (is_some (int32 (some v)))

abbrev pub known_default : Option ℤ → List ℤ → Option ℤ
known_default none ids = none
known_default (some id) ids = if contains ids id then some id else none

abbrev pub read_site_name : Option Json → Option String
read_site_name (some (text s)) = if trim s == "" then none else some (trim_name s)
read_site_name _ = none

module _ (uuid_number : String → ℕ) where
  -- The epoch and the revision come together.
  abbrev pub read_epoch : Json → Json → Option (ℕ × ℕ)
  read_epoch (text epoch) (text revision) = elim (parse_version revision) [
    | none ↦ none
    | some n ↦ if is_uuid epoch && not (n == 0) then some (uuid_number epoch, n) else none
  ]
  read_epoch _ _ = none

  abbrev pub read_catalog_version : Option Json → Option Json → Result RoleError (Option (ℕ × ℕ))
  read_catalog_version none none = ok none
  read_catalog_version (some epoch) (some revision) = elim (read_epoch epoch revision) [
    | none ↦ err (fail 400 "invalid_catalog_version")
    | some version ↦ ok (some version)
  ]
  read_catalog_version _ _ = err (fail 400 "invalid_catalog_version")

  unfoldable pub normalize_fields : Fields → Result RoleError RoleCatalog
  normalize_fields fs = do
    elems ← or_fail (read_elems max_roles (get "roles" fs)) (fail 400 "invalid_roles")
    roles ← read_catalog_roles [] elems
    fail_if (bad_site_name (get "site_name" fs)) (fail 400 "invalid_site_name")
    fail_if (bad_default_role (get "default_role" fs)) (fail 400 "invalid_default_role")
    version ← read_catalog_version (get "catalog_epoch" fs) (get "catalog_revision" fs)
    ok (record {
      roles = sort_roles roles;
      default_role = known_default (int32 (get "default_role" fs)) (role_ids roles);
      site_name = read_site_name (get "site_name" fs);
      version = version;
    })

  abbrev pub normalize_role_catalog : Option Json → Result RoleError RoleCatalog
  normalize_role_catalog (some (object fs)) = normalize_fields fs
  normalize_role_catalog _ = err (fail 400 "invalid_roles")

  module _ (event_digest : String → Option RoleCatalog → Json → Option ℕ) where
    abbrev pub event_id : Option Json → Option String
    event_id (some (text s)) = if is_uuid s then some s else none
    event_id _ = none

    abbrev pub event_type : Option Json → Option String
    event_type (some (text s)) = if s == "" || ltb 100 (utf16_length s) then none else some s
    event_type _ = none

    -- `value.payload ?? {}`.
    abbrev pub payload_or_empty : Option Json → Json
    payload_or_empty none = object end
    payload_or_empty (some null) = object end
    payload_or_empty (some other) = other

    abbrev pub event_catalog : String → Option Json → Result RoleError (Option RoleCatalog)
    event_catalog type payload =
        if type == "roles.sync"
        then (normalize_role_catalog payload >>= λ cat. ok (some cat))
        else ok none

    pub read_event : Json → Result RoleError IncomingEvent
    read_event (object fs) = do
      id ← or_fail (event_id (get "id" fs)) (fail 400 "invalid_event_id")
      type ← or_fail (event_type (get "type" fs)) (fail 400 "invalid_event_type")
      catalog ← event_catalog type (get "payload" fs)
      digest ←
          or_fail (event_digest type catalog (payload_or_empty (get "payload" fs)))
            (fail 400 "invalid_event_payload")
      ok (record { id = uuid_number id; type = type; digest = digest; catalog = catalog })
    read_event _ = err (fail 400 "invalid_event_id")

    pub read_events : Elems → Result RoleError (List IncomingEvent)
    read_events nil = ok []
    read_events (cons value rest) = do
      event ← read_event value
      events ← read_events rest
      ok (event ∷ events)

    pub validate_incoming_events : Json → Result RoleError (List IncomingEvent)
    validate_incoming_events raw = do
      elems ← or_fail (read_elems max_events (some raw)) (fail 400 "invalid_events")
      fail_if (elems_length elems == 0) (fail 400 "invalid_events")
      read_events elems
