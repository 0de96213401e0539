-- ===== src/Sync/Reports/Normal.antt =====
-- What a report looks like once `normalizeRoleCatalog` of src/backchannel/rolesSync.ts accepted it.
use dreamsso.Common.{
  ℕ, ◌≤◌, String, true, false, not, Option, none, some, ◌≡◌, refl, subst, ◌∙◌, List, [], ◌∷◌, ◌==◌,
  All, contains, length, arith, Bool-cases, inl, inr, string_eq,
}
use dreamsso.Common.Int.{ℤ, int_eq}
use dreamsso.Common.Result.{ok, >>=-eq-ok, fail_if-ok, or_fail-ok, ok-injective}
use dreamsso.Json.{
  Json, null, boolean, number, fractional, text, array, object, Elems, nil, cons, get,
}
use dreamsso.Store.{CatalogRole}
use dreamsso.Sync.Order.{RoleCatalog}
use dreamsso.Sync.Reports.{
  max_roles, int32, in_int32, read_catalog_role, read_catalog_roles, role_ids, elems_length,
  read_elems, known_default, normalize_fields, normalize_role_catalog, read_catalog_version,
  bad_site_name, bad_default_role, role_name, is_flag,
}
use dreamsso.Sync.Reports.Sorting.{
  IsAscending, IsDistinct, sort_roles-contains, sort_roles-IsAscending, sort_roles-All,
  length-sort_roles,
}

abbrev pub IsInRange : CatalogRole → Type 0
IsInRange r = (in_int32 r.role_id ≡ true) × (in_int32 r.level ≡ true)

-- A normal report: sorted, no id twice, at most 500 roles, ids and levels of 32 bits, and a default that
-- is one of its roles.
pub record IsNormal (cat : RoleCatalog) : Type 0 where
  pub ascending : IsAscending cat.roles
  pub in_range : All IsInRange cat.roles
  pub few : length cat.roles ≤ max_roles
  pub default_known :
      (id : ℤ) → cat.default_role ≡ some id → contains (role_ids cat.roles) id ≡ true

int_apart : (a b : ℤ) → (a == b) ≡ (b == a)
int_apart a b = elim (Bool-cases (a == b)) [ inl same ↦ ground arith | inr other ↦ ground arith ]

int32-in_int32 : (v : Option Json) (z : ℤ) → int32 v ≡ some z → in_int32 z ≡ true
int32-in_int32 none z h = ground arith
int32-in_int32 (some null) z h = ground arith
int32-in_int32 (some (boolean b)) z h = ground arith
int32-in_int32 (some (number n)) z h = ground arith
int32-in_int32 (some fractional) z h = ground arith
int32-in_int32 (some (text s)) z h = ground arith
int32-in_int32 (some (array es)) z h = ground arith
int32-in_int32 (some (object fs)) z h = ground arith

read_catalog_role-IsInRange :
    (value : Json) (role : CatalogRole) → read_catalog_role value ≡ ok role → IsInRange role
unfolding read_catalog_role
read_catalog_role-IsInRange (object fs) role h =
    let (id, id_read, h₁) = or_fail-ok (int32 (get "role_id" fs)) _ _ h in
    let (level, level_read, h₂) = or_fail-ok (int32 (get "level" fs)) _ _ h₁ in
    let (name, name_read, h₃) = or_fail-ok (role_name (get "name" fs)) _ _ h₂ in
    let (flag, h₄) = fail_if-ok (not (is_flag (get "is_system" fs))) _ _ h₃ in
    let made = ok-injective h₄ in
    subst IsInRange made (
      int32-in_int32 (get "role_id" fs) id id_read,
      int32-in_int32 (get "level" fs) level level_read,
    )
read_catalog_role-IsInRange null role h = cc
read_catalog_role-IsInRange (boolean b) role h = cc
read_catalog_role-IsInRange (number n) role h = cc
read_catalog_role-IsInRange fractional role h = cc
read_catalog_role-IsInRange (text s) role h = cc
read_catalog_role-IsInRange (array es) role h = cc

-- What the reading of the rows tells, beside the ids read before.
pub record RowsRead (ids : List ℤ) (elems : Elems) (roles : List CatalogRole) : Type 0 where
  pub distinct : IsDistinct roles
  pub apart : All (λ r. contains ids r.role_id ≡ false) roles
  pub ranged : All IsInRange roles
  pub counted : length roles ≡ elems_length elems

not_among :
    (r : ℤ) (ids : List ℤ) (roles : List CatalogRole)
    → All (λ x. contains (r ∷ ids) x.role_id ≡ false) roles
    → (contains (role_ids roles) r ≡ false) × All (λ x. contains ids x.role_id ≡ false) roles
not_among r ids [] h = (refl, tt)
not_among r ids (x ∷ xs) h =
    let rest = not_among r ids xs h.1 in
    let here = h.0 in (ground (arith, int_apart r x.role_id), (ground arith, rest.1))

read_catalog_roles-RowsRead :
    (ids : List ℤ) (elems : Elems) (roles : List CatalogRole)
    → read_catalog_roles ids elems ≡ ok roles
    → RowsRead ids elems roles
unfolding read_catalog_roles
read_catalog_roles-RowsRead ids nil roles h =
    subst (RowsRead ids nil) (ok-injective h)
      (record { distinct = tt; apart = tt; ranged = tt; counted = refl })
read_catalog_roles-RowsRead ids (cons value rest) roles h =
    let (role, role_read, h₁) = >>=-eq-ok (read_catalog_role value) _ h in
    let (new, h₂) = fail_if-ok (contains ids role.role_id) _ _ h₁ in
    let (others, others_read, h₃) = >>=-eq-ok (read_catalog_roles (role.role_id ∷ ids) rest) _ h₂ in
    let tail = read_catalog_roles-RowsRead (role.role_id ∷ ids) rest others others_read in
    let split = not_among role.role_id ids others tail.apart in
    subst (RowsRead ids (cons value rest)) (ok-injective h₃) (record {
      distinct = (split.0, tail.distinct);
      apart = (new, split.1);
      ranged = (read_catalog_role-IsInRange value role role_read, tail.ranged);
      counted = omega (arith, tail.counted);
    })

known_default-contains :
    (found : Option ℤ) (ids : List ℤ) (id : ℤ)
    → known_default found ids ≡ some id
    → contains ids id ≡ true
known_default-contains none ids id h = ground arith
known_default-contains (some z) ids id h = ground arith

read_elems-few :
    (most : ℕ) (v : Option Json) (elems : Elems)
    → read_elems most v ≡ some elems
    → elems_length elems ≤ most
read_elems-few most none elems h = ground arith
read_elems-few most (some null) elems h = ground arith
read_elems-few most (some (boolean b)) elems h = ground arith
read_elems-few most (some (number n)) elems h = ground arith
read_elems-few most (some fractional) elems h = ground arith
read_elems-few most (some (text s)) elems h = ground arith
read_elems-few most (some (array es)) elems h = ground arith
read_elems-few most (some (object fs)) elems h = ground arith

-- Whatever a client reports: when the report is accepted, it is normal.
pub normalize_role_catalog-IsNormal :
    (uuid_number : String → ℕ) (payload : Option Json) (cat : RoleCatalog)
    → normalize_role_catalog uuid_number payload ≡ ok cat
    → IsNormal cat
unfolding normalize_fields
normalize_role_catalog-IsNormal uuid_number (some (object fs)) cat h =
    let (elems, listed, h₁) = or_fail-ok (read_elems max_roles (get "roles" fs)) _ _ h in
    let (roles, roles_read, h₂) = >>=-eq-ok (read_catalog_roles [] elems) _ h₁ in
    let (site, h₃) = fail_if-ok (bad_site_name (get "site_name" fs)) _ _ h₂ in
    let (default, h₄) = fail_if-ok (bad_default_role (get "default_role" fs)) _ _ h₃ in
    let (version, version_read, h₅) =
      >>=-eq-ok
        (read_catalog_version uuid_number (get "catalog_epoch" fs) (get "catalog_revision" fs)) _
        h₄ in
    let rows = read_catalog_roles-RowsRead [] elems roles roles_read in
    subst IsNormal (ok-injective h₅) (record {
      ascending = sort_roles-IsAscending roles rows.distinct;
      in_range = sort_roles-All IsInRange roles rows.ranged;
      few = omega (
        arith,
        length-sort_roles roles,
        rows.counted,
        read_elems-few max_roles (get "roles" fs) elems listed,
      );
      default_known = λ id known.
          sort_roles-contains roles id
          ∙ known_default-contains (int32 (get "default_role" fs)) (role_ids roles) id known;
    })
normalize_role_catalog-IsNormal uuid_number none cat h = cc
normalize_role_catalog-IsNormal uuid_number (some null) cat h = cc
normalize_role_catalog-IsNormal uuid_number (some (boolean b)) cat h = cc
normalize_role_catalog-IsNormal uuid_number (some (number n)) cat h = cc
normalize_role_catalog-IsNormal uuid_number (some fractional) cat h = cc
normalize_role_catalog-IsNormal uuid_number (some (text s)) cat h = cc
normalize_role_catalog-IsNormal uuid_number (some (array es)) cat h = cc
