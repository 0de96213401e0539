-- ===== src/Sync/Reports/Tests.antt =====
-- A report of two roles in the wrong order.
use dreamsso.Common.{ℕ, String, false, none, some, [], ◌∷◌, ◌≡◌, refl, string_eq}
use dreamsso.Common.Int.{pos, negsuc}
use dreamsso.Common.Result.{ok}
use dreamsso.Common.Text.{trim, trim_start, trim_end, is_space}
use dreamsso.Json.{Json, number, text, array, object, nil, cons, end, field}
use dreamsso.Sync.Order.{RoleCatalog}
use dreamsso.Sync.Reports.{
  normalize_role_catalog, normalize_fields, read_catalog_roles, read_catalog_role, sort_roles,
  insert_role_by_id, take_chars,
}
use dreamsso.Sync.Reports.Normal.{IsNormal, normalize_role_catalog-IsNormal}

abbrev json_role : Json → Json → String → Json
json_role id level name =
    object (field "role_id" id (field "level" level (field "name" (text name) end)))

abbrev report : Json
report = object (
    field "roles"
      (array (
        cons (json_role (number (pos 7)) (number (pos 1)) " Viewer ")
          (cons (json_role (number (negsuc 2)) (number (pos 9)) "Root") nil)))
      (field "default_role" (number (pos 7)) end))

abbrev uuid_number : String → ℕ
uuid_number s = 0

abbrev normal_report : RoleCatalog
normal_report = record {
  roles =
      record { role_id = negsuc 2; name = "Root"; level = pos 9; is_system = false }
      ∷ record { role_id = pos 7; name = "Viewer"; level = pos 1; is_system = false }
      ∷ [];
  default_role = some (pos 7);
  site_name = none;
  version = none;
}

accepted : normalize_role_catalog uuid_number (some report) ≡ ok normal_report
unfolding normalize_fields read_catalog_roles read_catalog_role sort_roles insert_role_by_id
    take_chars trim trim_start trim_end is_space
accepted = refl

normalize_role_catalog-IsNormal_example : IsNormal normal_report
normalize_role_catalog-IsNormal_example =
    normalize_role_catalog-IsNormal uuid_number (some report) normal_report accepted
