-- ===== src/Rbac/Errors.antt =====
-- `RoleAccessError` of src/rbac/roleAdministration.ts, and the plain errors that a role transaction
-- throws. The `item` and `permission` details of a refusal are left out.
use dreamsso.Common.{ℕ, String, List}

pub data RoleError : Type 0 where
  fail : (status : ℕ) (error : String) → RoleError
  field_error : (status : ℕ) (fields : List String) → RoleError
  internal : (message : String) → RoleError
