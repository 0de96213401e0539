-- ===== src/Rbac.antt =====
-- Roles and permissions: the code under src/rbac.
pub mod Level
pub mod Catalog
pub mod AppRoles
pub mod Authz
pub mod Patterns
pub mod Errors
pub mod Changes
pub mod Administration
mod Tests
