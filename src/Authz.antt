-- ===== src/Authz.antt =====
-- Authorization: authz/permissions.py, authz/deps.py and policy/actor.py.
pub mod Permissions
pub mod Roles
pub mod Access
pub mod CaseAccess
pub mod Credentials
mod Tests
