-- ===== src/Authz.antt =====
-- internal/authz: the pure authorization evaluator of the admin plane.
pub mod Catalog
pub mod Evaluator
pub mod Display
pub mod Privilege
mod Samples
pub mod Scopes
pub mod Construction
pub mod Capability
