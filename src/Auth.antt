-- ===== src/Auth.antt =====
-- services/authentication.py: accounts, enrollments and sessions of the dashboard.
pub mod Types
pub mod Store
pub mod Accounts
pub mod Enrollment
pub mod Sessions
pub mod Administration
pub mod Calls
pub mod Changes
pub mod Blocks
pub mod Authority
pub mod Lookups
pub mod Refinement
pub mod Invariant
pub mod Revocation
pub mod Outcomes
pub mod Safety
pub mod Secrets
pub mod Ownership
pub mod Cookies
pub mod Logins
pub mod Lifetimes
pub mod Removal
pub mod Activation
pub mod Examples
