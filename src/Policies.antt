-- ===== src/Policies.antt =====
-- config/remote_read_only_policy.py and config/csrf_policy.py: which requests may pass.
pub mod Paths
pub mod Routes
pub mod Boundary
pub mod Mutations
pub mod Origins
pub mod Separation
pub mod Treatment
pub mod Examples
