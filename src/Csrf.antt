-- ===== src/Csrf.antt =====
-- The tokens of services/csrf.py.
pub mod Slices
pub mod Tokens
pub mod Binding
pub mod Examples
