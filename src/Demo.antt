-- ===== src/Demo.antt =====
-- The execution of demo orders: services/demo_execution.py.
pub mod Types
pub mod Preflight
pub mod Request
pub mod Records
pub mod Service
pub mod Rows
pub mod Steps
pub mod Once
pub mod Passing
pub mod Gates
pub mod Cleared
pub mod Safety
pub mod Examples
