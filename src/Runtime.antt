-- ===== src/Runtime.antt =====
-- events/bus.py, services/control_ipc.py and services/worker_health.py: what the parts of the
-- program tell one another.
pub mod Bus
pub mod Ipc
pub mod Health
pub mod Examples
