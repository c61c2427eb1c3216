-- ===== src/Risk.antt =====
-- The risk of the open positions and the gate before a trade: services/risk.py and
-- services/shadow_risk_gate.py.
pub mod Floats
pub mod Snapshot
pub mod Change
pub mod Gate
pub mod Limits
