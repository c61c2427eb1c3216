-- ===== src/Shadow.antt =====
-- services/shadow_outcome.py: what became of a shadow decision.
pub mod Evaluation
pub mod Order
pub mod Stability
pub mod Touches
pub mod Worker
pub mod Ranks
pub mod Passes
pub mod Starvation
pub mod Finality
pub mod Examples
pub mod Backlog
