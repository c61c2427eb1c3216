-- ===== src/PairZone.antt =====
-- services/pair_zone_strategy.py: zones between two candles, and the trades at their edge.
pub mod Types
pub mod Detection
pub mod Life
pub mod Coverage
pub mod Decision
pub mod Evaluation
pub mod Verdicts
pub mod Lifecycles
pub mod Candidates
pub mod Surveys
pub mod Signals
pub mod Once
pub mod Reports
pub mod Examples
