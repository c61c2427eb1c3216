-- ===== src/Supervisor.antt =====
-- services/supervisor.py: the processes of the API and of live collection, started, watched and
-- stopped over a registry.
pub mod Types
pub mod Commands
pub mod Trees
pub mod Identity
pub mod Start
pub mod Stop
pub mod Stopping
pub mod Monitor
pub mod Status
pub mod Descent
pub mod Reach
pub mod Pids
pub mod Owned
pub mod Ending
pub mod Spawning
pub mod Restarts
pub mod Quiet
pub mod Runs
pub mod Settled
pub mod Listing
pub mod Lock
pub mod Samples
pub mod Opened
pub mod Examples
pub mod Passes
