-- ===== src/Examples.antt =====
-- The theorems at concrete inputs: a small machine, and one example per theorem.
pub mod World
pub mod Memory
pub mod Transfers
pub mod Control
pub mod Commands
pub mod Kernels
pub mod Requests
pub mod Sessions
pub mod Submissions
pub mod Programs
pub mod Simulations
pub mod Host
