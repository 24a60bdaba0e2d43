-- ===== src/Samples.antt =====
-- The theorems at concrete inputs.
pub mod Models
pub mod Values
pub mod Commands
pub mod Plans
pub mod Secrets
pub mod Machines
pub mod Benchmarks
pub mod Queues
pub mod Deployments
pub mod Requests
pub mod Bootstraps
