-- ===== src/Tests.antt =====
-- The theorems at concrete inputs, and runs of the modelled code.
mod Data
mod Leases
mod Tasks
mod App
mod Status
mod Daemon
mod Slurm
mod Config
