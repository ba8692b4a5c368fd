-- ===== src/Tests.antt =====
-- Concrete runs of the models, and the theorems at concrete inputs.
mod Captures
mod Registries
mod Limits
mod Diffs
mod Access
mod Work
mod Addresses
mod Watchers
mod Ceilings
mod Disks
mod Hosts
mod Matches
mod Windows
