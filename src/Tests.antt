-- ===== src/Tests.antt =====
-- Concrete runs of the theorems.
mod Merging
mod Graphs
mod Protocols
mod Devices
mod Files
mod Updates
mod Resources
mod Locations
mod Masks
mod Members
mod Compactions
