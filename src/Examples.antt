-- ===== src/Examples.antt =====
-- Inputs, tests, and the properties of the other modules at those inputs.
mod Frames
mod Directories
mod Upgrades
mod Rpc
mod Roots
mod Settings
mod Sessions
mod Disks
mod Caches
mod Documents
mod Handshakes
mod Starts
mod Builds
mod Queries
mod Profiles
mod Rewrites
mod Joins
mod Runs
mod Merges
