-- ===== src/Configuration.antt =====
-- client/configuration.py: the configuration files, the command line, and what they add up to.
pub mod Elements
pub mod Partial
pub mod Merge
pub mod Relative
pub mod Parse
pub mod Resolved
pub mod Create
pub mod Nested
