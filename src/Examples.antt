-- ===== src/Examples.antt =====
-- Runs of the modelled code on concrete inputs.
mod MemoryLimits
mod Limits
mod Ids
mod Groups
mod Reports
mod Priorities
mod Attributes
mod Opens
mod Clones
mod Files
mod Vectors
mod Copies
mod Spaces
mod Dentries
mod Starts
mod Trees
