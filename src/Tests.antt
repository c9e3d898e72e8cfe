-- ===== src/Tests.antt =====
-- The theorems at concrete inputs, and runs of the definitions.
mod Data
mod Names
mod Messages
mod Rules
mod Clock
mod Control
mod Storage
mod Events
mod Queries
