-- ===== src/Examples.antt =====
-- Tests, and the theorems at concrete inputs.
mod Correlation
mod Policy
mod Rules
mod Incidents
mod Entities
mod Access
mod Lists
mod Parsing
mod Operations
