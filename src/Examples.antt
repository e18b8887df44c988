-- ===== src/Examples.antt =====
-- The theorems at concrete inputs, and runs of the operations.
mod World
mod Vehicle
mod Control
mod Fleet
mod Enrolment
mod Telemetry
mod Api
mod Operators
mod Maps
