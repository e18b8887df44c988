-- ===== src/Arbiter.antt =====
-- vehicle/safety-arbiter: the vehicle's last word on remote control. `State` has the arbiter's data,
-- `Lease`, `Command` and `Watchdog` its three entry points, `Run` their interleavings; the other
-- modules prove what holds of them.
pub mod State
pub mod Lease
pub mod Command
pub mod Watchdog
pub mod Run
pub mod Cases
pub mod Steps
pub mod Latch
pub mod Admission
pub mod Odd
pub mod Replay
