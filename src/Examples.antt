-- ===== src/Examples.antt =====
-- Runs at concrete inputs.
pub mod World
mod Life
mod Start
mod Stale
mod Adapters
mod Copies
mod Failed
mod Steady
mod Steps
mod Vnc
mod Ready
mod Devices
