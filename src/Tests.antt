-- ===== src/Tests.antt =====
-- Concrete runs, and the theorems at concrete inputs.
mod Protocol
mod Motion
mod MotionTest
mod Link
mod Telemetry
mod Mapping
mod Emulator
mod LocalMap
mod App
mod Teleop
mod Transport
mod Launch
