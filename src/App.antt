-- ===== src/App.antt =====
-- navigation_robot/host/app.py: the state and the handlers of `MotorTestApp`. What is only shown
-- (labels, boxes, the log) is left out; what the user can set is part of the state.
pub mod State
pub mod Session
pub mod Driving
pub mod Motor
pub mod Receive
pub mod Ticks
pub mod Safety
