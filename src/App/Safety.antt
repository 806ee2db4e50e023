-- ===== src/App/Safety.antt =====
-- Which exceptions can end the two loops of the application: an exception in `_poll` or in
-- `_control_tick` leaves out the line that asks for the next run.
pub mod Gate
pub mod Actions
pub mod Sending
pub mod Receiving
pub mod Loops
pub mod Runs
pub mod Requests
pub mod Preparing
pub mod Stale
pub mod Stops
