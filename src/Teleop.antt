-- ===== src/Teleop.antt =====
-- navigation_robot_remote_control/keyboard_teleop.py of navigation_robot_ros2: the keys, the state
-- of the `KeyboardTeleop` node, its methods, and the loop of `main`. Times are in microseconds.
pub mod Keys
pub mod Node
pub mod Loop
pub mod Bounds
pub mod Runs
pub mod Pressed
pub mod Shutdown
pub mod Locked
