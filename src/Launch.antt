-- ===== src/Launch.antt =====
-- navigation_robot_bringup/launch/robot.launch.py of navigation_robot_ros2: from the configuration
-- and the launch arguments to the actions of the launch. Real numbers are integers in millionths.
pub mod Values
pub mod Nodes
pub mod Setup
pub mod Actions
pub mod Lock
pub mod Refusal
