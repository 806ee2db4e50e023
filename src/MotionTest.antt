-- ===== src/MotionTest.antt =====
-- navigation_robot_ros2/scripts/test_real_base_motion.py: the motion test of the real base with raised
-- wheels. Times are in microseconds, speeds in millionths of a radian or of a metre per second.
pub mod Samples
pub mod Node
pub mod Stages
pub mod Braking
pub mod Stopping
pub mod Reading
pub mod Legible
