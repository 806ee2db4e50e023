-- ===== src/Launch/Nodes.antt =====
-- robot.launch.py of navigation_robot_ros2: the arguments of the description, and the nodes that are
-- started in every mode.
use navigation_robot.Base.{ℕ, Bool, List, [], ◌∷◌, ◌++◌, Result, ok, ◌>>=◌}
use navigation_robot.Base.Int.{ℤ, pos, max_ℤ}
use navigation_robot.Base.Texts.{codes}
use navigation_robot.Launch.Values.{
  Value, flag, whole, real, text, Section, Config, item, Outside, Action, include, as_bool,
  pose_arguments,
}

-- `max(float(geometry[key]), least)`
unfoldable pub at_least : Outside → Section → List ℕ → ℤ → Result Value
unfolding item
at_least o geometry key least = do
  value ← item geometry key
  measured ← o.float value
  ok (real (max_ℤ measured least))

unfoldable pub pose : Outside → Section → List ℕ → Result (List (List ℕ × Value))
unfolding item pose_arguments
pose o geometry prefix = do
  xyz ← item geometry (prefix ++ codes "_xyz")
  rpy ← item geometry (prefix ++ codes "_rpy")
  pose_arguments o prefix xyz rpy

-- The description's launch file with its arguments.
unfoldable pub description : Outside → Section → Result Action
unfolding at_least pose
description o geometry = do
  wheel_radius ← at_least o geometry (codes "wheel_radius_m") (pos 50000)
  wheel_separation ← at_least o geometry (codes "wheel_separation_m") (pos 250000)
  share ← o.share (codes "navigation_robot_description")
  front ← at_least o geometry (codes "chassis_front_m") (pos 200000)
  rear ← at_least o geometry (codes "chassis_rear_m") (pos 100000)
  left ← at_least o geometry (codes "chassis_left_m") (pos 150000)
  right ← at_least o geometry (codes "chassis_right_m") (pos 150000)
  height ← at_least o geometry (codes "chassis_height_m") (pos 80000)
  lidar ← pose o geometry (codes "lidar")
  camera ← pose o geometry (codes "camera")
  imu ← pose o geometry (codes "imu")
  ok (
      include (o.join (o.join share (codes "launch")) (codes "description.launch.py")) (
        ((codes "wheel_radius", wheel_radius)
          ∷ (codes "wheel_separation", wheel_separation)
          ∷ (codes "chassis_front", front)
          ∷ (codes "chassis_rear", rear)
          ∷ (codes "chassis_left", left)
          ∷ (codes "chassis_right", right)
          ∷ (codes "chassis_height", height)
          ∷ [])
        ++ (lidar ++ (camera ++ imu))))

-- How a value of the configuration becomes a parameter of a node.
pub data Cast : Type 0 where
  as_it_is to_int to_float to_flag : Cast

unfoldable pub cast : Outside → Cast → Value → Result Value
unfolding as_bool
cast o as_it_is value = ok value
cast o to_int value = o.int value >>= λ n. ok (whole n)
cast o to_float value = o.float value >>= λ n. ok (real n)
cast o to_flag value = ok (flag (as_bool o value))

-- Parameters under the names of their keys.
unfoldable pub gather : Outside → Section → List (List ℕ × Cast) → Result (List (List ℕ × Value))
unfolding item cast
gather o section' [] = ok []
gather o section' ((key, how) ∷ keys) =
    let rest = gather o section' keys in
    item section' key >>= λ value.
    cast o how value >>= λ parameter. rest >>= λ parameters. ok ((key, parameter) ∷ parameters)

abbrev pub connection_keys : List (List ℕ × Cast)
connection_keys =
    (codes "transport", as_it_is)
    ∷ (codes "serial_port", as_it_is)
    ∷ (codes "baud_rate", to_int)
    ∷ (codes "tcp_host", as_it_is)
    ∷ (codes "tcp_port", to_int)
    ∷ []

abbrev pub wheel_keys : List (List ℕ × Cast)
wheel_keys = (codes "wheel_radius_m", to_float) ∷ (codes "wheel_separation_m", to_float) ∷ []

abbrev pub limit_keys : List (List ℕ × Cast)
limit_keys =
    (codes "max_rpm", to_float)
    ∷ (codes "max_linear_velocity", to_float)
    ∷ (codes "max_angular_velocity", to_float)
    ∷ []

abbrev pub period_keys : List (List ℕ × Cast)
period_keys =
    (codes "command_timeout_sec", to_float)
    ∷ (codes "keepalive_period_sec", to_float)
    ∷ (codes "imu_gyro_bias_calibration_enabled", to_flag)
    ∷ (codes "imu_gyro_bias_calibration_samples", to_int)
    ∷ (codes "imu_gyro_stationary_threshold_rad_s", to_float)
    ∷ (codes "imu_accel_norm_tolerance_m_s2", to_float)
    ∷ (codes "imu_wheel_stationary_threshold_rpm", to_float)
    ∷ []

abbrev pub frame_names : List (List ℕ × Value)
frame_names =
    (codes "odom_frame_id", text (codes "odom"))
    ∷ (codes "base_frame_id", text (codes "base_footprint"))
    ∷ (codes "imu_frame_id", text (codes "imu_link"))
    ∷ []

-- The parameters of the base driver, with its permission to move.
unfoldable pub base_parameters : Outside → Config → Bool → Result (List (List ℕ × Value))
unfolding gather
base_parameters o config motion_enabled = do
  connection ← gather o config.base connection_keys
  wheels ← gather o config.geometry wheel_keys
  limits ← gather o config.base limit_keys
  periods ← gather o config.base period_keys
  ok (
      (codes "motion_enabled", flag motion_enabled)
      ∷ (connection ++ (wheels ++ (limits ++ (periods ++ frame_names)))))

unfoldable pub lidar_parameters : Outside → Section → Result (List (List ℕ × Value))
unfolding gather
lidar_parameters o lidar = gather o lidar (
    (codes "port_name", as_it_is)
    ∷ (codes "baud_rate", to_int)
    ∷ (codes "frame_id", as_it_is)
    ∷ (codes "scan_topic", as_it_is)
    ∷ (codes "range_min", to_float)
    ∷ (codes "range_max", to_float)
    ∷ (codes "inverted", to_flag)
    ∷ (codes "scan_size", to_int)
    ∷ [])
