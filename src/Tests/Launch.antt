-- ===== src/Tests/Launch.antt =====
-- The theorems on the launch of the robot at a concrete configuration.
use navigation_robot.Base.{ℕ, true, false, List, [], ◌∷◌, ◌++◌, refl, Result, ok, err, value_error}
use navigation_robot.Base.Int.{ℤ, pos, ◌*ℤ◌}
use navigation_robot.Base.Texts.{codes}
use navigation_robot.Launch.Values.{
  Value, flag, whole, real, text, list, no_value, with_value, Config, Outside, Action, log_info,
  shutdown, Reason, item, get, as_bool, pose_arguments, advanced_file, invalid_mode,
}
use navigation_robot.Launch.Nodes.{
  description, at_least, pose, cast, gather, base_parameters, lidar_parameters,
}
use navigation_robot.Launch.Setup.{
  Arguments, camera_actions, mode_by, switch, is_measured, all_measured, common_actions,
  mode_actions, start_all, is_enabled, may_move, is_locked, lacks_map, unless_lacking,
  unless_locked, setup_mode, setup_known, setup_config, setup_found, launch_setup,
}
use navigation_robot.Launch.Actions.{moves}
use navigation_robot.Launch.Refusal.{AnyPermitted, launch_setup-IsPermitted, launch_setup-refused}

abbrev zeros : Value
zeros =
    list (
      with_value (whole (pos 0)) (with_value (whole (pos 0)) (with_value (whole (pos 0)) no_value)))

abbrev config : Config
config = record {
  system =
      (codes "operation_mode", text (codes "mapping"))
      ∷ (codes "motion_enabled", flag true)
      ∷ (codes "use_camera", flag true)
      ∷ (codes "use_rviz", text (codes "no"))
      ∷ [];
  geometry =
      (codes "wheel_radius_m", real (pos 50000))
      ∷ (codes "wheel_separation_m", real (pos 250000))
      ∷ (codes "chassis_front_m", real (pos 200000))
      ∷ (codes "chassis_rear_m", real (pos 100000))
      ∷ (codes "chassis_left_m", real (pos 150000))
      ∷ (codes "chassis_right_m", real (pos 150000))
      ∷ (codes "chassis_height_m", real (pos 80000))
      ∷ (codes "lidar_xyz", zeros)
      ∷ (codes "lidar_rpy", zeros)
      ∷ (codes "camera_xyz", zeros)
      ∷ (codes "camera_rpy", zeros)
      ∷ (codes "imu_xyz", zeros)
      ∷ (codes "imu_rpy", zeros)
      ∷ [];
  base =
      (codes "transport", text (codes "serial"))
      ∷ (codes "serial_port", text (codes "/dev/ttyUSB0"))
      ∷ (codes "baud_rate", whole (pos 115200))
      ∷ (codes "tcp_host", text (codes "10.0.0.2"))
      ∷ (codes "tcp_port", whole (pos 3333))
      ∷ (codes "max_rpm", whole (pos 125))
      ∷ (codes "max_linear_velocity", real (pos 654500))
      ∷ (codes "max_angular_velocity", real (pos 5236000))
      ∷ (codes "command_timeout_sec", real (pos 300000))
      ∷ (codes "keepalive_period_sec", real (pos 80000))
      ∷ (codes "imu_gyro_bias_calibration_enabled", flag true)
      ∷ (codes "imu_gyro_bias_calibration_samples", whole (pos 200))
      ∷ (codes "imu_gyro_stationary_threshold_rad_s", real (pos 50000))
      ∷ (codes "imu_accel_norm_tolerance_m_s2", real (pos 500000))
      ∷ (codes "imu_wheel_stationary_threshold_rpm", whole (pos 1))
      ∷ [];
  lidar =
      (codes "port_name", text (codes "/dev/ttyUSB1"))
      ∷ (codes "baud_rate", whole (pos 230400))
      ∷ (codes "frame_id", text (codes "laser"))
      ∷ (codes "scan_topic", text (codes "scan"))
      ∷ (codes "range_min", real (pos 50000))
      ∷ (codes "range_max", whole (pos 12))
      ∷ (codes "inverted", flag false)
      ∷ (codes "scan_size", whole (pos 450))
      ∷ [];
  camera = [];
  navigation = [];
}

abbrev number_of : Value → Result ℤ
number_of (real n) = ok n
number_of (whole n) = ok (n *ℤ pos 1000000)
number_of _ = err value_error

abbrev whole_of : Value → Result ℤ
whole_of (whole n) = ok n
whole_of _ = err value_error

abbrev text_of : Value → List ℕ
text_of (text s) = s
text_of (flag true) = codes "True"
text_of _ = []

-- A machine on which every package is installed and every file is there.
abbrev outside : Outside
outside = record {
  float = number_of;
  int = whole_of;
  str = text_of;
  expanduser = λ name. name;
  is_file = λ name. true;
  join = λ left right. left ++ (codes "/" ++ right);
  share = λ name. ok (codes "/opt/" ++ name);
  load = λ name. ok config;
}

abbrev arguments_for : List ℕ → Arguments
arguments_for mode = record {
  config_file = codes "robot_config.yaml";
  operation_mode = mode;
  use_camera = [];
  use_rviz = [];
}

abbrev actions_of : Result (List Action) → List Action
actions_of (ok actions) = actions
actions_of (err raised) = []

launch_setup-IsPermitted_example : AnyPermitted outside (arguments_for [])
unfolding launch_setup setup_found setup_config mode_by get setup_known switch item as_bool
    setup_mode all_measured is_measured is_locked is_enabled unless_locked lacks_map unless_lacking
    may_move start_all common_actions description at_least pose pose_arguments base_parameters
    gather cast lidar_parameters advanced_file camera_actions mode_actions ◌*ℤ◌ moves
launch_setup-IsPermitted_example =
    launch_setup-IsPermitted outside (arguments_for [])
      (actions_of (launch_setup outside (arguments_for []))) refl refl

launch_setup-refused_example :
    (reason : Reason) × (Path
      (List Action)
      (log_info ∷ shutdown invalid_mode ∷ [])
      (log_info ∷ shutdown reason ∷ []))
unfolding launch_setup setup_found setup_config mode_by setup_known
launch_setup-refused_example =
    launch_setup-refused outside (arguments_for (codes "drive"))
      (log_info ∷ shutdown invalid_mode ∷ []) refl refl
