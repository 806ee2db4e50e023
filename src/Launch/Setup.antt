-- ===== src/Launch/Setup.antt =====
-- robot.launch.py of navigation_robot_ros2: `_camera_actions` and `_launch_setup`.
use navigation_robot.Base.{
  ℕ, Bool, true, false, not, ◌||◌, List, [], ◌∷◌, ◌++◌, if◌then◌else◌, Result, ok, err, ◌>>=◌,
}
use navigation_robot.Base.Int.{pos, ltb_ℤ}
use navigation_robot.Base.Texts.{codes, eq_text, lower}
use navigation_robot.Launch.Values.{
  Value, null, flag, real, text, Section, Config, item, get, Outside, Action, log_info, shutdown,
  include, node, activate_base, configure_base, missing_config, invalid_mode, motion_lock,
  missing_map, lidar_node, ekf_node, base_node, strip, as_bool, is_true, path, advanced_file,
  Reason,
}
use navigation_robot.Launch.Nodes.{description, base_parameters, lidar_parameters}

-- The launch arguments.
pub record Arguments : Type 0 where
  pub config_file : List ℕ
  pub operation_mode : List ℕ
  pub use_camera : List ℕ
  pub use_rviz : List ℕ

-- `value == 'text'`
abbrev pub is_text : Value → List ℕ → Bool
is_text (text s) t = eq_text s t
is_text _ t = false

-- `str(value).lower()`
abbrev pub shown : Outside → Value → Value
shown o value = text (lower (o.str value))

-- The arguments of both camera drivers.
abbrev pub camera_arguments : Outside → Section → List (List ℕ × Value)
camera_arguments o camera =
    (codes "camera_name", get camera (codes "camera_name") (text (codes "front_camera")))
    ∷ (codes "enable_color", shown o (get camera (codes "enable_color") (flag true)))
    ∷ (codes "enable_depth", shown o (get camera (codes "enable_depth") (flag true)))
    ∷ (codes "enable_point_cloud", shown o (get camera (codes "enable_point_cloud") (flag false)))
    ∷ []

-- A package that is not installed leaves a warning; a launch file whose name is no text raises.
abbrev pub camera_by :
    Outside → Result (List ℕ) → Value → List (List ℕ × Value) → Result (List Action)
camera_by o (err missing) launch_file arguments = ok (log_info ∷ [])
camera_by o (ok share) launch_file arguments = do
  name ← path launch_file
  ok (include (o.join (o.join share (codes "launch")) name) arguments ∷ [])

-- `_camera_actions`
unfoldable pub camera_actions : Outside → Section → Result (List Action)
unfolding get
camera_actions o camera =
    let driver = get camera (codes "driver") (text (codes "pending")) in
    let launch_file = get camera (codes "launch_file") (text []) in
    if is_text driver (codes "pending") || not (is_true launch_file)
    then ok (log_info ∷ [])
    else if is_text driver (codes "orbbec")
    then camera_by o (o.share (codes "orbbec_camera")) launch_file (
        camera_arguments o camera
        ++ ((codes "enable_colored_point_cloud", text (codes "false")) ∷ []))
    else if is_text driver (codes "astra")
    then camera_by o (o.share (codes "astra_camera")) launch_file (camera_arguments o camera)
    else ok (log_info ∷ [])

abbrev pub mode_sensors : List ℕ
mode_sensors = codes "sensors"

-- `mode_override or system.get('operation_mode', 'sensors')`
unfoldable pub mode_by : List ℕ → Section → Value
unfolding get
mode_by [] system = get system (codes "operation_mode") (text mode_sensors)
mode_by (c ∷ mode) system = text (c ∷ mode)

abbrev pub is_mode : Value → Bool
is_mode mode =
    is_text mode mode_sensors || is_text mode (codes "mapping") || is_text mode (codes "navigation")

-- An override that is empty leaves the value of the configuration.
unfoldable pub switch : Outside → List ℕ → Section → List ℕ → Result Bool
unfolding as_bool item
switch o [] system key = item system key >>= λ value. ok (as_bool o value)
switch o (c ∷ override) system key = ok (as_bool o (text (c ∷ override)))

abbrev pub measured_keys : List (List ℕ)
measured_keys =
    codes "wheel_radius_m"
    ∷ codes "wheel_separation_m"
    ∷ codes "chassis_front_m"
    ∷ codes "chassis_rear_m"
    ∷ codes "chassis_left_m"
    ∷ codes "chassis_right_m"
    ∷ []

unfoldable pub is_measured : Outside → Section → List ℕ → Result Bool
unfolding get
is_measured o geometry key =
    o.float (get geometry key (real (pos 0))) >>= λ value. ok (ltb_ℤ (pos 0) value)

-- `all`, which ends at the first value that fails.
abbrev pub all_measured : Outside → Section → List (List ℕ) → Result Bool
all_measured o geometry [] = ok true
all_measured o geometry (key ∷ keys) =
    let rest = all_measured o geometry keys in
    is_measured o geometry key >>= λ ready. if ready then rest else ok false

-- What is started in a mode that was let through, up to the camera.
unfoldable pub common_actions : Outside → Config → Bool → Result (List Action)
unfolding description base_parameters lidar_parameters advanced_file get
common_actions o config motion_enabled = do
  described ← description o config.geometry
  base ← base_parameters o config motion_enabled
  lidar ← lidar_parameters o config.lidar
  ekf ← advanced_file o (get config.navigation (codes "ekf_params_file") null) (codes "ekf.yaml")
  ok (
      log_info
      ∷ described
      ∷ node base_node base
      ∷ activate_base
      ∷ configure_base
      ∷ node lidar_node lidar
      ∷ node ekf_node ((codes "parameters", text ekf) ∷ [])
      ∷ [])

abbrev pub included : Outside → List ℕ → List ℕ → List (List ℕ × Value) → Action
included o directory name arguments =
    include (o.join (o.join directory (codes "launch")) name) arguments

-- `actions.append` for the mode.
unfoldable pub mode_actions : Outside → Section → Value → List ℕ → Result (List Action)
unfolding advanced_file get item
mode_actions o navigation mode directory =
    if is_text mode (codes "mapping")
    then (do
      slam ←
          advanced_file o (get navigation (codes "slam_params_file") null)
            (codes "slam_toolbox.yaml")
      ok (
          included o directory (codes "mapping.launch.py") ((codes "slam_config", text slam) ∷ [])
          ∷ []))
    else if is_text mode (codes "navigation")
    then (do
      map_value ← item navigation (codes "map")
      map_path ← path map_value
      nav2 ←
          advanced_file o (get navigation (codes "nav2_params_file") null)
            (codes "nav2_params.yaml")
      ok (
          included o directory (codes "navigation.launch.py")
            ((codes "map", text (o.expanduser map_path)) ∷ (codes "params_file", text nav2) ∷ [])
          ∷ []))
    else ok []

-- From line 132 on: the launch of a mode that was let through.
unfoldable pub start_all : Outside → Config → Value → Bool → Bool → Bool → Result (List Action)
unfolding common_actions camera_actions mode_actions
start_all o config mode use_camera use_rviz motion_enabled = do
  common ← common_actions o config motion_enabled
  camera ← if use_camera then camera_actions o config.camera else ok []
  directory ← o.share (codes "navigation_robot_navigation")
  moving ← mode_actions o config.navigation mode directory
  ok (
      common
      ++ (camera
          ++ (moving
              ++ (if use_rviz then included o directory (codes "rviz.launch.py") [] ∷ [] else []))))

abbrev pub refuse : Reason → Result (List Action)
refuse reason = ok (log_info ∷ shutdown reason ∷ [])

-- `_as_bool(system['motion_enabled'])`
unfoldable pub is_enabled : Outside → Config → Result Bool
unfolding item as_bool
is_enabled o config = item config.system (codes "motion_enabled") >>= λ value. ok (as_bool o value)

-- `mode != 'sensors' and _as_bool(system['motion_enabled'])`, by its first test.
abbrev pub unless_sensors : Bool → Result Bool → Result Bool
unless_sensors true enabled = ok false
unless_sensors false enabled = enabled

unfoldable pub may_move : Outside → Config → Value → Result Bool
unfolding is_enabled
may_move o config mode = unless_sensors (is_text mode mode_sensors) (is_enabled o config)

-- Whether the motion safety lock refuses the mode: the test of line 120, by its first two.
abbrev pub locked_by : Bool → Bool → Result Bool → Result Bool
locked_by true geometry_ready enabled = ok false
locked_by false false enabled = ok true
locked_by false true enabled = enabled >>= λ b. ok (not b)

unfoldable pub is_locked : Outside → Config → Value → Bool → Result Bool
unfolding is_enabled
is_locked o config mode geometry_ready =
    locked_by (is_text mode mode_sensors) geometry_ready (is_enabled o config)

-- Whether the map of the navigation mode is missing.
unfoldable pub lacks_map : Outside → Section → Value → Result Bool
unfolding get
lacks_map o navigation mode =
    if is_text mode (codes "navigation")
    then (path (get navigation (codes "map") (text [])) >>= λ name.
        ok (not (o.is_file (o.expanduser name))))
    else ok false

-- What follows the check of the map, and what follows the motion safety lock.
unfoldable pub unless_lacking : Outside → Config → Value → Bool → Bool → Bool → Result (List Action)
unfolding may_move start_all
unless_lacking o config mode use_camera use_rviz true = refuse missing_map
unless_lacking o config mode use_camera use_rviz false = do
  motion_enabled ← may_move o config mode
  start_all o config mode use_camera use_rviz motion_enabled

unfoldable pub unless_locked : Outside → Config → Value → Bool → Bool → Bool → Result (List Action)
unfolding lacks_map unless_lacking
unless_locked o config mode use_camera use_rviz true = refuse motion_lock
unless_locked o config mode use_camera use_rviz false = do
  lacking ← lacks_map o config.navigation mode
  unless_lacking o config mode use_camera use_rviz lacking

-- `_launch_setup` once the configuration is read, for a mode and the switches.
unfoldable pub setup_mode : Outside → Config → Value → Bool → Bool → Result (List Action)
unfolding all_measured is_locked unless_locked
setup_mode o config mode use_camera use_rviz = do
  geometry_ready ← all_measured o config.geometry measured_keys
  locked ← is_locked o config mode geometry_ready
  unless_locked o config mode use_camera use_rviz locked

-- By whether the mode is known.
unfoldable pub setup_known : Outside → Arguments → Config → Value → Bool → Result (List Action)
unfolding switch setup_mode
setup_known o arguments config mode false = refuse invalid_mode
setup_known o arguments config mode true = do
  use_camera ← switch o (strip arguments.use_camera) config.system (codes "use_camera")
  use_rviz ← switch o (strip arguments.use_rviz) config.system (codes "use_rviz")
  setup_mode o config mode use_camera use_rviz

unfoldable pub setup_config : Outside → Arguments → Config → Result (List Action)
unfolding mode_by setup_known
setup_config o arguments config =
    let mode = mode_by (strip arguments.operation_mode) config.system in
    setup_known o arguments config mode (is_mode mode)

-- By whether the file of the configuration is there.
unfoldable pub setup_found : Outside → Arguments → List ℕ → Bool → Result (List Action)
unfolding setup_config
setup_found o arguments config_path false = refuse missing_config
setup_found o arguments config_path true = do
  config ← o.load config_path
  setup_config o arguments config

-- `_launch_setup`
unfoldable pub launch_setup : Outside → Arguments → Result (List Action)
unfolding setup_found
launch_setup o arguments =
    let config_path = o.expanduser arguments.config_file in
    setup_found o arguments config_path (o.is_file config_path)
