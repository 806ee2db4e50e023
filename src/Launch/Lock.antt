-- ===== src/Launch/Lock.antt =====
-- What is started once a mode is let through: nothing of it shuts down, and the base driver has the
-- permission to move that it is given.
use navigation_robot.Base.{ℕ, Bool, true, false, List, [], ◌∷◌, ◌≡◌, refl, if◌then◌else◌, ok}
use navigation_robot.Base.Int.{pos}
use navigation_robot.Base.Texts.{codes}
use navigation_robot.Launch.Values.{
  Value, null, text, Section, Config, get, Outside, Action, log_info, shutdown, include, node,
  activate_base, configure_base, lidar_node, ekf_node, base_node, advanced_file,
}
use navigation_robot.Launch.Nodes.{
  description, base_parameters, lidar_parameters, gather, at_least, pose, connection_keys,
  wheel_keys, limit_keys, period_keys,
}
use navigation_robot.Launch.Setup.{
  camera_actions, common_actions, included, mode_actions, start_all,
}
use navigation_robot.Launch.Actions.{
  Yields, Yields->>=, Yields-ok, moves, permitted, Starts, Starts-append, one_include, nothing_more,
  camera_actions-Starts, mode_actions-Starts, or-false,
}

-- An action that includes a launch file.
abbrev IsInclude : Action → Type 0
IsInclude (include name arguments) = Unit
IsInclude _ = ⊥

description-IsInclude :
    (o : Outside) (geometry : Section) → Yields IsInclude (description o geometry)
unfolding description
description-IsInclude o geometry =
    Yields->>= IsInclude (at_least o geometry (codes "wheel_radius_m") (pos 50000)) _ (λ x1 _.
      Yields->>= IsInclude (at_least o geometry (codes "wheel_separation_m") (pos 250000)) _
        (λ x2 _. Yields->>= IsInclude (o.share (codes "navigation_robot_description")) _ (λ x3 _.
          Yields->>= IsInclude (at_least o geometry (codes "chassis_front_m") (pos 200000)) _
            (λ x4 _.
              Yields->>= IsInclude (at_least o geometry (codes "chassis_rear_m") (pos 100000)) _
                (λ x5 _.
                  Yields->>= IsInclude (at_least o geometry (codes "chassis_left_m") (pos 150000)) _
                    (λ x6 _.
                      Yields->>= IsInclude
                        (at_least o geometry (codes "chassis_right_m") (pos 150000)) _
                        (λ x7 _.
                          Yields->>= IsInclude
                            (at_least o geometry (codes "chassis_height_m") (pos 80000)) _
                            (λ x8 _.
                              Yields->>= IsInclude (pose o geometry (codes "lidar")) _ (λ x9 _.
                                Yields->>= IsInclude (pose o geometry (codes "camera")) _ (λ x10 _.
                                  Yields->>= IsInclude (pose o geometry (codes "imu")) _
                                    (λ x11 _. tt)))))))))))

-- The parameters of the base driver say what it may do.
abbrev Permits : Bool → List (List ℕ × Value) → Type 0
Permits motion parameters = permitted (get parameters (codes "motion_enabled") null) ≡ motion

base_parameters-Permits :
    (o : Outside) (config : Config) (motion : Bool)
    → Yields (Permits motion) (base_parameters o config motion)
unfolding base_parameters get
base_parameters-Permits o config motion =
    Yields->>= (Permits motion) (gather o config.base connection_keys) _ (λ x1 _.
      Yields->>= (Permits motion) (gather o config.geometry wheel_keys) _ (λ x2 _.
        Yields->>= (Permits motion) (gather o config.base limit_keys) _ (λ x3 _.
          Yields->>= (Permits motion) (gather o config.base period_keys) _ (λ x4 _. refl))))

common-Starts :
    (motion : Bool) (described : Action) (base lidar : List (List ℕ × Value)) (ekf : List ℕ)
    → IsInclude described
    → Permits motion base
    → Starts motion (
        log_info
        ∷ described
        ∷ node base_node base
        ∷ activate_base
        ∷ configure_base
        ∷ node lidar_node lidar
        ∷ node ekf_node ((codes "parameters", text ekf) ∷ [])
        ∷ [])
unfolding moves get
common-Starts motion (include name arguments) base lidar ekf h k = record {
  moving = rw k (or-false motion);
  going_on = refl;
}
common-Starts motion log_info base lidar ekf h k = absurd h
common-Starts motion (shutdown reason) base lidar ekf h k = absurd h
common-Starts motion (node kind parameters) base lidar ekf h k = absurd h
common-Starts motion activate_base base lidar ekf h k = absurd h
common-Starts motion configure_base base lidar ekf h k = absurd h

common_actions-Starts :
    (o : Outside) (config : Config) (motion : Bool)
    → Yields (Starts motion) (common_actions o config motion)
unfolding common_actions
common_actions-Starts o config motion =
    Yields->>= (Starts motion) (description o config.geometry) _ (λ described e.
      Yields->>= (Starts motion) (base_parameters o config motion) _ (λ base f.
        Yields->>= (Starts motion) (lidar_parameters o config.lidar) _ (λ lidar _.
          Yields->>= (Starts motion)
            (advanced_file o (get config.navigation (codes "ekf_params_file") null)
              (codes "ekf.yaml"))
            _
            (λ ekf _.
              common-Starts motion described base lidar ekf
                (Yields-ok IsInclude (description o config.geometry) described e
                  (description-IsInclude o config.geometry))
                (Yields-ok (Permits motion) (base_parameters o config motion) base f
                  (base_parameters-Permits o config motion))))))

rviz-Starts :
    (o : Outside) (use_rviz : Bool) (directory : List ℕ)
    → Starts false (if use_rviz then included o directory (codes "rviz.launch.py") [] ∷ [] else [])
rviz-Starts o true directory = one_include _ []
rviz-Starts o false directory = nothing_more

camera-Starts :
    (o : Outside) (use_camera : Bool) (camera : Section)
    → Yields (Starts false) (if use_camera then camera_actions o camera else ok [])
camera-Starts o true camera = camera_actions-Starts o camera
camera-Starts o false camera = nothing_more

pub start_all-Starts :
    (o : Outside) (config : Config) (mode : Value) (use_camera use_rviz motion : Bool)
    → Yields (Starts motion) (start_all o config mode use_camera use_rviz motion)
unfolding start_all
start_all-Starts o config mode use_camera use_rviz motion =
    let camera_step = if use_camera then camera_actions o config.camera else ok [] in
    Yields->>= (Starts motion) (common_actions o config motion) _ (λ common e.
      Yields->>= (Starts motion) camera_step _ (λ camera f.
        Yields->>= (Starts motion) (o.share (codes "navigation_robot_navigation")) _ (λ directory _.
          Yields->>= (Starts motion) (mode_actions o config.navigation mode directory) _
            (λ moving g.
              Starts-append motion common _
                (Yields-ok (Starts motion) (common_actions o config motion) common e
                  (common_actions-Starts o config motion))
                (Starts-append false camera _
                  (Yields-ok (Starts false) camera_step camera f
                    (camera-Starts o use_camera config.camera))
                  (Starts-append false moving _
                    (Yields-ok (Starts false) (mode_actions o config.navigation mode directory)
                      moving g (mode_actions-Starts o config.navigation mode directory))
                    (rviz-Starts o use_rviz directory)))))))
