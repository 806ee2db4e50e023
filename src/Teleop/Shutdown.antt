-- ===== src/Teleop/Shutdown.antt =====
-- How the loop of the node ends, from the parameters that the node accepts.
use navigation_robot.Base.{
  ◌≡◌, Bool, true, false, ◌&&◌, [], ◌∷◌, ◌++◌, Result, ok, Error, guard, ◌>>◌, value_error,
  append_assoc,
}
use navigation_robot.Base.Int.{pos, leb_ℤ}
use navigation_robot.Teleop.Node.{
  halt, Teleop, Parameters, new_teleop, stop, shutdown_stop, stop_again, initial, is_positive,
}

pub shutdown_stop-published :
    (t : Teleop) → (shutdown_stop t).published ≡ t.published ++ (halt ∷ halt ∷ halt ∷ [])
unfolding shutdown_stop stop_again stop
shutdown_stop-published t = simp append_assoc

guard->> :
    (test : Bool) (raised : Error) (next : Result Teleop) (t : Teleop)
    → (guard test raised >> next) ≡ ok t
    → next ≡ ok t
guard->> true raised next t h = h
guard->> false raised next t h = absurd (cc h)

pub new_teleop-initial : (p : Parameters) (t : Teleop) → new_teleop p ≡ ok t → t ≡ initial p
unfolding new_teleop
new_teleop-initial p t h =
    let speeds = is_positive p.max_linear_speed && is_positive p.max_angular_speed in
    let gears = leb_ℤ (pos 1) p.initial_gear && leb_ℤ p.initial_gear (pos 5) in
    let times = is_positive p.publish_rate && leb_ℤ (pos 0) p.key_timeout in
    let built =
      guard->> times value_error _ t
        (guard->> gears value_error _ t (guard->> speeds value_error _ t h)) in
    cc built
