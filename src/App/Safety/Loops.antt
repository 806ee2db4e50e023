-- ===== src/App/Safety/Loops.antt =====
-- What ends the loops on timers, and what they leave: nothing but a port that cannot be read stops `_poll`,
-- and nothing stops `_control_tick`.
use navigation_robot.Base.{
  ℕ, ◌+◌, ◌≡◌, ◌≢◌, refl, Bool, true, false, not, ◌&&◌, Option, none, some, List, [], ◌∷◌, ◌++◌,
  leb, arith, All, Result, ok, if◌then◌else◌,
}
use navigation_robot.Base.Int.{ℤ, pos}
use navigation_robot.Config.{speed_gears}
use navigation_robot.Motion
use navigation_robot.Link
use navigation_robot.Mapping.{
  Direction, up, down, left, right, other, is_gear, direction_rpm, keyboard_direction_rpm,
  differential_rpm,
}
use navigation_robot.App.State.{
  App, Job, lift, ◌>>=◌, ◌>>◌, Done, modify, skip, after, poll as poll_job,
  control_tick as control_tick_job,
}
use navigation_robot.App.Session.{
  finish_disconnect, send, is_some, is_empty, cancel_open_timeout, cancel_handshake_tick,
}
use navigation_robot.App.Driving.{send_dual_target, newest}
use navigation_robot.App.Ticks.{
  poll, steer, send_keepalive, keep_alive, time_out, render, control_tick,
}
use navigation_robot.App.Safety.Gate.{
  IsPayload, Each, check_timeout-IsSound, keepalive_command_due-IsDue,
}
use navigation_robot.App.Safety.Actions.{
  IsNamed, IsValid, Ensures, Any, Safe, >>=-Ensures, Safe->>, Safe-pure, if-Ensures, Safe-send,
}
use navigation_robot.App.Safety.Sending.{Safe-send_dual_target}
use navigation_robot.App.Safety.Receiving.{if-IsValid, reset_session_state-IsValid}

pub cancel_open_timeout-IsValid : (a : App) → IsValid a → IsValid (cancel_open_timeout a)
unfolding cancel_open_timeout
cancel_open_timeout-IsValid a v = if-IsValid a.open_timeout_job _ a v v

cancel_handshake_tick-IsValid : (a : App) → IsValid a → IsValid (cancel_handshake_tick a)
cancel_handshake_tick-IsValid a v = if-IsValid a.handshake_job _ a v v

pub finish_disconnect-IsValid : (a : App) → IsValid a → IsValid (finish_disconnect a)
unfolding finish_disconnect
finish_disconnect-IsValid a v =
    let b = record a {
      worker = none;
      session_id = a.session_id + 1;
      handshake = Link.complete a.handshake;
    } in
    let c = cancel_handshake_tick (cancel_open_timeout b) in
    reset_session_state-IsValid (record c { disconnect_pending = false })
      (cancel_handshake_tick-IsValid (cancel_open_timeout b) (cancel_open_timeout-IsValid b v))

-- The jobs end with the given one: it was asked for last.
abbrev pub Asks : {A : Type 0} → Job → A → App → Type 0
Asks job x a = (jobs : List Job) × (a.jobs ≡ jobs ++ (job ∷ []))

-- An arrow key has a speed in each gear.
direction_rpm-ok :
    (key : Direction) (gear : ℕ) → key ≢ other → (rpm : ℤ × ℤ) × (direction_rpm key gear ≡ ok rpm)
unfolding direction_rpm
direction_rpm-ok up gear h = (_, refl)
direction_rpm-ok down gear h = (_, refl)
direction_rpm-ok left gear h = (_, refl)
direction_rpm-ok right gear h = (_, refl)
direction_rpm-ok other gear h = absurd (h refl)

keyboard_direction_rpm-ok :
    (key : Direction) (gear : ℕ)
    → is_gear gear speed_gears ≡ true
    → key ≢ other
    → (rpm : ℤ × ℤ) × (keyboard_direction_rpm key gear ≡ ok rpm)
unfolding keyboard_direction_rpm
keyboard_direction_rpm-ok key gear e h =
    let (rpm, eq) = direction_rpm-ok key gear h in (rpm, rw e eq)

newest-IsNamed :
    (keys : List Direction) → is_empty keys ≡ false → All IsNamed keys → IsNamed (newest keys)
unfolding newest
newest-IsNamed [] e h = ground arith
newest-IsNamed (k ∷ []) e h = h.0
newest-IsNamed (k ∷ j ∷ keys) e h = newest-IsNamed (j ∷ keys) refl h.1

if-Ensures_given :
    (test : Bool) (x y : Result Done × App)
    → (test ≡ true → Ensures Any x)
    → Ensures Any y
    → Ensures Any (if test then x else y)
if-Ensures_given true x y h k = h refl
if-Ensures_given false x y h k = k

-- The keys have a speed as long as one is held.
Safe-drive :
    (keys : List Direction) (now : ℕ) (a : App)
    → IsValid a
    → All IsNamed keys
    → is_empty keys ≡ false
    → Ensures Any (
        (lift (keyboard_direction_rpm (newest keys) a.gear) >>= λ rpm.
        send_dual_target rpm.0 rpm.1 now)
          a)
Safe-drive keys now a v h e =
    let (rpm, eq) = keyboard_direction_rpm-ok (newest keys) a.gear v.1 (newest-IsNamed keys e h) in
    rw eq (Safe-send_dual_target rpm.0 rpm.1 now a v)

is_empty-held : (ready : Bool) (empty : Bool) → (ready && not empty) ≡ true → empty ≡ false
is_empty-held ready empty h = ground arith

Safe-steer : (now : ℕ) → Safe (steer now)
unfolding steer
Safe-steer now a v =
    let rpm = differential_rpm a.joystick.x_permille a.joystick.y_permille (pos a.gear) in
    let by_keys =
      (lift (keyboard_direction_rpm (newest a.pressed_directions) a.gear) >>= λ rpm.
      send_dual_target rpm.0 rpm.1 now)
        a in
    let by_joystick = send_dual_target rpm.0 rpm.1 now a in
    let joystick = a.dual_ready && a.joystick.active in
    if-Ensures_given (a.dual_ready && not (is_empty a.pressed_directions)) by_keys
      (if joystick then by_joystick else (ok tt, a))
      (λ e.
        Safe-drive a.pressed_directions now a v v.3
          (is_empty-held a.dual_ready (is_empty a.pressed_directions) e))
      (if-Ensures joystick by_joystick (ok tt, a) (Safe-send_dual_target rpm.0 rpm.1 now a v)
        (tt, v))

Safe-send_keepalive :
    (due : Option (ℕ × List ℕ)) → Each (λ d. IsPayload d.1) due → Safe (send_keepalive due)
Safe-send_keepalive none h = Safe-pure tt
Safe-send_keepalive (some (msg_type, payload)) h =
    Safe->> (send msg_type payload false none) skip (Safe-send msg_type payload false none h)
      (Safe-pure tt)

Safe-keep_alive : (now : ℕ) → Safe (keep_alive now)
unfolding keep_alive
Safe-keep_alive now a v =
    let (sound, (due, e, fits)) = keepalive_command_due-IsDue a.motion_gate now v.0 in
    let b = record a { motion_gate = (Motion.keepalive_command_due a.motion_gate now).0 } in
    if-Ensures (is_some a.worker && a.link_ready)
      ((lift (Motion.keepalive_command_due a.motion_gate now).1 >>= send_keepalive) b) (ok tt, a)
      (rw e (Safe-send_keepalive due fits b (sound, v.1, v.2, v.3, v.4))) (tt, v)

time_out-IsValid : (now : ℕ) (a : App) → IsValid a → IsValid (time_out now a)
time_out-IsValid now a v = (check_timeout-IsSound a.motion_gate now v.0, v.1, v.2, v.3, v.4)

render-IsValid : (now : ℕ) (a : App) → IsValid a → IsValid (render now a)
render-IsValid now a v = if-IsValid (is_some a.latest_imu && leb a.next_imu_render now) _ a v v

-- At any moment, from a valid state `_control_tick` raises no exception, leaves a valid state and
-- asks for its next run.
pub control_tick-survives :
    (now : ℕ) (a : App) → IsValid a → Ensures (Asks control_tick_job) (control_tick now a)
unfolding control_tick after
control_tick-survives now a v =
    let again = modify (after control_tick_job) in
    let rest = keep_alive now >> (modify (render now) >> again) in
    >>=-Ensures (λ _. steer now >> rest) Any (Asks control_tick_job) (modify (time_out now)) a
      (tt, time_out-IsValid now a v)
      (λ _ b _ w.
        >>=-Ensures (λ _. rest) Any (Asks control_tick_job) (steer now) b (Safe-steer now b w)
          (λ _ c _ x.
            >>=-Ensures (λ _. modify (render now) >> again) Any (Asks control_tick_job)
              (keep_alive now) c (Safe-keep_alive now c x)
              (λ _ d _ y. (((render now d).jobs, refl), render-IsValid now d y))))
