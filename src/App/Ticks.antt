-- ===== src/App/Ticks.antt =====
-- The two loops of the application that run on timers: `_poll`, which handles what the workers have
-- reported, and `_control_tick`, which sends the speeds and the keepalives.
use navigation_robot.Base.{
  ℕ, zero, suc, ◌+◌, false, not, ◌&&◌, Option, none, some, List, [], ◌∷◌, ◌==◌, leb, min,
  if◌then◌else◌, ok,
}
use navigation_robot.Base.Int.{pos}
use navigation_robot.Config.{poll_event_limit}
use navigation_robot.Mapping.{keyboard_direction_rpm, differential_rpm}
use navigation_robot.Motion
use navigation_robot.App.State.{
  App, Action, pure, lift, ◌>>=◌, ◌>>◌, Done, modify, skip, after, poll as poll_job,
  control_tick as control_tick_job,
}
use navigation_robot.App.Session.{
  begin_handshake, reset_session_state, finish_disconnect, send, is_some, is_empty,
}
use navigation_robot.App.Driving.{send_dual_target, newest}
use navigation_robot.App.Receive.{process_rx}

-- What a worker reports.
pub data Event : Type 0 where
  opened retrying error closed : Event
  rx tx : List ℕ → Event

-- An event in the queue, with the moment at which it is handled.
pub record Entry : Type 0 where
  pub session : ℕ
  pub event : Event
  pub now : ℕ

abbrev pub handle_closed : App → App
handle_closed a = if not a.disconnect_pending && is_some a.worker then finish_disconnect a else a

abbrev pub handle : Event → ℕ → Action Done
handle opened now = modify (begin_handshake now)
handle (rx bytes) now = process_rx bytes now
handle (tx bytes) now = skip
handle retrying now = modify reset_session_state
handle error now = modify finish_disconnect
handle closed now = modify handle_closed

-- An event of an earlier session is passed over.
unfoldable pub handle_entry : Entry → Action Done
unfolding begin_handshake process_rx reset_session_state finish_disconnect
handle_entry entry a =
    if not (entry.session == a.session_id) then (ok tt, a) else handle entry.event entry.now a

unfoldable pub poll_loop : ℕ → List Entry → Action (List Entry)
unfolding handle_entry
poll_loop zero entries = pure entries
poll_loop (suc n) [] = pure []
poll_loop (suc n) (entry ∷ entries) = handle_entry entry >> poll_loop n entries

-- `_poll`: as many events as the time allows, and 48 at most; it returns those that are left. It
-- asks for its next run only at its end.
unfoldable pub poll : ℕ → List Entry → Action (List Entry)
unfolding poll_loop after
poll allowed entries = do
  rest ← poll_loop (min allowed poll_event_limit) entries
  modify (after poll_job)
  pure rest

-- The speeds of the keys, or else of the joystick.
unfoldable pub steer : ℕ → Action Done
unfolding keyboard_direction_rpm differential_rpm send_dual_target newest
steer now a =
    if a.dual_ready && not (is_empty a.pressed_directions)
    then (lift (keyboard_direction_rpm (newest a.pressed_directions) a.gear) >>= λ rpm.
          send_dual_target rpm.0 rpm.1 now)
        a
    else if a.dual_ready && a.joystick.active
    then (let rpm = differential_rpm a.joystick.x_permille a.joystick.y_permille (pos a.gear) in
          send_dual_target rpm.0 rpm.1 now)
        a
    else (ok tt, a)

abbrev pub send_keepalive : Option (ℕ × List ℕ) → Action Done
send_keepalive none = skip
send_keepalive (some (msg_type, payload)) = send msg_type payload false none >> skip

unfoldable pub keep_alive : ℕ → Action Done
unfolding Motion.keepalive_command_due send
keep_alive now a =
    if is_some a.worker && a.link_ready
    then (let (gate, due) = Motion.keepalive_command_due a.motion_gate now in
        (lift due >>= send_keepalive) (record a { motion_gate = gate }))
    else (ok tt, a)

abbrev pub time_out : ℕ → App → App
time_out now a = record a { motion_gate = (Motion.check_timeout a.motion_gate now).0 }

abbrev pub render : ℕ → App → App
render now a =
    if is_some a.latest_imu && leb a.next_imu_render now
    then record a { next_imu_render = now + 50000 }
    else a

-- `_control_tick`, which asks for its next run at its end too.
unfoldable pub control_tick : ℕ → Action Done
unfolding Motion.check_timeout steer keep_alive after
control_tick now = do
  modify (time_out now)
  steer now
  keep_alive now
  modify (render now)
  modify (after control_tick_job)
