-- ===== src/App/Driving.antt =====
-- Motion commands and the dual-wheel control: the preparation, targets, and the keys.
use navigation_robot.Base.{
  ℕ, Bool, true, false, not, ◌&&◌, ◌||◌, Option, none, some, List, [], ◌∷◌, ◌++◌, ◌==◌,
  if◌then◌else◌, Result, ok, err,
}
use navigation_robot.Base.Int.{ℤ, pos, eq_ℤ}
use navigation_robot.Base.Bytes.{pack_i16}
use navigation_robot.Config.{
  max_rpm, left_motor_id, right_motor_id, m0601_brake_off, m0601_mode_speed,
}
use navigation_robot.Protocol.{msg_query_motor, msg_set_mode, msg_set_dual_rpm, msg_dual_keepalive}
use navigation_robot.Mapping.{Direction, up, down, left, right, other, clamp}
use navigation_robot.Motion
use navigation_robot.Motion.{MotionCommand, MotionCommandGate}
use navigation_robot.App.State.{
  App, Request, no_context, Preparation, query_left, mode_left, query_right, mode_right, Action,
  lift, ◌>>=◌, ◌>>◌, Done, modify, skip, when,
}
use navigation_robot.App.Session.{send, cancel_motion_flow, send_dual_stop, is_empty}

-- `mark_sent` on the gate of the state.
abbrev pub with_gate : Result MotionCommandGate → Action Done
with_gate (err e) a = (err e, a)
with_gate (ok gate) a = (ok tt, record a { motion_gate = gate })

unfoldable pub mark_sent : ℕ → MotionCommand → ℕ → Action Done
unfolding Motion.mark_sent
mark_sent sequence command now a = with_gate (Motion.mark_sent a.motion_gate sequence command now) a

abbrev pub mark_if_sent : MotionCommand → ℕ → Option ℕ → Action Done
mark_if_sent command now none = skip
mark_if_sent command now (some sequence) = mark_sent sequence command now

abbrev pub motion_context : MotionCommand → Request
motion_context command = record no_context {
  motion = true;
  id = some (pos command.motor_id);
  mode = some command.mode;
}

-- `_transmit_motion`
unfoldable pub transmit_motion : MotionCommand → ℕ → Action Done
unfolding mark_sent send
transmit_motion command now =
    send command.msg_type command.payload true (some (motion_context command))
    >>= mark_if_sent command now

abbrev pub transmit_if : Option MotionCommand → ℕ → Action Done
transmit_if none now = skip
transmit_if (some command) now = transmit_motion command now

-- `_queue_motion`
unfoldable pub queue_motion : MotionCommand → ℕ → Action Done
unfolding transmit_motion Motion.offer
queue_motion command now a =
    let (gate, ready) = Motion.offer a.motion_gate command in
    transmit_if ready now (record a { motion_gate = gate })

abbrev pub prepare_context : Preparation → Request
prepare_context step = record no_context { prepare = some step }

-- `prepare_dual_control`
unfoldable pub prepare_dual_control : Action Done
unfolding cancel_motion_flow send
prepare_dual_control a =
    if not a.link_ready
    then (ok tt, a)
    else (do
      modify cancel_motion_flow
      modify (λ b. record b { dual_prepared = false; dual_ready = false })
      send msg_query_motor (left_motor_id ∷ []) true (some (prepare_context query_left))
      skip)
        a

-- What `_continue_prepare` does after a success.
abbrev pub next_step : Preparation → Action Done
next_step query_left = do
  send msg_set_mode (left_motor_id ∷ m0601_mode_speed ∷ []) true (some (prepare_context mode_left))
  skip
next_step mode_left = do
  send msg_query_motor (right_motor_id ∷ []) true (some (prepare_context query_right))
  skip
next_step query_right = do
  send msg_set_mode (right_motor_id ∷ m0601_mode_speed ∷ []) true
      (some (prepare_context mode_right))
  skip
next_step mode_right = modify (λ b. record b { dual_prepared = true })

unfoldable pub continue_prepare : Preparation → ℕ → Action Done
unfolding send
continue_prepare step status a =
    if not (status == 0)
    then (ok tt, record a { dual_prepared = false; dual_ready = false })
    else next_step step a

-- The command of `send_dual_target`, from the bytes of the two speeds.
abbrev pub dual_command : ℤ → ℤ → List ℕ → List ℕ → MotionCommand
dual_command l r l_bytes r_bytes = record {
  msg_type = msg_set_dual_rpm;
  payload = left_motor_id ∷ right_motor_id ∷ (l_bytes ++ (r_bytes ++ (0 ∷ m0601_brake_off ∷ [])));
  signature = pos msg_set_dual_rpm ∷ l ∷ r ∷ [];
  motor_id = left_motor_id;
  mode = m0601_mode_speed;
  active = not (eq_ℤ l (pos 0)) || not (eq_ℤ r (pos 0));
  keepalive_type = msg_dual_keepalive;
  keepalive_payload = left_motor_id ∷ right_motor_id ∷ [];
}

abbrev pub resume_gate : App → App
resume_gate a = record a { motion_gate = Motion.resume a.motion_gate }

-- `struct.pack("<BBhhBB", …)` of the clamped speeds.
abbrev pub send_clamped : ℤ → ℤ → ℕ → Action Done
send_clamped l r now = do
  l_bytes ← lift (pack_i16 l)
  r_bytes ← lift (pack_i16 r)
  modify resume_gate
  queue_motion (dual_command l r l_bytes r_bytes) now

unfoldable pub send_dual_target : ℤ → ℤ → ℕ → Action Done
unfolding clamp queue_motion Motion.resume
send_dual_target left_rpm right_rpm now a =
    if not a.dual_ready
    then (ok tt, a)
    else send_clamped (clamp max_rpm left_rpm) (clamp max_rpm right_rpm) now a

-- `==` on the names of the arrow keys.
abbrev pub same_key : Direction → Direction → Bool
same_key up up = true
same_key down down = true
same_key left left = true
same_key right right = true
same_key _ _ = false

pub data KeySym : Type 0 where
  digit : ℕ → KeySym
  arrow : Direction → KeySym

unfoldable pub holds : Direction → List Direction → Bool
holds key [] = false
holds key (k ∷ keys) = if same_key k key then true else holds key keys

-- `list.remove`: the first one.
unfoldable pub remove : Direction → List Direction → List Direction
remove key [] = []
remove key (k ∷ keys) = if same_key k key then keys else k ∷ remove key keys

-- `pressed_directions[-1]`
unfoldable pub newest : List Direction → Direction
newest [] = other
newest (k ∷ []) = k
newest (k ∷ j ∷ keys) = newest (j ∷ keys)

-- `SPEED_GEARS[int(event.keysym) - 1]` for the keys "1" to "5".
abbrev pub gear_of : ℕ → Option ℕ
gear_of n =
    if n == 1
    then some 25
    else if n == 2
    then some 50
    else if n == 3
    then some 75
    else if n == 4
    then some 100
    else if n == 5
    then some 125
    else none

abbrev pub set_gear : Option ℕ → App → App
set_gear none a = a
set_gear (some gear) a = record a { gear = gear }

abbrev pub press : Direction → App → App
press other a = a
press key a =
    if a.dual_ready && not (holds key a.pressed_directions)
    then record a { pressed_directions = a.pressed_directions ++ (key ∷ []) }
    else a

-- `_key_press`; `typing` tells that the focus is in a field for text, whose own handling of the key is
-- an input of its own.
unfoldable pub key_press : Bool → KeySym → App → App
unfolding holds
key_press true key a = a
key_press false (digit n) a = set_gear (gear_of n) a
key_press false (arrow key) a = press key a

-- `_key_release`
abbrev pub release : Direction → Action Done
release key a =
    let keys = a.pressed_directions in
    let was_active = not (is_empty keys) && same_key (newest keys) key in
    let rest = if holds key keys then remove key keys else keys in
    when (was_active && is_empty rest) (send_dual_stop false)
      (record a { pressed_directions = rest })

unfoldable pub key_release : KeySym → Action Done
unfolding send_dual_stop holds remove newest
key_release (digit n) = skip
key_release (arrow other) = skip
key_release (arrow up) = release up
key_release (arrow down) = release down
key_release (arrow left) = release left
key_release (arrow right) = release right
