-- ===== src/App/Receive.antt =====
-- What the application does with the frames that it receives.
use navigation_robot.Base.{
  err, tcl_error, ℕ, ◌%◌, ◌/◌, Bool, true, false, not, ◌&&◌, ◌||◌, Option, none, some, List, [],
  ◌∷◌, ◌==◌, leb, length, get_or, if◌then◌else◌, ok,
}
use navigation_robot.Base.Int.{ℤ, pos, negsuc}
use navigation_robot.Base.Dict.{lookup, erase}
use navigation_robot.Config.{m0601_mode_speed, m0601_mode_current, m0601_mode_position}
use navigation_robot.Protocol
use navigation_robot.Protocol.{
  HostFrame, msg_ack, msg_heartbeat, msg_chassis_telemetry, msg_imu_telemetry, msg_hello,
  msg_query_motor, msg_query_unique_id, msg_set_id, msg_set_mode, msg_control_keepalive,
  msg_dual_keepalive,
}
use navigation_robot.Motion
use navigation_robot.Link
use navigation_robot.Telemetry.{
  Chassis, Imu, update, decode_chassis_telemetry, decode_imu_telemetry,
}
use navigation_robot.App.State.{
  App, Request, no_context, Preparation, Action, pure, lift, ◌>>=◌, ◌>>◌, Done, modify, skip, when,
}
use navigation_robot.App.Session.{
  is_some, is_tcp, reset_session_state, schedule_handshake_tick, cancel_motion_flow,
}
use navigation_robot.App.Driving.{transmit_motion, transmit_if, continue_prepare}
use navigation_robot.App.Motor.{set_motor_id_text, mode_selection_changed, unconfirm, is_id}

abbrev pub is_sequence : ℕ → Option ℕ → Bool
is_sequence n none = false
is_sequence n (some m) = n == m

-- `self.pending_requests.pop(sequence, {})`
abbrev pub context_of : Option Request → Request
context_of none = no_context
context_of (some request) = request

-- `mode in MODE_TEXT`
abbrev pub is_known_mode : ℕ → Bool
is_known_mode mode =
    mode == m0601_mode_current || (mode == m0601_mode_speed || mode == m0601_mode_position)

abbrev pub greeted : App → App
greeted a = record a {
  handshake = Link.complete a.handshake;
  link_ready = true;
  hello_frame = none;
}

-- The text of the endpoint is read at the end: on a TCP session, from the field of the port, which
-- raises where it holds no number.
abbrev pub greet : Action Done
greet a =
    if is_tcp a.worker && not (is_some a.tcp_port)
    then (err tcl_error, greeted a)
    else (ok tt, greeted a)

abbrev pub acknowledge_motion : ℕ → Bool → ℕ → Action Done
acknowledge_motion sequence success now a =
    let (gate, next) = Motion.acknowledge a.motion_gate sequence success now in
    transmit_if next now (record a { motion_gate = gate })

-- `int(context.get("id", -1))`
abbrev pub queried : Option ℤ → ℤ
queried none = negsuc 0
queried (some id) = id

-- A motor's number that was read from the bus is written to the field first, and then confirmed.
abbrev pub detect : ℕ → App → App
detect id a = record (set_motor_id_text (some (pos id)) a) { confirmed_id = some (pos id) }

abbrev pub set_mode : Option ℕ → App → App
set_mode none a = a
set_mode (some mode) a =
    if is_known_mode mode
    then mode_selection_changed (record a { current_mode = some mode; mode_text = some mode })
    else a

-- The branches after those of the motion and of the preparation.
abbrev pub answer : ℕ → ℕ → ℕ → Request → App → App
answer request_type status low context a =
    if request_type == msg_query_motor
    then (if status == 0
        then record a { confirmed_id = some (queried context.id) }
        else unconfirm a)
    else if request_type == msg_query_unique_id && context.maintenance
    then (if status == 0 then detect low a else a)
    else if request_type == msg_set_mode && status == 0
    then set_mode context.mode a
    else if request_type == msg_set_id && status == 0
    then detect low a
    else a

abbrev pub answer_prepared : Option Preparation → ℕ → ℕ → ℕ → Request → Action Done
answer_prepared (some step) request_type status low context = continue_prepare step status
answer_prepared none request_type status low context =
    modify (answer request_type status low context)

-- The chain of branches of `_handle_frame`; `low` is `detail & 0xFF`.
unfoldable pub dispatch : ℕ → ℕ → ℕ → ℕ → Request → ℕ → Action Done
unfolding continue_prepare set_motor_id_text mode_selection_changed Motion.acknowledge Link.complete
    transmit_motion
dispatch sequence request_type status low context now a =
    if request_type == msg_hello
      && (status == 0 && (not a.link_ready && is_sequence sequence a.hello_sequence))
    then greet a
    else if context.motion
    then acknowledge_motion sequence (status == 0) now a
    else answer_prepared context.prepare request_type status low context a

-- `request_type in (MSG_CONTROL_KEEPALIVE, MSG_DUAL_KEEPALIVE) and status != 0`
abbrev pub is_rejection : ℕ → ℕ → Bool
is_rejection request_type status =
    (request_type == msg_control_keepalive || request_type == msg_dual_keepalive)
    && not (status == 0)

abbrev pub reject : App → App
reject a = record a { motion_gate = Motion.reject_keepalive a.motion_gate }

unfoldable pub handle_ack : ℕ → List ℕ → ℕ → Action Done
unfolding dispatch lookup erase Motion.reject_keepalive
handle_ack sequence payload now a =
    let request_type = get_or payload 0 0 in
    let status = get_or payload 1 0 in
    let context = context_of (lookup sequence a.pending_requests) in
    (do
      dispatch sequence request_type status (get_or payload 2 0) context now
      when (is_rejection request_type status) (modify reject))
      (record a { pending_requests = erase sequence a.pending_requests })

-- `_handle_frame`
unfoldable pub handle_frame : HostFrame → ℕ → Action Done
unfolding handle_ack
handle_frame frame now a =
    if not (frame.msg_type == msg_ack) || not (length frame.payload == 4)
    then (ok tt, a)
    else handle_ack frame.sequence frame.payload now a

-- `_handle_legacy`
unfoldable pub handle_legacy : List ℕ → App → App
handle_legacy payload a =
    let mode = get_or payload 5 0 in
    if is_id (pos (get_or payload 4 0)) a.confirmed_id && is_known_mode mode
    then record a { current_mode = some mode; mode_text = some mode }
    else a

-- `(flags & 0x18) == 0x18`: the digits of weight 8 and 16.
abbrev pub are_valid : ℕ → Bool
are_valid flags = flags / 8 % 2 == 1 && flags / 16 % 2 == 1

abbrev pub are_fresh : Chassis → Bool
are_fresh c = leb c.left.age 500 && leb c.right.age 500

abbrev pub in_speed_mode : Chassis → Bool
in_speed_mode c = c.left.mode == m0601_mode_speed && c.right.mode == m0601_mode_speed

-- The part of `_handle_chassis` that decides on the dual control.
unfoldable pub judge : Chassis → App → App
unfolding cancel_motion_flow
judge c a =
    let usable = are_valid c.flags && are_fresh c in
    let b = record a {
      dual_ready = a.dual_prepared && (are_valid c.flags && (in_speed_mode c && are_fresh c));
    } in
    if usable then b else cancel_motion_flow (record b { dual_prepared = false })

unfoldable pub record_chassis : Chassis → ℕ → ℕ → App → App
unfolding update
record_chassis c sequence now a =
    let (left_rate, left_rates) = update a.left_rate now sequence c.left.feedback in
    let (right_rate, right_rates) = update a.right_rate now sequence c.right.feedback in
    record a {
      left_rate = left_rate;
      right_rate = right_rate;
      latest_chassis_data = some (c, left_rates, right_rates);
    }

-- `_handle_chassis`
unfoldable pub handle_chassis : List ℕ → ℕ → ℕ → Action Done
unfolding judge record_chassis decode_chassis_telemetry
handle_chassis payload sequence now = do
  c ← lift (decode_chassis_telemetry payload)
  modify (record_chassis c sequence now)
  modify (judge c)

abbrev pub record_imu : Imu → ℕ → ℕ → App → App
record_imu imu sequence now a =
    let (meter, rate) = update a.imu_rate now sequence imu.samples in
    record a { imu_rate = meter; latest_imu = some (imu, rate) }

-- `_handle_imu`
unfoldable pub handle_imu : List ℕ → ℕ → ℕ → Action Done
unfolding update decode_imu_telemetry
handle_imu payload sequence now = do
  imu ← lift (decode_imu_telemetry payload)
  modify (record_imu imu sequence now)

-- The newest telemetry frames of one read; the older ones are passed over.
pub record Latest : Type 0 where
  pub chassis : Option HostFrame
  pub imu : Option HostFrame
  pub legacy : Option HostFrame

abbrev pub no_latest : Latest
no_latest = record { chassis = none; imu = none; legacy = none }

pub data FrameKind : Type 0 where
  chassis_frame imu_frame legacy_frame other_frame : FrameKind

unfoldable pub kind_of : HostFrame → FrameKind
kind_of f =
    if f.msg_type == msg_chassis_telemetry && length f.payload == 56
    then chassis_frame
    else if f.msg_type == msg_imu_telemetry && length f.payload == 44
    then imu_frame
    else if f.msg_type == msg_heartbeat && length f.payload == 30
    then legacy_frame
    else other_frame

abbrev pub sort_frame : FrameKind → HostFrame → ℕ → Latest → Action Latest
sort_frame chassis_frame f now l = pure (record l { chassis = some f })
sort_frame imu_frame f now l = pure (record l { imu = some f })
sort_frame legacy_frame f now l = pure (record l { legacy = some f })
sort_frame other_frame f now l = handle_frame f now >> pure l

unfoldable pub sort_frames : List HostFrame → ℕ → Latest → Action Latest
unfolding kind_of handle_frame
sort_frames [] now l = pure l
sort_frames (f ∷ fs) now l = sort_frame (kind_of f) f now l >>= sort_frames fs now

abbrev pub if_legacy : Option HostFrame → Action Done
if_legacy none = skip
if_legacy (some f) = modify (handle_legacy f.payload)

abbrev pub if_chassis : Option HostFrame → ℕ → Action Done
if_chassis none now = skip
if_chassis (some f) now = handle_chassis f.payload f.sequence now

abbrev pub if_imu : Option HostFrame → ℕ → Action Done
if_imu none now = skip
if_imu (some f) now = handle_imu f.payload f.sequence now

-- The banner of the ESP32 starts the session and the handshake again.
unfoldable pub watch_resets : List ℕ → ℕ → App → App
unfolding Link.feed reset_session_state schedule_handshake_tick Link.start
watch_resets bytes now a =
    let (detector, resets) = Link.feed a.reset_detector bytes now in
    let b = record a { reset_detector = detector } in
    if resets == 0
    then b
    else let c = reset_session_state b in
      schedule_handshake_tick (record c { handshake = Link.start c.handshake now })

-- `self.parser.feed(data)`
unfoldable pub parse : List ℕ → Action (List HostFrame)
unfolding Protocol.feed
parse bytes a =
    let (parser, frames) = Protocol.feed a.parser bytes in (ok frames, record a { parser = parser })

-- `_process_rx`
unfoldable pub process_rx : List ℕ → ℕ → Action Done
unfolding watch_resets parse sort_frames handle_legacy handle_chassis handle_imu
process_rx bytes now = do
  modify (watch_resets bytes now)
  frames ← parse bytes
  latest ← sort_frames frames now no_latest
  if_legacy latest.legacy
  if_chassis latest.chassis now
  if_imu latest.imu now
