-- ===== src/App/Session.antt =====
-- The connection: opening, the handshake, closing.
use navigation_robot.Base.{
  ℕ, ◌+◌, ◌%◌, Bool, true, false, not, ◌&&◌, ◌||◌, Option, none, some, List, [], ◌∷◌, ◌++◌, leb,
  if◌then◌else◌, Result, ok, err,
}
use navigation_robot.Base.Dict.{insert}
use navigation_robot.Protocol.{
  new_parser, encode_frame, flag_ack_required, msg_hello, msg_stop_dual,
}
use navigation_robot.Config.{left_motor_id, right_motor_id, m0601_brake_on, m0601_brake_off}
use navigation_robot.Motion
use navigation_robot.Telemetry
use navigation_robot.Link
use navigation_robot.Link.{
  Action as Poll, wait, send as send_now, timeout, new_detector, poll as poll_handshake,
}
use navigation_robot.Base.Dict.{drop_values}
use navigation_robot.App.State.{
  App, Worker, ConnectionType, usb_serial, wifi_tcp, Request, handshake_tick as handshake_tick_job,
  open_timeout, close_now, finish_disconnect as finish_disconnect_job, Action, ◌>>◌, Done, modify,
  skip, after, without, handshake_kind, open_timeout_kind,
}

abbrev pub is_some {ℓ} : {A : Type ℓ} → Option A → Bool
is_some none = false
is_some (some _) = true

-- `_reset_session_state`
unfoldable pub reset_session_state : App → App
unfolding Motion.reset Telemetry.reset
reset_session_state a = record a {
  parser = new_parser;
  reset_detector = new_detector;
  link_ready = false;
  confirmed_id = none;
  current_mode = none;
  dual_prepared = false;
  dual_ready = false;
  pending_requests = [];
  motion_gate = Motion.reset a.motion_gate;
  left_rate = Telemetry.reset a.left_rate;
  right_rate = Telemetry.reset a.right_rate;
  imu_rate = Telemetry.reset a.imu_rate;
  hello_sequence = none;
  hello_frame = none;
  pressed_directions = [];
}

-- `worker.send` and `worker.close`
abbrev pub worker_send : List ℕ → Worker → Worker
worker_send bytes w = if w.stopped then w else record w { tx = w.tx ++ (bytes ∷ []) }

-- `if ack and context is not None: self.pending_requests[sequence] = …`
abbrev pub remember : Bool → ℕ → ℕ → Option Request → List (ℕ × Request) → List (ℕ × Request)
remember true sequence msg_type (some request) requests =
    insert sequence (record request { request_type = msg_type }) requests
remember true sequence msg_type none requests = requests
remember false sequence msg_type context requests = requests

-- `send`, from the encoded frame on, and where there is a worker.
abbrev pub send_frame :
    Result (List ℕ) → Worker → ℕ → Bool → Option Request → App → Result (Option ℕ) × App
send_frame (err e) w msg_type ack context a = (err e, a)
send_frame (ok bytes) w msg_type ack context a = (
  ok (some a.sequence),
  record a {
    sequence = (a.sequence + 1) % 256;
    pending_requests = remember ack a.sequence msg_type context a.pending_requests;
    worker = some (worker_send bytes w);
  },
)

abbrev pub send_by :
    Option Worker → ℕ → List ℕ → Bool → Option Request → App → Result (Option ℕ) × App
send_by none msg_type payload ack context a = (ok none, a)
send_by (some w) msg_type payload ack context a =
    send_frame (encode_frame msg_type a.sequence (if ack then flag_ack_required else 0) payload) w
      msg_type ack context a

unfoldable pub send : ℕ → List ℕ → Bool → Option Request → Action (Option ℕ)
send msg_type payload ack context a = send_by a.worker msg_type payload ack context a

-- `_send_hello`: the frame is made once, and sent again as it is.
abbrev pub hello_frame_by : Result (List ℕ) → Worker → Action Done
hello_frame_by (err e) w a = (err e, record a { hello_sequence = some a.sequence })
hello_frame_by (ok frame) w a = (
  ok tt,
  record a {
    hello_sequence = some a.sequence;
    hello_frame = some frame;
    sequence = (a.sequence + 1) % 256;
    worker = some (worker_send frame w);
  },
)

abbrev pub hello_by : Option Worker → Option (List ℕ) → Action Done
hello_by none frame a = (ok tt, a)
hello_by (some w) (some frame) a = (ok tt, record a { worker = some (worker_send frame w) })
hello_by (some w) none a =
    hello_frame_by (encode_frame msg_hello a.sequence flag_ack_required []) w a

unfoldable pub send_hello : Action Done
send_hello a = hello_by a.worker a.hello_frame a

unfoldable pub cancel_open_timeout : App → App
unfolding without
cancel_open_timeout a =
    if a.open_timeout_job
    then record a { jobs = without open_timeout_kind a.jobs; open_timeout_job = false }
    else a

unfoldable pub schedule_open_timeout : App → App
unfolding cancel_open_timeout after
schedule_open_timeout a = record (after open_timeout (cancel_open_timeout a)) {
  open_timeout_job = true;
}

unfoldable pub schedule_handshake_tick : App → App
unfolding after
schedule_handshake_tick a =
    if a.handshake_job then a else record (after handshake_tick_job a) { handshake_job = true }

abbrev pub cancel_handshake_tick : App → App
cancel_handshake_tick a =
    if a.handshake_job
    then record a { jobs = without handshake_kind a.jobs; handshake_job = false }
    else a

-- `_finish_disconnect`; the worker that is let go was told to stop.
unfoldable pub finish_disconnect : App → App
unfolding cancel_open_timeout reset_session_state Link.complete without
finish_disconnect a =
    let closed = record a {
      worker = none;
      session_id = a.session_id + 1;
      handshake = Link.complete a.handshake;
    } in
    reset_session_state
      (record (cancel_handshake_tick (cancel_open_timeout closed)) { disconnect_pending = false })

unfoldable pub handle_open_timeout : App → App
unfolding finish_disconnect
handle_open_timeout a =
    let b = record a { open_timeout_job = false } in
    if is_some b.worker && not b.link_ready then finish_disconnect b else b

-- `_begin_handshake`
unfoldable pub begin_handshake : ℕ → App → App
unfolding cancel_open_timeout schedule_handshake_tick Link.start
begin_handshake now a = schedule_handshake_tick (record (cancel_open_timeout a) {
  parser = new_parser;
  hello_sequence = none;
  hello_frame = none;
  handshake = Link.start a.handshake now;
})

abbrev pub is_tcp : Option Worker → Bool
is_tcp none = false
is_tcp (some w) = elim w.kind [ wifi_tcp ↦ true | usb_serial ↦ false ]

-- The action of a poll: after a time-out only a TCP connection waits for the next one.
abbrev pub handshake_action : Poll → Action Done
handshake_action send_now a = (send_hello >> modify schedule_handshake_tick) a
handshake_action wait a = (ok tt, schedule_handshake_tick a)
handshake_action timeout a = (ok tt, if is_tcp a.worker then a else finish_disconnect a)

unfoldable pub handshake_tick : ℕ → Action Done
unfolding send_hello schedule_handshake_tick finish_disconnect poll_handshake
handshake_tick now a =
    let b = record a { handshake_job = false } in
    if not (is_some b.worker) || b.link_ready
    then (ok tt, b)
    else let (h, action) = poll_handshake b.handshake now in
      handshake_action action (record b { handshake = h })

abbrev pub is_motion : Request → Bool
is_motion request = request.motion

unfoldable pub cancel_motion_flow : App → App
unfolding Motion.reset drop_values
cancel_motion_flow a = record a {
  motion_gate = Motion.reset a.motion_gate;
  pending_requests = drop_values is_motion a.pending_requests;
}

abbrev pub release_keys : App → App
release_keys a = record a { pressed_directions = [] }

-- `M0601_BRAKE_ON if emergency else M0601_BRAKE_OFF`
abbrev pub brake : Bool → ℕ
brake emergency = if emergency then m0601_brake_on else m0601_brake_off

abbrev pub stop_both : Bool → Action Done
stop_both emergency = do
  modify cancel_motion_flow
  modify release_keys
  send msg_stop_dual (left_motor_id ∷ right_motor_id ∷ brake emergency ∷ []) true none
  skip

unfoldable pub send_dual_stop : Bool → Action Done
unfolding cancel_motion_flow send
send_dual_stop emergency a =
    if not (is_some a.worker) || not a.link_ready then (ok tt, a) else stop_both emergency a

-- `_schedule_disconnect`
unfoldable pub schedule_disconnect : Action Done
unfolding send_dual_stop finish_disconnect after
schedule_disconnect a =
    let b = record a { disconnect_pending = true } in
    if not (is_some a.worker) || a.disconnect_pending
    then (ok tt, a)
    else if b.link_ready
    then (send_dual_stop true >> modify (after finish_disconnect_job)) b
    else (ok tt, finish_disconnect b)

abbrev pub new_worker : ConnectionType → App → Worker
new_worker kind a = record { kind = kind; session = a.session_id; stopped = false; tx = [] }

abbrev pub is_empty {ℓ} : {A : Type ℓ} → List A → Bool
is_empty [] = true
is_empty (_ ∷ _) = false

abbrev pub is_port : Option ℕ → Bool
is_port none = false
is_port (some port) = leb 1 port && leb port 65535

-- The part of `toggle_connection` that opens a connection of the chosen kind.
abbrev pub connect : ConnectionType → App → App
connect wifi_tcp a =
    if is_empty a.host || not (is_port a.tcp_port)
    then a
    else record a { worker = some (new_worker wifi_tcp a) }
connect usb_serial a =
    if is_empty a.port
    then a
    else schedule_open_timeout (record a { worker = some (new_worker usb_serial a) })

unfoldable pub toggle_connection : Action Done
unfolding schedule_disconnect reset_session_state schedule_open_timeout
toggle_connection a =
    if is_some a.worker
    then schedule_disconnect a
    else let b = reset_session_state (record a { session_id = a.session_id + 1 }) in
      (ok tt, connect b.connection_type b)

-- `close` and `_close_now`
unfoldable pub close : Action Done
unfolding send_dual_stop after
close a =
    if is_some a.worker then (send_dual_stop true >> modify (after close_now)) a else (ok tt, a)

unfoldable pub handle_close_now : App → App
unfolding cancel_open_timeout
handle_close_now a = record (cancel_open_timeout a) { worker = none }
