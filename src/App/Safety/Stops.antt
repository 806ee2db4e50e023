-- ===== src/App/Safety/Stops.antt =====
-- What stops both wheels: the stop that the user asks for, and telemetry that cannot be relied on.
use navigation_robot.Base.{
  ℕ, ◌+◌, ◌%◌, ◌≡◌, refl, Bool, true, false, not, ◌&&◌, ◌||◌, none, some, List, [], ◌∷◌, arith,
  length, ok, if◌then◌else◌,
}
use navigation_robot.Config.{left_motor_id, right_motor_id}
use navigation_robot.Protocol.{msg_stop_dual, flag_ack_required}
use navigation_robot.Protocol.Encoding.{wire, cut}
use navigation_robot.Motion
use navigation_robot.Telemetry.{Chassis}
use navigation_robot.App.State.{App, Worker, skip}
use navigation_robot.App.Session.{
  send, worker_send, cancel_motion_flow, release_keys, brake, stop_both, send_dual_stop, is_some,
}
use navigation_robot.App.Receive.{
  are_valid, are_fresh, in_speed_mode, judge, record_chassis, handle_chassis,
}
use navigation_robot.App.Ticks.{steer}
use navigation_robot.Telemetry.Records.{chassis_at, decode_chassis_telemetry-total}
use navigation_robot.App.Safety.Gate.{IsPayload}
use navigation_robot.App.Safety.Actions.{encode_frame-IsPayload, >>-after}
use navigation_robot.App.Safety.Sending.{three-IsPayload, brake-IsByte}

-- A reset gate keeps no motor alive.
abbrev pub IsIdle : App → Type 0
IsIdle a =
    (a.motion_gate.inflight_command ≡ none)
    × (a.motion_gate.pending_command ≡ none)
    × (a.motion_gate.active_id ≡ none)

cancel_motion_flow-IsIdle : (a : App) → IsIdle (cancel_motion_flow a)
unfolding cancel_motion_flow Motion.reset
cancel_motion_flow-IsIdle a = (refl, refl, refl)

abbrev stop_payload : Bool → List ℕ
stop_payload emergency = left_motor_id ∷ right_motor_id ∷ brake emergency ∷ []

stop_payload-IsPayload : (emergency : Bool) → IsPayload (stop_payload emergency)
stop_payload-IsPayload emergency =
    three-IsPayload left_motor_id right_motor_id (brake emergency) (omega arith) (omega arith)
      (brake-IsByte emergency)

-- What a worker is given, without a context.
abbrev handed : ℕ → List ℕ → Worker → App → App
handed msg_type payload w b = record b {
  sequence = (b.sequence + 1) % 256;
  worker = some (worker_send (wire (cut msg_type b.sequence flag_ack_required payload)) w);
}

send-handed :
    (msg_type : ℕ) (payload : List ℕ) (b : App) (w : Worker)
    → IsPayload payload
    → b.worker ≡ some w
    → send msg_type payload true none b ≡ (ok (some b.sequence), handed msg_type payload w b)
unfolding send
send-handed msg_type payload b w p e =
    rw (e, encode_frame-IsPayload msg_type b.sequence flag_ack_required payload p) refl

-- The state after the stop.
abbrev halted : Bool → Worker → App → App
halted emergency w a =
    handed msg_stop_dual (stop_payload emergency) w (release_keys (cancel_motion_flow a))

stop_both-halted :
    (emergency : Bool) (a : App) (w : Worker)
    → a.worker ≡ some w
    → stop_both emergency a ≡ (ok tt, halted emergency w a)
unfolding cancel_motion_flow
stop_both-halted emergency a w e =
    let b = release_keys (cancel_motion_flow a) in
    >>-after (send msg_stop_dual (stop_payload emergency) true none) skip b
      (handed msg_stop_dual (stop_payload emergency) w b)
      (send-handed msg_stop_dual (stop_payload emergency) b w (stop_payload-IsPayload emergency) e)

send_dual_stop-halted :
    (emergency : Bool) (a : App) (w : Worker)
    → a.worker ≡ some w
    → a.link_ready ≡ true
    → send_dual_stop emergency a ≡ (ok tt, halted emergency w a)
unfolding send_dual_stop
send_dual_stop-halted emergency a w e ready =
    let open_link : (not (is_some a.worker) || not a.link_ready) ≡ false = rw (e, ready) refl in
    rw open_link (stop_both-halted emergency a w e)

-- Where a worker is there and the handshake is done, a stop of both wheels gives the worker the
-- frame of type 0x1C with the motors 1 and 2 and the byte of the brake, 0xFF for an emergency and 0
-- else, under the next sequence number, forgets every command that is in flight or waits and the motor
-- that is kept alive, and releases all keys.
pub send_dual_stop-halts :
    (emergency : Bool) (a : App) (w : Worker)
    → a.worker ≡ some w
    → a.link_ready ≡ true
    → let (r, b) = send_dual_stop emergency a in
      (r ≡ ok tt)
      × (b.worker
          ≡ some (
              worker_send
                (wire (
                  cut 0x1C a.sequence flag_ack_required
                    (1 ∷ 2 ∷ (if emergency then 0xFF else 0) ∷ [])))
                w))
      × IsIdle b
      × (b.pressed_directions ≡ [])
unfolding cancel_motion_flow
send_dual_stop-halts emergency a w e ready =
    rw (send_dual_stop-halted emergency a w e ready) (refl, refl, cancel_motion_flow-IsIdle a, refl)

steer-idle : (now : ℕ) (b : App) → b.dual_ready ≡ false → steer now b ≡ (ok tt, b)
unfolding steer
steer-idle now b h = rw h refl

-- The state that telemetry of no use leaves.
abbrev voided : Chassis → App → App
voided c a = record a {
  dual_prepared = false;
  dual_ready = a.dual_prepared && (are_valid c.flags && (in_speed_mode c && are_fresh c));
}

abbrev stopped : Chassis → App → App
stopped c a = cancel_motion_flow (voided c a)

judge-stopped :
    (c : Chassis) (a : App) → (are_valid c.flags && are_fresh c) ≡ false → judge c a ≡ stopped c a
unfolding judge
judge-stopped c a h = rw h refl

not_ready :
    (prepared valid speed fresh : Bool)
    → (valid && fresh) ≡ false
    → (prepared && (valid && (speed && fresh))) ≡ false
not_ready prepared valid speed fresh h = ground arith

-- The control of both wheels is over, and a run of the timer at that moment sends no speed.
abbrev pub IsStopped : ℕ → App → Type 0
IsStopped now b =
    (b.dual_prepared ≡ false) × (b.dual_ready ≡ false) × IsIdle b × (steer now b ≡ (ok tt, b))

judge-IsStopped :
    (c : Chassis) (a : App) (now : ℕ)
    → (are_valid c.flags && are_fresh c) ≡ false
    → IsStopped now (judge c a)
unfolding cancel_motion_flow
judge-IsStopped c a now h =
    let idle = not_ready a.dual_prepared (are_valid c.flags) (in_speed_mode c) (are_fresh c) h in
    rw (judge-stopped c a h)
      (refl, idle, cancel_motion_flow-IsIdle (voided c a), steer-idle now (stopped c a) idle)

-- Telemetry of the chassis with a wheel that is not valid or not fresh ends the control of both
-- wheels: the preparation is void, the motion flow is idle, and the timer then sends no speed,
-- whatever keys are held and wherever the joystick stands.
pub handle_chassis-IsStopped :
    (payload : List ℕ) (sequence now later : ℕ) (a : App)
    → length payload ≡ 56
    → (are_valid (chassis_at payload).flags && are_fresh (chassis_at payload)) ≡ false
    → let (r, b) = handle_chassis payload sequence now a in (r ≡ ok tt) × IsStopped later b
unfolding handle_chassis
handle_chassis-IsStopped payload sequence now later a e h =
    rw ((decode_chassis_telemetry-total payload).0 (omega (arith, e))) (
      refl,
      judge-IsStopped (chassis_at payload) (record_chassis (chassis_at payload) sequence now a)
          later h,
    )
