-- ===== src/App/Safety/Sending.antt =====
-- Every action that sends something is safe.
use navigation_robot.Base.{
  ℕ, ◌<◌, ◌≡◌, refl, ap, ◌∙◌, Bool, true, false, not, Option, none, some, List, [], ◌∷◌, ◌++◌,
  arith, length, All, All-append, length-append, ◌-◌, ◌||◌, ok, lt→ltb, ◌==◌,
}
use navigation_robot.Base.Int.{ℤ, pos, negsuc, neg, ◌≤ℤ◌}
use navigation_robot.Base.Bytes.{IsByte, pack_i16, le16}
use navigation_robot.Config.{
  left_motor_id, right_motor_id, m0601_mode_speed, m0601_brake_off, max_rpm,
}
use navigation_robot.Mapping.{clamp}
use navigation_robot.Mapping.Speeds.{clamp_bounds}
use navigation_robot.Protocol.{msg_stop_dual, msg_set_mode, msg_query_motor}
use navigation_robot.Motion
use navigation_robot.Motion.{MotionCommand}
use navigation_robot.App.State.{
  App, Request, Preparation, query_left, mode_left, query_right, mode_right, ◌>>◌, modify, skip,
}
use navigation_robot.App.Session.{
  send, cancel_motion_flow, send_dual_stop, stop_both, release_keys, brake, is_some,
}
use navigation_robot.App.Driving.{
  mark_sent, mark_if_sent, motion_context, transmit_motion, transmit_if, queue_motion,
  continue_prepare, next_step, send_clamped, dual_command, resume_gate, send_dual_target,
}
use navigation_robot.App.Safety.Gate.{
  IsPayload, IsCommand, Each, reset-IsSound, offer-IsSound, mark_sent-IsSound, resume-IsSound,
}
use navigation_robot.App.Safety.Actions.{
  IsValid, IsReady, Ensures, Any, Safe, SameGate, >>=-Ensures, Safe->>, Safe-modify, Safe-pure,
  if-Ensures, send-Ensures, Safe-send,
}

-- Payloads of one, two and three bytes.
pub one-IsPayload : (a : ℕ) → IsByte a → IsPayload (a ∷ [])
one-IsPayload a h = record { bytes = (h, tt); fits = omega arith }

pub two-IsPayload : (a b : ℕ) → IsByte a → IsByte b → IsPayload (a ∷ b ∷ [])
two-IsPayload a b h k = record { bytes = (h, (k, tt)); fits = omega arith }

pub three-IsPayload : (a b c : ℕ) → IsByte a → IsByte b → IsByte c → IsPayload (a ∷ b ∷ c ∷ [])
three-IsPayload a b c h k l = record { bytes = (h, (k, (l, tt))); fits = omega arith }

pub cancel_motion_flow-IsValid : (a : App) → IsValid a → IsValid (cancel_motion_flow a)
unfolding cancel_motion_flow
cancel_motion_flow-IsValid a v = (reset-IsSound a.motion_gate, v.1, v.2, v.3, v.4)

mark_sent-Ensures :
    (sequence : ℕ) (command : MotionCommand) (now : ℕ) (a : App)
    → IsCommand command
    → a.motion_gate.inflight_command ≡ none
    → IsValid a
    → Ensures Any (mark_sent sequence command now a)
unfolding mark_sent
mark_sent-Ensures sequence command now a c free v =
    let (gate, e, sound) = mark_sent-IsSound a.motion_gate sequence command now v.0 c free in
    rw e (tt, (sound, v.1, v.2, v.3, v.4))

-- A motion command is transmitted only where none waits for its ACK, so `mark_sent` does not raise.
transmit_motion-Ensures :
    (command : MotionCommand) (now : ℕ) (a : App)
    → IsCommand command
    → a.motion_gate.inflight_command ≡ none
    → IsValid a
    → Ensures Any (transmit_motion command now a)
unfolding transmit_motion
transmit_motion-Ensures command now a c free v =
    >>=-Ensures (mark_if_sent command now) (SameGate a) Any
      (send command.msg_type command.payload true (some (motion_context command))) a
      (send-Ensures a command.msg_type command.payload true (some (motion_context command))
        c.payload_sound v)
      after_send
  where
    after_send :
        (x : Option ℕ) (b : App)
        → SameGate a x b
        → IsValid b
        → Ensures Any (mark_if_sent command now x b)
    after_send none b same w = (tt, w)
    after_send (some sequence) b same w =
        mark_sent-Ensures sequence command now b c
          (ap (λ (g : Motion.MotionCommandGate). g.inflight_command) same ∙ free) w

pub transmit_if-Ensures :
    (command : Option MotionCommand) (now : ℕ) (a : App)
    → Each (λ c. IsCommand c × (a.motion_gate.inflight_command ≡ none)) command
    → IsValid a
    → Ensures Any (transmit_if command now a)
transmit_if-Ensures none now a h v = (tt, v)
transmit_if-Ensures (some command) now a h v = transmit_motion-Ensures command now a h.0 h.1 v

pub Safe-queue_motion :
    (command : MotionCommand) (now : ℕ) → IsCommand command → Safe (queue_motion command now)
unfolding queue_motion
Safe-queue_motion command now c a v =
    let (sound, ready) = offer-IsSound a.motion_gate command v.0 c in
    transmit_if-Ensures (Motion.offer a.motion_gate command).1 now
      (record a { motion_gate = (Motion.offer a.motion_gate command).0 }) ready
      (sound, v.1, v.2, v.3, v.4)

Safe-send-skip :
    (msg_type : ℕ) (payload : List ℕ) (ack : Bool) (context : Option Request)
    → IsPayload payload
    → Safe (send msg_type payload ack context >> skip)
Safe-send-skip msg_type payload ack context p =
    Safe->> (send msg_type payload ack context) skip (Safe-send msg_type payload ack context p)
      (Safe-pure tt)

pub brake-IsByte : (emergency : Bool) → IsByte (brake emergency)
brake-IsByte true = omega arith
brake-IsByte false = omega arith

pub Safe-send_dual_stop : (emergency : Bool) → Safe (send_dual_stop emergency)
unfolding send_dual_stop
Safe-send_dual_stop emergency a v =
    let payload = left_motor_id ∷ right_motor_id ∷ brake emergency ∷ [] in
    let last = send msg_stop_dual payload true none >> skip in
    if-Ensures (not (is_some a.worker) || not a.link_ready) (ok tt, a) (stop_both emergency a)
      (tt, v)
      (Safe->> (modify cancel_motion_flow) (modify release_keys >> last)
        (Safe-modify cancel_motion_flow cancel_motion_flow-IsValid)
        (Safe->> (modify release_keys) last
          (Safe-modify release_keys (λ b w. (w.0, w.1, w.2, tt, w.4)))
          (Safe-send-skip msg_stop_dual payload true none (
            three-IsPayload left_motor_id right_motor_id (brake emergency) (omega arith)
              (omega arith) (brake-IsByte emergency))))
        a v)

prepared-IsReady : (dual_ready : Bool) → IsReady dual_ready true
prepared-IsReady true = refl
prepared-IsReady false = tt

Safe-next_step : (step : Preparation) → Safe (next_step step)
Safe-next_step query_left =
    Safe-send-skip msg_set_mode _ true _
      (two-IsPayload left_motor_id m0601_mode_speed (omega arith) (omega arith))
Safe-next_step mode_left =
    Safe-send-skip msg_query_motor _ true _ (one-IsPayload right_motor_id (omega arith))
Safe-next_step query_right =
    Safe-send-skip msg_set_mode _ true _
      (two-IsPayload right_motor_id m0601_mode_speed (omega arith) (omega arith))
Safe-next_step mode_right =
    Safe-modify (λ b. record b { dual_prepared = true })
      (λ b w. (w.0, w.1, w.2, w.3, prepared-IsReady b.dual_ready))

pub Safe-continue_prepare : (step : Preparation) (status : ℕ) → Safe (continue_prepare step status)
unfolding continue_prepare
Safe-continue_prepare step status a v =
    if-Ensures (not (status == 0)) (ok tt, record a { dual_prepared = false; dual_ready = false })
      (next_step step a) (tt, (v.0, v.1, v.2, v.3, tt)) (Safe-next_step step a v)

negsuc_bound : (n : ℕ) → neg (pos max_rpm) ≤ℤ negsuc n → n < 125
unfolding neg
negsuc_bound n h = omega arith

-- A speed within ±125 fits the 16 bits of the frame.
clamp-pack_i16 :
    (value : ℤ)
    → (bytes : List ℕ) × (pack_i16 (clamp max_rpm value) ≡ ok bytes)
      × All IsByte bytes
      × (length bytes ≡ 2)
clamp-pack_i16 value = go (clamp max_rpm value) (clamp_bounds max_rpm value)
  where
    go :
        (z : ℤ)
        → (neg (pos max_rpm) ≤ℤ z) × (z ≤ℤ pos max_rpm)
        → (bytes : List ℕ) × (pack_i16 z ≡ ok bytes) × All IsByte bytes × (length bytes ≡ 2)
    go (pos n) h =
        (le16 n, rw (lt→ltb n 32768 (omega arith)), (omega arith, (omega arith, tt)), refl)
    go (negsuc n) h =
        let low : n < 125 = negsuc_bound n h.0 in
        (
          le16 (65535 - n),
          rw (lt→ltb n 32768 (omega arith)),
          (omega arith, (omega arith, tt)),
          refl,
        )

dual_command-IsCommand :
    (l r : ℤ) (l_bytes r_bytes : List ℕ)
    → All IsByte l_bytes
    → All IsByte r_bytes
    → length l_bytes ≡ 2
    → length r_bytes ≡ 2
    → IsCommand (dual_command l r l_bytes r_bytes)
dual_command-IsCommand l r l_bytes r_bytes h k l_two r_two =
    let tail = 0 ∷ m0601_brake_off ∷ [] in
    let rest = All-append IsByte r_bytes tail k (omega arith, (omega arith, tt)) in
    record {
      id_byte = omega arith;
      payload_sound = record {
        bytes = (omega arith, (omega arith, All-append IsByte l_bytes (r_bytes ++ tail) h rest));
        fits =
            omega
              (arith, length-append {0} l_bytes (r_bytes ++ tail), length-append {0} r_bytes tail);
      };
      keepalive_sound = two-IsPayload left_motor_id right_motor_id (omega arith) (omega arith);
    }

pub Safe-send_dual_target : (l r : ℤ) (now : ℕ) → Safe (send_dual_target l r now)
unfolding send_dual_target
Safe-send_dual_target l r now a v =
    let (l_bytes, le, l_byte, l_two) = clamp-pack_i16 l in
    let (r_bytes, re, r_byte, r_two) = clamp-pack_i16 r in
    if-Ensures (not a.dual_ready) (ok tt, a)
      (send_clamped (clamp max_rpm l) (clamp max_rpm r) now a) (tt, v)
      (rw (le, re)
        (Safe-queue_motion (dual_command (clamp max_rpm l) (clamp max_rpm r) l_bytes r_bytes) now
          (dual_command-IsCommand (clamp max_rpm l) (clamp max_rpm r) l_bytes r_bytes l_byte r_byte
            l_two r_two)
          (resume_gate a) (resume-IsSound a.motion_gate v.0, v.1, v.2, v.3, v.4)))
