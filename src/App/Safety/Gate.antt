-- ===== src/App/Safety/Gate.antt =====
-- What the gate holds can always be sent: its commands are made of bytes that fit a frame.
use navigation_robot.Base.{
  ℕ, ◌+◌, ◌≤◌, ◌≡◌, refl, Bool, Option, none, some, List, [], ◌∷◌, arith, length, All, Result, ok,
  lt→ltb,
}
use navigation_robot.Base.Bytes.{IsByte}
use navigation_robot.Protocol.{max_payload}
use navigation_robot.Motion.{
  MotionCommand, MotionCommandGate, new_gate, reset, resume, offer, mark_sent, acknowledge,
  check_timeout, keepalive_due, keepalive_command, keepalive_payload_or, keepalive_command_due,
  reject_keepalive,
}

pub record IsPayload (payload : List ℕ) : Type 0 where
  pub bytes : All IsByte payload
  pub fits : length payload ≤ max_payload

pub record IsCommand (c : MotionCommand) : Type 0 where
  pub id_byte : IsByte c.motor_id
  pub payload_sound : IsPayload c.payload
  pub keepalive_sound : IsPayload c.keepalive_payload

abbrev pub Each {ℓ κ} : {A : Type ℓ} → (A → Type κ) → Option A → Type κ
Each P none = Unit
Each P (some x) = P x

abbrev pub IsSound : MotionCommandGate → Type 0
IsSound g =
    Each IsCommand g.inflight_command
    × Each IsCommand g.pending_command
    × Each IsByte g.active_id
    × IsPayload g.active_keepalive_payload

pub nil-IsPayload : IsPayload []
nil-IsPayload = record { bytes = tt; fits = omega arith }

pub new_gate-IsSound : IsSound new_gate
unfolding new_gate
new_gate-IsSound = (tt, tt, tt, nil-IsPayload)

pub reset-IsSound : (g : MotionCommandGate) → IsSound (reset g)
unfolding reset
reset-IsSound g = (tt, tt, tt, nil-IsPayload)

pub reject_keepalive-IsSound : (g : MotionCommandGate) → IsSound g → IsSound (reject_keepalive g)
unfolding reject_keepalive
reject_keepalive-IsSound g v = (v.0, tt, tt, v.3)

pub resume-IsSound : (g : MotionCommandGate) → IsSound g → IsSound (resume g)
unfolding resume
resume-IsSound g v = v

pub check_timeout-IsSound :
    (g : MotionCommandGate) (now : ℕ) → IsSound g → IsSound (check_timeout g now).0
unfolding check_timeout
check_timeout-IsSound g now v = ground arith

-- An offer returns the command only where nothing is in flight.
pub offer-IsSound :
    (g : MotionCommandGate) (c : MotionCommand)
    → IsSound g
    → IsCommand c
    → IsSound (offer g c).0
      × Each (λ d. IsCommand d × ((offer g c).0.inflight_command ≡ none)) (offer g c).1
unfolding offer
offer-IsSound g c v h = ground arith

pub acknowledge-IsSound :
    (g : MotionCommandGate) (sequence : ℕ) (success : Bool) (now : ℕ)
    → IsSound g
    → IsSound (acknowledge g sequence success now).0
      × Each
          (λ d. IsCommand d × ((acknowledge g sequence success now).0.inflight_command ≡ none))
          (acknowledge g sequence success now).1
unfolding acknowledge
acknowledge-IsSound g sequence success now v = ground arith

pub mark_sent-IsSound :
    (g : MotionCommandGate) (sequence : ℕ) (c : MotionCommand) (now : ℕ)
    → IsSound g
    → IsCommand c
    → g.inflight_command ≡ none
    → (h : MotionCommandGate) × (mark_sent g sequence c now ≡ ok h) × IsSound h
unfolding mark_sent
mark_sent-IsSound g sequence c now v h e = (
  record g {
    inflight_sequence = some sequence;
    inflight_command = some c;
    ack_deadline = now + g.ack_timeout;
  },
  rw e,
  (h, v.1, v.2, v.3),
)

keepalive_due-IsSound :
    (g : MotionCommandGate) (now : ℕ)
    → IsSound g
    → IsSound (keepalive_due g now).0 × Each IsByte (keepalive_due g now).1
unfolding keepalive_due
keepalive_due-IsSound g now v = ground arith

keepalive_payload_or-IsPayload :
    (payload : List ℕ) (id : ℕ)
    → IsByte id
    → IsPayload payload
    → (p : List ℕ) × (keepalive_payload_or payload id ≡ ok p) × IsPayload p
keepalive_payload_or-IsPayload [] id h v =
    (id ∷ [], rw (lt→ltb id 256 h), record { bytes = (h, tt); fits = omega arith })
keepalive_payload_or-IsPayload (b ∷ payload) id h v = (b ∷ payload, refl, v)

abbrev pub IsDue : MotionCommandGate × Result (Option (ℕ × List ℕ)) → Type 0
IsDue (g, r) =
    IsSound g × ((due : Option (ℕ × List ℕ)) × (r ≡ ok due) × Each (λ d. IsPayload d.1) due)

keepalive_command-IsDue :
    (x : MotionCommandGate × Option ℕ) → IsSound x.0 → Each IsByte x.1 → IsDue (keepalive_command x)
keepalive_command-IsDue (g, none) v h = (v, (none, refl, tt))
keepalive_command-IsDue (g, some id) v h =
    let (p, e, sound) = keepalive_payload_or-IsPayload g.active_keepalive_payload id h v.3 in
    (v, (some (g.active_keepalive_type, p), rw e, sound))

-- A keepalive that is due has a payload that fits a frame.
pub keepalive_command_due-IsDue :
    (g : MotionCommandGate) (now : ℕ) → IsSound g → IsDue (keepalive_command_due g now)
unfolding keepalive_command_due
keepalive_command_due-IsDue g now v =
    let (sound, id_byte) = keepalive_due-IsSound g now v in
    keepalive_command-IsDue (keepalive_due g now) sound id_byte
