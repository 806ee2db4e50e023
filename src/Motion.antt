-- ===== src/Motion.antt =====
-- navigation_robot/host/motion.py: `MotionCommand` and `MotionCommandGate`, which lets one motion
-- command at a time wait for its ACK. Times are in microseconds.
pub mod Invariant
pub mod Coalescing
pub mod Keepalive
use navigation_robot.Base.{
  ℕ, zero, suc, ◌+◌, Bool, true, false, not, ◌||◌, Option, none, some, List, [], ◌∷◌, ltb, leb,
  ◌==◌, if◌then◌else◌, Result, ok, err, runtime_error, ◌>>=◌,
}
use navigation_robot.Base.Int.{ℤ, eq_tuple}
use navigation_robot.Base.Bytes.{pack_u8}
use navigation_robot.Config.{motion_ack_timeout, control_keepalive_period}
use navigation_robot.Protocol.{msg_control_keepalive}

pub record MotionCommand : Type 0 where
  pub msg_type : ℕ
  pub payload : List ℕ
  pub signature : List ℤ
  pub motor_id : ℕ
  pub mode : ℕ
  pub active : Bool
  pub keepalive_type : ℕ
  pub keepalive_payload : List ℕ

pub record MotionCommandGate : Type 0 where
  pub ack_timeout : ℕ
  pub keepalive_period : ℕ
  pub inflight_sequence : Option ℕ
  pub inflight_command : Option MotionCommand
  pub pending_command : Option MotionCommand
  pub last_acked_signature : Option (List ℤ)
  pub ack_deadline : ℕ
  pub next_keepalive : ℕ
  pub active_id : Option ℕ
  pub active_keepalive_type : ℕ
  pub active_keepalive_payload : List ℕ
  pub blocked : Bool

-- `__init__` with given periods, and with its defaults.
unfoldable pub gate_with : ℕ → ℕ → MotionCommandGate
gate_with timeout period = record {
  ack_timeout = timeout;
  keepalive_period = period;
  inflight_sequence = none;
  inflight_command = none;
  pending_command = none;
  last_acked_signature = none;
  ack_deadline = 0;
  next_keepalive = 0;
  active_id = none;
  active_keepalive_type = msg_control_keepalive;
  active_keepalive_payload = [];
  blocked = false;
}

unfoldable pub new_gate : MotionCommandGate
unfolding gate_with
new_gate = gate_with motion_ack_timeout control_keepalive_period

unfoldable pub reset : MotionCommandGate → MotionCommandGate
reset g = record g {
  inflight_sequence = none;
  inflight_command = none;
  pending_command = none;
  last_acked_signature = none;
  ack_deadline = 0;
  next_keepalive = 0;
  active_id = none;
  active_keepalive_type = msg_control_keepalive;
  active_keepalive_payload = [];
  blocked = false;
}

unfoldable pub resume : MotionCommandGate → MotionCommandGate
resume g = record g { blocked = false }

-- `signature == self.last_acked_signature`, where the latter may be `None`.
abbrev pub is_signature : List ℤ → Option (List ℤ) → Bool
is_signature s none = false
is_signature s (some t) = eq_tuple s t

-- `offer` with a command in flight, or with none.
abbrev offer_behind :
    Option MotionCommand
    → MotionCommandGate
    → MotionCommand
    → MotionCommandGate × Option MotionCommand
offer_behind (some c) g command = (
  record g {
    pending_command = if eq_tuple command.signature c.signature then none else some command;
  },
  none,
)
offer_behind none g command =
    if is_signature command.signature g.last_acked_signature then (g, none) else (g, some command)

unfoldable pub offer : MotionCommandGate → MotionCommand → MotionCommandGate × Option MotionCommand
offer g command = if g.blocked then (g, none) else offer_behind g.inflight_command g command

abbrev sent_behind : Option MotionCommand → MotionCommandGate → Result MotionCommandGate
sent_behind (some _) g = err runtime_error
sent_behind none g = ok g

unfoldable pub mark_sent : MotionCommandGate → ℕ → MotionCommand → ℕ → Result MotionCommandGate
mark_sent g sequence command now = sent_behind g.inflight_command (record g {
  inflight_sequence = some sequence;
  inflight_command = some command;
  ack_deadline = now + g.ack_timeout;
})

abbrev pub is_number : ℕ → Option ℕ → Bool
is_number n none = false
is_number n (some m) = n == m

-- What is returned after a success: the pending command, unless it was acknowledged just now.
abbrev fresh : Option MotionCommand → List ℤ → Option MotionCommand
fresh none s = none
fresh (some pending) s = if eq_tuple pending.signature s then none else some pending

-- The gate with nothing in flight.
abbrev landed : MotionCommandGate → MotionCommandGate
landed g = record g {
  inflight_sequence = none;
  inflight_command = none;
  pending_command = none;
  ack_deadline = 0;
}

-- The part of `acknowledge` that has the acknowledged command.
abbrev settle :
    Option MotionCommand → MotionCommandGate → Bool → ℕ → MotionCommandGate × Option MotionCommand
settle none g success now = (g, none)
settle (some acknowledged) g success now =
    if success
    then (
      record (landed g) {
        last_acked_signature = some acknowledged.signature;
        active_id = if acknowledged.active then some acknowledged.motor_id else none;
        active_keepalive_type = acknowledged.keepalive_type;
        active_keepalive_payload = acknowledged.keepalive_payload;
        next_keepalive = now + g.keepalive_period;
      },
      fresh g.pending_command acknowledged.signature,
    )
    else (record (landed g) { active_id = none; last_acked_signature = none; blocked = true }, none)

unfoldable pub acknowledge :
    MotionCommandGate → ℕ → Bool → ℕ → MotionCommandGate × Option MotionCommand
acknowledge g sequence success now =
    if not (is_number sequence g.inflight_sequence)
    then (g, none)
    else settle g.inflight_command g success now

abbrev pub is_none {ℓ} : {A : Type ℓ} → Option A → Bool
is_none none = true
is_none (some _) = false

unfoldable pub check_timeout : MotionCommandGate → ℕ → MotionCommandGate × Bool
check_timeout g now =
    if is_none g.inflight_command || ltb now g.ack_deadline
    then (g, false)
    else (record (landed g) { last_acked_signature = none; active_id = none; blocked = true }, true)

-- `while self.next_keepalive <= now: self.next_keepalive += self.keepalive_period`, on fuel.
unfoldable pub advance : ℕ → ℕ → ℕ → ℕ → ℕ
advance zero period next now = next
advance (suc fuel) period next now =
    let later = advance fuel period (next + period) now in if leb next now then later else next

-- The period of the host is positive, so `now + 1` rounds are enough.
unfoldable pub keepalive_due : MotionCommandGate → ℕ → MotionCommandGate × Option ℕ
keepalive_due g now =
    if g.blocked || (is_none g.active_id || ltb now g.next_keepalive) then (g, none) else (
      record g { next_keepalive = advance (suc now) g.keepalive_period g.next_keepalive now },
      g.active_id,
    )

-- `self.active_keepalive_payload or struct.pack("<B", active_id)`
abbrev pub keepalive_payload_or : List ℕ → ℕ → Result (List ℕ)
keepalive_payload_or [] active_id = pack_u8 active_id
keepalive_payload_or (b ∷ bytes) active_id = ok (b ∷ bytes)

abbrev pub keepalive_command :
    MotionCommandGate × Option ℕ → MotionCommandGate × Result (Option (ℕ × List ℕ))
keepalive_command (g, none) = (g, ok none)
keepalive_command (g, some active_id) = (
  g,
  keepalive_payload_or g.active_keepalive_payload active_id >>= λ payload.
      ok (some (g.active_keepalive_type, payload)),
)

unfoldable pub keepalive_command_due :
    MotionCommandGate → ℕ → MotionCommandGate × Result (Option (ℕ × List ℕ))
keepalive_command_due g now = keepalive_command (keepalive_due g now)

unfoldable pub reject_keepalive : MotionCommandGate → MotionCommandGate
reject_keepalive g = record g { active_id = none; pending_command = none; blocked = true }
