-- ===== src/Motion/Invariant.antt =====
-- The operations of the gate as one type, what holds of the gate between them, and that its users
-- never meet its `RuntimeError`.
use navigation_robot.Base.{
  ℕ, ◌+◌, ◌≢◌, runtime_error, ◌≡◌, Bool, true, false, Option, none, some, List, [], ◌∷◌, arith,
  Result, ok, err,
}
use navigation_robot.Base.Int.{eq_tuple}
use navigation_robot.Motion.{
  MotionCommand, MotionCommandGate, gate_with, reset, resume, offer, mark_sent, acknowledge,
  check_timeout, keepalive_due, reject_keepalive, is_none, is_signature,
}

pub data Operation : Type 0 where
  resets resumes rejects : Operation
  offers : MotionCommand → Operation
  sends : ℕ → MotionCommand → ℕ → Operation
  acknowledges : ℕ → Bool → ℕ → Operation
  times_out keeps_alive : ℕ → Operation

-- A `mark_sent` that raises leaves the gate as it was.
abbrev pub kept : MotionCommandGate → Result MotionCommandGate → MotionCommandGate
kept g (ok h) = h
kept g (err _) = g

unfoldable pub operate : MotionCommandGate → Operation → MotionCommandGate
operate g resets = reset g
operate g resumes = resume g
operate g rejects = reject_keepalive g
operate g (offers command) = (offer g command).0
operate g (sends sequence command now) = kept g (mark_sent g sequence command now)
operate g (acknowledges sequence success now) = (acknowledge g sequence success now).0
operate g (times_out now) = (check_timeout g now).0
operate g (keeps_alive now) = (keepalive_due g now).0

unfoldable pub operate_all : MotionCommandGate → List Operation → MotionCommandGate
operate_all g [] = g
operate_all g (o ∷ os) = operate_all (operate g o) os

-- A pending command waits behind one in flight that has another signature.
abbrev pub Waits : Option MotionCommand → Option MotionCommand → Type 0
Waits none inflight = Unit
Waits (some pending) none = ⊥
Waits (some pending) (some inflight) = eq_tuple pending.signature inflight.signature ≡ false

-- A blocked gate has nothing that waits, and without a command in flight there is no deadline.
abbrev pub IsEmptyIf : Bool → Option MotionCommand → Type 0
IsEmptyIf true pending = pending ≡ none
IsEmptyIf false pending = Unit

abbrev pub HasDeadline : Option MotionCommand → ℕ → Type 0
HasDeadline none deadline = deadline ≡ 0
HasDeadline (some _) deadline = Unit

pub record IsValid (g : MotionCommandGate) : Type 0 where
  pub paired : is_none g.inflight_sequence ≡ is_none g.inflight_command
  pub waits : Waits g.pending_command g.inflight_command
  pub blocked_empty : IsEmptyIf g.blocked g.pending_command
  pub landed_deadline : HasDeadline g.inflight_command g.ack_deadline

pub gate_with-IsValid : (timeout period : ℕ) → IsValid (gate_with timeout period)
unfolding gate_with
gate_with-IsValid timeout period = ground arith

pub operate-IsValid : (g : MotionCommandGate) (o : Operation) → IsValid g → IsValid (operate g o)
unfolding operate reset resume reject_keepalive offer mark_sent acknowledge check_timeout
    keepalive_due
operate-IsValid g resets v = ground arith
operate-IsValid g resumes v = ground arith
operate-IsValid g rejects v = ground arith
operate-IsValid g (offers command) v = ground arith
operate-IsValid g (sends sequence command now) v = ground arith
operate-IsValid g (acknowledges sequence success now) v = ground arith
operate-IsValid g (times_out now) v = ground arith
operate-IsValid g (keeps_alive now) v = ground arith

operate_all-IsValid :
    (g : MotionCommandGate) (os : List Operation) → IsValid g → IsValid (operate_all g os)
unfolding operate_all
operate_all-IsValid g [] v = v
operate_all-IsValid g (o ∷ os) v = operate_all-IsValid (operate g o) os (operate-IsValid g o v)

-- From a new gate, after any sequence of operations, the in-flight sequence number and command are
-- there together, a pending command waits behind one in flight with another signature, a blocked
-- gate has no pending command, and with nothing in flight the deadline is 0.
pub history-IsValid :
    (timeout period : ℕ) (os : List Operation) → IsValid (operate_all (gate_with timeout period) os)
history-IsValid timeout period os =
    operate_all-IsValid (gate_with timeout period) os (gate_with-IsValid timeout period)

-- A command that `offer` returns is the one offered, it is not what was acknowledged last, and
-- `mark_sent` accepts it.
pub offer-mark_sent :
    (g : MotionCommandGate) (command : MotionCommand) (ready : MotionCommand) (sequence now : ℕ)
    → (offer g command).1 ≡ some ready
    → (ready ≡ command)
      × ((offer g command).0 ≡ g)
      × (is_signature ready.signature g.last_acked_signature ≡ false)
      × (mark_sent g sequence ready now
          ≡ ok (record g {
            inflight_sequence = some sequence;
            inflight_command = some ready;
            ack_deadline = now + g.ack_timeout;
          }))
unfolding offer mark_sent
offer-mark_sent g command ready sequence now h = ground arith

-- A command that `acknowledge` returns is the one that was pending, and `mark_sent` accepts it.
pub acknowledge-mark_sent :
    (g : MotionCommandGate) (sequence next_sequence now : ℕ) (success : Bool) (next : MotionCommand)
    → (acknowledge g sequence success now).1 ≡ some next
    → (g.pending_command ≡ some next)
      × (success ≡ true)
      × (is_signature next.signature (acknowledge g sequence success now).0.last_acked_signature
          ≡ false)
      × (mark_sent (acknowledge g sequence success now).0 next_sequence next now
          ≢ err runtime_error)
unfolding acknowledge mark_sent
acknowledge-mark_sent g sequence next_sequence now success next h = ground arith
