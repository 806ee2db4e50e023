-- ===== src/Motion/Keepalive.antt =====
-- The time-out of the ACK and the cadence of the keepalives.
use navigation_robot.Base.{
  if◌then◌else◌, ℕ, zero, suc, ◌+◌, ◌*◌, ◌≤◌, ◌<◌, ◌≡◌, refl, true, false, none, some, arith, ok,
  leb, Bool-cases, inl, inr,
}
use navigation_robot.Motion.{
  MotionCommand, MotionCommandGate, mark_sent, check_timeout, keepalive_due, advance,
}

-- A command that was marked sent at `sent` times out at `now` exactly when the time-out has passed
-- since; then nothing is in flight, nothing waits, the gate is blocked and no motor is kept alive,
-- and before that nothing of the gate changes.
pub check_timeout-mark_sent :
    (g h : MotionCommandGate) (c : MotionCommand) (sequence sent now : ℕ)
    → mark_sent g sequence c sent ≡ ok h
    → check_timeout h now ≡ (
        if leb (sent + g.ack_timeout) now
        then (
          record h {
            inflight_sequence = none;
            inflight_command = none;
            pending_command = none;
            active_id = none;
            last_acked_signature = none;
            blocked = true;
            ack_deadline = 0;
          },
          true,
        )
        else (h, false))
unfolding mark_sent check_timeout
check_timeout-mark_sent g h c sequence sent now e = ground arith

advance-zero : (period next now : ℕ) → advance zero period next now ≡ next
unfolding advance
advance-zero period next now = refl

advance-suc :
    (fuel period next now : ℕ)
    → advance (suc fuel) period next now
      ≡ (if leb next now then advance fuel period (next + period) now else next)
unfolding advance
advance-suc fuel period next now = refl

-- The loop ends, at the first of the moments `next + k * period` that lies after `now`.
pub advance_bounds :
    (fuel period next now : ℕ)
    → 0 < period
    → now < next + fuel
    → let later = advance fuel period next now in
      (now < later) × (next ≤ later) × (next ≤ now + period → later ≤ now + period)
advance_bounds zero period next now positive enough = omega (arith, advance-zero period next now)
advance_bounds (suc fuel) period next now positive enough =
    ground (arith, advance-suc fuel period next now, advance_bounds fuel period (next + period) now)

-- How many periods are added.
pub rounds : ℕ → ℕ → ℕ → ℕ → ℕ
rounds zero period next now = 0
rounds (suc fuel) period next now =
    let more = rounds fuel period (next + period) now in if leb next now then suc more else 0

pub advance-rounds :
    (fuel period next now : ℕ)
    → advance fuel period next now ≡ next + rounds fuel period next now * period
unfolding rounds advance
advance-rounds zero period next now = omega arith
advance-rounds (suc fuel) period next now = elim (Bool-cases (leb next now)) [
  | inl e ↦ rw e (omega (arith, advance-rounds fuel period (next + period) now))
  | inr e ↦ rw e (omega arith)
]

-- A keepalive is for the active motor; after it the next one is due at a later moment, at most one
-- period on, that differs from the old moment by a number of whole periods, so the cadence keeps
-- its phase.
pub keepalive_due-cadence :
    (g : MotionCommandGate) (id now : ℕ)
    → 0 < g.keepalive_period
    → (keepalive_due g now).1 ≡ some id
    → let h = (keepalive_due g now).0 in
      (g.active_id ≡ some id)
      × (g.blocked ≡ false)
      × (g.next_keepalive ≤ now)
      × (now < h.next_keepalive)
      × (h.next_keepalive ≤ now + g.keepalive_period)
      × (h.next_keepalive
          ≡ g.next_keepalive
            + rounds (suc now) g.keepalive_period g.next_keepalive now * g.keepalive_period)
unfolding keepalive_due
keepalive_due-cadence g id now positive due = ground (
  arith,
  advance_bounds (suc now) g.keepalive_period g.next_keepalive now,
  advance-rounds (suc now) g.keepalive_period g.next_keepalive now,
)

-- Between two keepalives none is due.
pub keepalive_due_once :
    (g : MotionCommandGate) (id now later : ℕ)
    → (keepalive_due g now).1 ≡ some id
    → later < (keepalive_due g now).0.next_keepalive
    → keepalive_due (keepalive_due g now).0 later ≡ ((keepalive_due g now).0, none)
unfolding keepalive_due
keepalive_due_once g id now later due early = ground arith
