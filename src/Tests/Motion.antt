-- ===== src/Tests/Motion.antt =====
-- The theorems on the motion gate at concrete commands.
use navigation_robot.Base.{
  ℕ, ◌+◌, ◌*◌, ◌<◌, ◌≤◌, ◌≡◌, refl, arith, true, false, none, some, [], ◌∷◌, ◌++◌, ok,
  if◌then◌else◌, suc,
}
use navigation_robot.Base.Int.{pos, eq_tuple}
use navigation_robot.Motion.{
  MotionCommand, MotionCommandGate, new_gate, gate_with, offer, mark_sent, acknowledge,
  check_timeout, keepalive_due, advance,
}
use navigation_robot.Motion.Invariant.{
  rejects, offers, sends, acknowledges, times_out, operate_all, IsValid, history-IsValid,
}
use navigation_robot.Motion.Coalescing.{offer_all, offers_coalesce, failure_stops, timeout_stops}
use navigation_robot.Motion.Keepalive.{keepalive_due-cadence, rounds}

abbrev speed : ℕ → MotionCommand
speed rpm = record {
  msg_type = 0x1A;
  payload = 1 ∷ 2 ∷ rpm ∷ 0 ∷ rpm ∷ 0 ∷ 0 ∷ 0 ∷ [];
  signature = pos 0x1A ∷ pos rpm ∷ pos rpm ∷ [];
  motor_id = 1;
  mode = 2;
  active = true;
  keepalive_type = 0x1B;
  keepalive_payload = 1 ∷ 2 ∷ [];
}

-- The gate with a command in flight since the moment 100, with another behind it, and with the first
-- one acknowledged at 1000.
abbrev busy : MotionCommandGate
busy = record new_gate {
  inflight_sequence = some 7;
  inflight_command = some (speed 25);
  ack_deadline = 100 + new_gate.ack_timeout;
}

abbrev waiting : MotionCommandGate
waiting = record busy { pending_command = some (speed 50) }

abbrev moving : MotionCommandGate
moving = record new_gate {
  last_acked_signature = some (speed 25).signature;
  active_id = some 1;
  active_keepalive_type = 0x1B;
  active_keepalive_payload = 1 ∷ 2 ∷ [];
  next_keepalive = 1000 + new_gate.keepalive_period;
}

history-IsValid_example : IsValid (
    operate_all (gate_with 1000000 80000) (
      offers (speed 25)
      ∷ sends 7 (speed 25) 100
      ∷ offers (speed 50)
      ∷ rejects
      ∷ acknowledges 7 true 1000
      ∷ times_out 2000
      ∷ []))
history-IsValid_example = history-IsValid 1000000 80000 (
    offers (speed 25)
    ∷ sends 7 (speed 25) 100
    ∷ offers (speed 50)
    ∷ rejects
    ∷ acknowledges 7 true 1000
    ∷ times_out 2000
    ∷ [])

offer-moving : (offer moving (speed 50)).1 ≡ some (speed 50)
unfolding offer new_gate gate_with eq_tuple
offer-moving = refl

acknowledge-waiting : (acknowledge waiting 7 true 1000).1 ≡ some (speed 50)
unfolding acknowledge eq_tuple
acknowledge-waiting = refl

busy-free : busy.blocked ≡ false
unfolding new_gate gate_with
busy-free = refl

offers_coalesce_example :
    (acknowledge (offer_all busy ((speed 50 ∷ speed 75 ∷ []) ++ (speed 100 ∷ []))) 7 true 1000).1
    ≡ (if eq_tuple (speed 100).signature (speed 25).signature then none else some (speed 100))
offers_coalesce_example =
    offers_coalesce busy (speed 25) (speed 100) (speed 50 ∷ speed 75 ∷ []) 7 1000 busy-free refl
      refl

failure_stops_example :
    let h =
      operate_all (acknowledge busy 7 false 1000).0 (offers (speed 50) ∷ times_out 2000 ∷ []) in
    ((offer h (speed 75)).1 ≡ none) × ((keepalive_due h 200000).1 ≡ none)
failure_stops_example =
    failure_stops busy (speed 25) (speed 75) 7 1000 200000 (offers (speed 50) ∷ times_out 2000 ∷ [])
      refl refl (tt, (tt, tt))

abbrev late : ℕ
late = 5000000

timed_out : (check_timeout busy late).1 ≡ true
unfolding check_timeout new_gate gate_with
timed_out = refl

timeout_stops_example :
    let h = operate_all (check_timeout busy late).0 (acknowledges 7 true late ∷ []) in
    ((offer h (speed 75)).1 ≡ none) × ((keepalive_due h 9000000).1 ≡ none)
timeout_stops_example =
    timeout_stops busy (speed 75) late 9000000 (acknowledges 7 true late ∷ []) timed_out (tt, tt)

sent_busy : mark_sent new_gate 7 (speed 25) 100 ≡ ok busy
unfolding mark_sent new_gate gate_with
sent_busy = refl

-- A gate with small periods, for the loop of the keepalives.
abbrev small : MotionCommandGate
small = record (gate_with 10 3) { active_id = some 1; next_keepalive = 5 }

small_due : (keepalive_due small 12).1 ≡ some 1
unfolding keepalive_due gate_with
small_due = refl

small_period : 0 < small.keepalive_period
unfolding gate_with
small_period = omega arith

keepalive_due-cadence_example :
    let h = (keepalive_due small 12).0 in
    (small.active_id ≡ some 1)
    × (small.blocked ≡ false)
    × (small.next_keepalive ≤ 12)
    × (12 < h.next_keepalive)
    × (h.next_keepalive ≤ 12 + small.keepalive_period)
    × (h.next_keepalive
        ≡ small.next_keepalive
          + rounds (suc 12) small.keepalive_period small.next_keepalive 12 * small.keepalive_period)
keepalive_due-cadence_example = keepalive_due-cadence small 1 12 small_period small_due

small_next : 13 < (keepalive_due small 12).0.next_keepalive
unfolding keepalive_due gate_with advance
small_next = omega arith
