-- ===== src/Transport/Ending.antt =====
-- A worker that is told to stop ends, whatever is answered to it, and closes its events.
use navigation_robot.Base.{
  ℕ, ◌+◌, ◌-◌, ◌≤◌, ◌≡◌, refl, ap, ◌∙◌, arith, Bool, true, false, List, [], ◌∷◌, ◌++◌, map, length,
  Bool-cases, inl, inr, none, some, Option,
}
use navigation_robot.Transport.{Answer, Move, closes, steps}
use navigation_robot.Transport.Fifo.{step-stopped}
use navigation_robot.Transport.Life.{
  Life, starting, connected, broken, gone, serial_next, follow, Tells,
}
use navigation_robot.Transport.SerialLife.{serial_ended, serial_run-follow}
use navigation_robot.Transport.Serial
use navigation_robot.Transport.Serial.{SerialWorker}

-- The steps that a serial worker still makes once it is told to stop, at most.
serial_rank : Serial.Phase → ℕ → ℕ
serial_rank Serial.opening n = 6
serial_rank Serial.purge_start n = 5
serial_rank (Serial.purge_test deadline quiet_reads) n = 4
serial_rank (Serial.purge_read deadline quiet_reads) n = 5
serial_rank Serial.purge_end n = 3
serial_rank Serial.opened_test n = 2
serial_rank Serial.loop_test n = 2
serial_rank Serial.draining n = 4 + n
serial_rank Serial.reading n = 3
serial_rank Serial.closing n = 1
serial_rank Serial.finished n = 0

abbrev serial_left : SerialWorker → ℕ
serial_left w = serial_rank w.phase (length w.tx)

drain-left :
    (answer : Answer) (queue : List (List ℕ)) (w : SerialWorker)
    → w.tx ≡ queue
    → serial_left (Serial.drain answer queue w) ≤ 3 + length queue
unfolding serial_rank
drain-left answer [] w e = omega arith
drain-left answer (bytes ∷ queue) w e = ground arith

deliver-left : (received : List ℕ) (w : SerialWorker) → serial_left (Serial.deliver received w) ≤ 2
unfolding serial_rank
deliver-left [] w = omega arith
deliver-left (byte ∷ received) w = omega arith

step_by-left :
    (phase : Serial.Phase) (answer : Answer) (w : SerialWorker)
    → w.phase ≡ phase
    → w.stopped ≡ true
    → serial_left (Serial.step_by phase answer w) ≤ serial_rank phase (length w.tx) - 1
unfolding serial_rank Serial.step_by
step_by-left Serial.opening answer w p e = ground arith
step_by-left Serial.purge_start answer w p e = ground arith
step_by-left (Serial.purge_test deadline quiet_reads) answer w p e = ground arith
step_by-left (Serial.purge_read deadline quiet_reads) answer w p e = ground arith
step_by-left Serial.purge_end answer w p e = ground arith
step_by-left Serial.opened_test answer w p e = ground arith
step_by-left Serial.loop_test answer w p e = ground arith
step_by-left Serial.draining answer w p e = omega (arith, drain-left answer w.tx w refl)
step_by-left Serial.reading answer w p e = elim (Bool-cases answer.raised) [
  | inl f ↦ rw f (omega arith)
  | inr f ↦ rw f (deliver-left answer.received w)
]
step_by-left Serial.closing answer w p e = ground arith
step_by-left Serial.finished answer w p e = rw p (omega arith)

rank-zero : (phase : Serial.Phase) (n : ℕ) → serial_rank phase n ≤ 0 → phase ≡ Serial.finished
unfolding serial_rank
rank-zero phase n h = ground arith

-- After as many steps as are left the thread has ended.
serial_ends :
    (answers : List Answer) (w : SerialWorker)
    → w.stopped ≡ true
    → serial_left w ≤ length answers
    → (Serial.run (map steps answers) w).phase ≡ Serial.finished
unfolding Serial.run Serial.move Serial.step
serial_ends [] w e h = ended w.phase (length w.tx) (omega arith)
  where
    ended : (phase : Serial.Phase) (n : ℕ) → serial_rank phase n ≤ 0 → phase ≡ Serial.finished
    ended phase n h = rank-zero phase n h
serial_ends (answer ∷ answers) w e h =
    serial_ends answers (Serial.step answer w) (step-stopped answer w ∙ e)
      (omega (arith, step_by-left w.phase answer w refl e))

serial_rank-bound : (phase : Serial.Phase) (n : ℕ) → serial_rank phase n ≤ 6 + n
unfolding serial_rank
serial_rank-bound phase n = ground arith

pub gone-Tells : (life : Option Life) → Tells true life → life ≡ some gone
gone-Tells none h = absurd h
gone-Tells (some starting) h = absurd (cc h)
gone-Tells (some connected) h = absurd (cc h)
gone-Tells (some broken) h = absurd (cc h)
gone-Tells (some gone) h = refl

serial_run-append :
    (moves more : List Move) (w : SerialWorker)
    → Serial.run (moves ++ more) w ≡ Serial.run more (Serial.run moves w)
unfolding Serial.run
serial_run-append [] more w = refl
serial_run-append (m ∷ moves) more w = serial_run-append moves more (Serial.move m w)

pub ended-Tells :
    (ended : Bool) (life : Option Life) → ended ≡ true → Tells ended life → Tells true life
ended-Tells true life e h = h
ended-Tells false life e h = absurd (cc e)

closed_ends :
    (w : SerialWorker) (answers : List Answer)
    → 6 + length w.tx ≤ length answers
    → (Serial.run (closes ∷ map steps answers) w).phase ≡ Serial.finished
unfolding Serial.run Serial.move Serial.close
closed_ends w answers h =
    serial_ends answers (Serial.close w) refl
      (omega (arith, serial_rank-bound w.phase (length w.tx)))

-- After any moves of a serial worker, `close` and six more steps of its thread than data wait in the
-- queue, whatever is answered to them, lead to the thread's end, and its last event is `closed`.
pub serial_close-gone :
    (moves : List Move) (answers : List Answer)
    → 6 + length (Serial.run moves Serial.new_serial).tx ≤ length answers
    → ((Serial.run (moves ++ (closes ∷ map steps answers)) Serial.new_serial).phase
        ≡ Serial.finished)
      × (follow serial_next
            (some starting)
            (Serial.run (moves ++ (closes ∷ map steps answers)) Serial.new_serial).events
          ≡ some gone)
serial_close-gone moves answers h =
    let last = moves ++ (closes ∷ map steps answers) in
    let ended : (Serial.run last Serial.new_serial).phase ≡ Serial.finished =
      rw (serial_run-append moves (closes ∷ map steps answers) Serial.new_serial)
        (closed_ends (Serial.run moves Serial.new_serial) answers h) in
    let life = follow serial_next (some starting) (Serial.run last Serial.new_serial).events in
    (
      ended,
      gone-Tells life (
          ended-Tells (serial_ended (Serial.run last Serial.new_serial).phase) life
            (ap serial_ended ended) (serial_run-follow last)),
    )
