-- ===== src/MotionTest/Legible.antt =====
-- test_real_base_motion.py of navigation_robot_ros2: the parts of the test where `int` reads the
-- counters of every status of the base driver.
use navigation_robot.Base.{
  ℕ, ◌+◌, ◌≡◌, Bool, true, false, ◌&&◌, Option, none, some, List, [], ◌∷◌, ◌++◌, ltb, length,
  if◌then◌else◌,
}
use navigation_robot.Base.Int.{ℤ, pos}
use navigation_robot.MotionTest.Samples.{usable, signs_and_speed_ok}
use navigation_robot.MotionTest.Node.{
  Delivery, Service, missing, cancelled, silent, aborted, answers, MotionTest, braked, Outcome,
  done, failed, interrupted, crashed, Stage, ◌>>=◌, ◌>>◌, pure, fail, do_deed, deliver_all, clock,
  watch, drive,
}
use navigation_robot.MotionTest.Stages.{
  require, is_stopped, wait_until_stopped, spin_until_ready, zero_stop, interrupt, ask, brake_by,
  brake_stop, measure, pulse, idle, Phase, phases, run_phases, brake_moving, counters_by, eq_count,
  drive_phases, conclude, attempt, give_up, settle,
}
use navigation_robot.MotionTest.Reading.{
  clear_passes, clear_heard, clear_services, heard_of, IsClear, Fine, Reads, both, bind-Reads,
  if-Fine, deliver_all-Reads, clock-Reads, watch-Reads, drive-Reads,
}

require-Reads : (test : Bool) → Reads (require test)
require-Reads true t c = c
require-Reads false t c = c

watched-Reads :
    (span : ℕ) (leave : ℕ → MotionTest → Bool) (next : Bool → Stage (Unit {0}))
    → ((b : Bool) → Reads (next b))
    → Reads (clock >>= λ now. watch (now + span) leave >>= next)
watched-Reads span leave next h =
    bind-Reads clock (λ now. watch (now + span) leave >>= next) clock-Reads
      (λ now. bind-Reads (watch (now + span) leave) next (watch-Reads (now + span) leave) h)

wait_until_stopped-Reads : Reads wait_until_stopped
unfolding wait_until_stopped
wait_until_stopped-Reads = watched-Reads 800000 (λ _ t. is_stopped t) require require-Reads

spin_until_ready-Reads : (timeout : ℕ) → Reads (spin_until_ready timeout)
unfolding spin_until_ready
spin_until_ready-Reads timeout =
    watched-Reads timeout (λ later t. t.ready && ltb later (t.last_joint_time + 500000)) require
      require-Reads

idle-Reads : (span : ℕ) → Reads (idle span)
unfolding idle
idle-Reads span = watched-Reads span (λ _ _. false) (λ _. pure tt) (λ _ t c. c)

zero_stop-Reads : Reads zero_stop
unfolding zero_stop
zero_stop-Reads = bind-Reads clock _ clock-Reads (λ now.
    bind-Reads clock _ clock-Reads (λ next_publish.
      bind-Reads (drive (pos 0, pos 0) (now + 400000) next_publish) (λ _. wait_until_stopped)
        (drive-Reads (pos 0, pos 0) (now + 400000) next_publish) (λ _. wait_until_stopped-Reads)))

measure-Reads : (start end' : ℕ) → Reads (measure start end')
unfolding measure
measure-Reads start end' t c =
    if-Fine (ltb (length (usable start end' t.samples)) 3) (failed, t) _ c c

pulse-Reads : (command : ℤ × ℤ) → Reads (pulse command)
unfolding pulse
pulse-Reads command = bind-Reads clock _ clock-Reads (λ start.
    bind-Reads (drive command (start + 1500000) start >> zero_stop)
      (λ _. measure start (start + 1500000))
      (bind-Reads (drive command (start + 1500000) start) (λ _. zero_stop)
        (drive-Reads command (start + 1500000) start) (λ _. zero_stop-Reads))
      (λ _. measure-Reads start (start + 1500000)))

run_phases-Reads : (list : List Phase) (failures : List ℕ) → Reads (run_phases list failures)
unfolding run_phases
run_phases-Reads [] failures t c = c
run_phases-Reads (phase ∷ later) failures t c =
    bind-Reads (pulse phase.command) _ (pulse-Reads phase.command)
      (λ actual. bind-Reads (idle 1000000) _ (idle-Reads 1000000) (λ _. run_phases-Reads later (
        if signs_and_speed_ok actual phase.expected
        then failures
        else failures ++ (phase.name ∷ []))))
      t c

heard-Reads :
    (heard : List (Delivery × ℕ)) (next : Stage (Unit {0}))
    → clear_heard heard ≡ true
    → Reads next
    → Reads (deliver_all heard >> next)
heard-Reads heard next h k =
    bind-Reads (deliver_all heard) (λ _. next) (deliver_all-Reads heard h) (λ _. k)

ask-Reads : (service : Service) → clear_heard (heard_of service) ≡ true → Reads (ask service)
unfolding ask
ask-Reads missing h t c = c
ask-Reads cancelled h t c = c
ask-Reads (aborted heard) h t c = heard-Reads heard interrupt h (λ _ d. d) (do_deed braked t) c
ask-Reads (silent heard) h t c = heard-Reads heard fail h (λ _ d. d) (do_deed braked t) c
ask-Reads (answers heard false) h t c = heard-Reads heard fail h (λ _ d. d) (do_deed braked t) c
ask-Reads (answers heard true) h t c =
    heard-Reads heard wait_until_stopped h wait_until_stopped-Reads (do_deed braked t) c

brake_stop-Reads : Reads brake_stop
unfolding brake_stop brake_by
brake_stop-Reads t c = brakes t.services t c c.1
  where
    brakes :
        (services : List Service) (t : MotionTest)
        → IsClear t
        → clear_services services ≡ true
        → Fine (brake_by services t)
    brakes [] t c h = c
    brakes (service ∷ services) t c h =
        let (first, rest) = both (clear_heard (heard_of service)) (clear_services services) h in
        ask-Reads service first (record t { services = services }) (c.0, rest)

brake_moving-Reads : (stopped : Bool) → Reads (brake_moving stopped)
unfolding brake_moving
brake_moving-Reads true t c = c
brake_moving-Reads false t c = bind-Reads brake_stop (λ _. fail) brake_stop-Reads (λ _ t c. c) t c

counters_by-Reads : (ack crc : Option ℤ) → Reads (counters_by ack crc)
counters_by-Reads (some _) (some _) t c = c
counters_by-Reads (some _) none t c = c
counters_by-Reads none crc t c = c

drive_phases-Reads : Reads drive_phases
unfolding drive_phases
drive_phases-Reads =
    bind-Reads
      (spin_until_ready 8000000
        >> (λ t. brake_moving (is_stopped t) t)
        >> (λ t. counters_by t.ack_errors t.crc_errors t))
      (λ counters. run_phases phases [] >>= λ failures. pure (counters, failures))
      (bind-Reads (spin_until_ready 8000000 >> (λ t. brake_moving (is_stopped t) t))
        (λ _ t. counters_by t.ack_errors t.crc_errors t)
        (bind-Reads (spin_until_ready 8000000) (λ _ t. brake_moving (is_stopped t) t)
          (spin_until_ready-Reads 8000000) (λ _ t c. brake_moving-Reads (is_stopped t) t c))
        (λ _ t c. counters_by-Reads t.ack_errors t.crc_errors t c))
      (λ counters.
        bind-Reads (run_phases phases []) (λ failures. pure (counters, failures))
          (run_phases-Reads phases []) (λ _ t c. c))

conclude-Reads : (ack crc : ℤ) (failures : List ℕ) → Reads (conclude ((ack, crc), failures))
unfolding conclude
conclude-Reads ack crc failures =
    bind-Reads
      (idle 1300000
        >> (λ t. require (eq_count t.ack_errors ack) t)
        >> (λ t. require (eq_count t.crc_errors crc) t))
      (λ _. pure failures)
      (bind-Reads (idle 1300000 >> (λ t. require (eq_count t.ack_errors ack) t))
        (λ _ t. require (eq_count t.crc_errors crc) t)
        (bind-Reads (idle 1300000) (λ _ t. require (eq_count t.ack_errors ack) t)
          (idle-Reads 1300000) (λ _ t c. require-Reads (eq_count t.ack_errors ack) t c))
        (λ _ t c. require-Reads (eq_count t.crc_errors crc) t c))
      (λ _ t c. c)

attempt-Reads : Reads attempt
unfolding attempt
attempt-Reads = bind-Reads drive_phases _ drive_phases-Reads (λ found.
    bind-Reads brake_stop (λ _. conclude found) brake_stop-Reads
      (λ _. conclude-Reads (found.0.0) (found.0.1) (found.1)))

give_up-Fine : (x : Outcome (Unit {0}) × MotionTest) → Fine x → Fine (give_up x)
give_up-Fine (done _, t) h = h
give_up-Fine (failed, t) h = h
give_up-Fine (interrupted, t) h = h
give_up-Fine (crashed, t) h = absurd h

settle-Fine : (x : Outcome (List ℕ) × MotionTest) → Fine x → Fine (settle x)
unfolding settle
settle-Fine (done [], t) h = h
settle-Fine (done (_ ∷ _), t) h = h
settle-Fine (failed, t) h = give_up-Fine (brake_stop t) (brake_stop-Reads t h)
settle-Fine (interrupted, t) h = give_up-Fine (brake_stop t) (brake_stop-Reads t h)
settle-Fine (crashed, t) h = absurd h

-- A test in which every counter can be read does not end with a `ValueError`.
pub settle-attempt :
    (t : MotionTest)
    → (clear_passes t.passes && clear_services t.services) ≡ true
    → (settle (attempt t)).0 ≡ crashed
    → ⊥
settle-attempt t h = not_crashed (settle (attempt t)) (
    settle-Fine (attempt t)
      (attempt-Reads t (both (clear_passes t.passes) (clear_services t.services) h)))
  where
    not_crashed : (x : Outcome ℕ × MotionTest) → Fine x → x.0 ≡ crashed → ⊥
    not_crashed (done _, t) h e = absurd (cc e)
    not_crashed (failed, t) h e = absurd (cc e)
    not_crashed (interrupted, t) h e = absurd (cc e)
    not_crashed (crashed, t) h e = h
