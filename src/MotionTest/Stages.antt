-- ===== src/MotionTest/Stages.antt =====
-- test_real_base_motion.py of navigation_robot_ros2: the methods of `MotionTest` that move the base and
-- stop it, and `main`.
use navigation_robot.Base.{
  ℕ, ◌+◌, Bool, true, false, ◌&&◌, Option, none, some, List, [], ◌∷◌, ◌++◌, ltb, if◌then◌else◌, max,
  length,
}
use navigation_robot.Base.Int.{ℤ, pos, eq_ℤ, neg}
use navigation_robot.MotionTest.Samples.{
  magnitude, usable, twice_median, lefts, rights, signs_and_speed_ok, linear_mps, angular_rad_s,
}
use navigation_robot.MotionTest.Node.{
  Service, missing, cancelled, silent, aborted, answers, MotionTest, sought, braked, Outcome, done,
  failed, interrupted, crashed, Stage, ◌>>=◌, ◌>>◌, pure, fail, do_deed, clock, watch, drive,
  deliver_all,
}

-- `max(abs(value) for value in last_velocity)` is below 0.35 rad/s.
abbrev pub is_stopped : MotionTest → Bool
is_stopped t = ltb (max (magnitude (t.last_velocity.0)) (magnitude (t.last_velocity.1))) 350000

-- A loop that had to leave before its deadline.
abbrev pub require : Bool → Stage (Unit {0})
require true = pure tt
require false = fail

unfoldable pub spin_until_ready : ℕ → Stage (Unit {0})
unfolding watch clock
spin_until_ready timeout = clock >>= λ now.
    watch (now + timeout) (λ later t. t.ready && ltb later (t.last_joint_time + 500000)) >>= require

unfoldable pub wait_until_stopped : Stage (Unit {0})
unfolding watch clock
wait_until_stopped = clock >>= λ now. watch (now + 800000) (λ _ t. is_stopped t) >>= require

unfoldable pub zero_stop : Stage (Unit {0})
unfolding clock drive wait_until_stopped
zero_stop = clock >>= λ now.
    clock >>= λ next_publish. drive (pos 0, pos 0) (now + 400000) next_publish >> wait_until_stopped

abbrev pub interrupt : Stage (Unit {0})
interrupt t = (interrupted, t)

-- The brake is asked for, with what the service does.
unfoldable pub ask : Service → Stage (Unit {0})
unfolding deliver_all wait_until_stopped
ask missing t = (failed, do_deed sought t)
ask cancelled t = (interrupted, do_deed sought t)
ask (aborted heard) t = (deliver_all heard >> interrupt) (do_deed braked t)
ask (silent heard) t = (deliver_all heard >> fail) (do_deed braked t)
ask (answers heard false) t = (deliver_all heard >> fail) (do_deed braked t)
ask (answers heard true) t = (deliver_all heard >> wait_until_stopped) (do_deed braked t)

unfoldable pub brake_by : List Service → Stage (Unit {0})
unfolding ask
brake_by [] t = (interrupted, t)
brake_by (service ∷ services) t = ask service (record t { services = services })

unfoldable pub brake_stop : Stage (Unit {0})
unfolding brake_by
brake_stop t = brake_by t.services t

-- What a pulse makes of its samples: twice the medians of the left and of the right wheel.
unfoldable pub measure : ℕ → ℕ → Stage (ℤ × ℤ)
unfolding usable twice_median
measure start end' t =
    let samples = usable start end' t.samples in
    if ltb (length samples) 3
    then (failed, t)
    else (done (twice_median (lefts samples), twice_median (rights samples)), t)

unfoldable pub pulse : ℤ × ℤ → Stage (ℤ × ℤ)
unfolding clock drive zero_stop measure
pulse command = clock >>= λ start.
    drive command (start + 1500000) start >> zero_stop >> measure start (start + 1500000)

-- A loop that only spins.
unfoldable pub idle : ℕ → Stage (Unit {0})
unfolding clock watch
idle span = clock >>= λ now. watch (now + span) (λ _ _. false) >> pure tt

-- A phase: its name is its place in the list; its command and the signs that are expected.
pub record Phase : Type 0 where
  pub name : ℕ
  pub command : ℤ × ℤ
  pub expected : ℤ × ℤ

abbrev pub phases : List Phase
phases =
    record { name = 0; command = (linear_mps, pos 0); expected = (pos 1, pos 1) }
    ∷ record { name = 1; command = (neg linear_mps, pos 0); expected = (neg (pos 1), neg (pos 1)) }
    ∷ record { name = 2; command = (pos 0, angular_rad_s); expected = (neg (pos 1), pos 1) }
    ∷ record { name = 3; command = (pos 0, neg angular_rad_s); expected = (pos 1, neg (pos 1)) }
    ∷ []

-- The loop over the phases, with the names of those that failed.
unfoldable pub run_phases : List Phase → List ℕ → Stage (List ℕ)
unfolding pulse idle signs_and_speed_ok
run_phases [] failures = pure failures
run_phases (phase ∷ later) failures = pulse phase.command >>= λ actual.
    idle 1000000
    >> run_phases later (
        if signs_and_speed_ok actual phase.expected
        then failures
        else failures ++ (phase.name ∷ []))

-- The wheels must stand still before the test.
unfoldable pub brake_moving : Bool → Stage (Unit {0})
unfolding brake_stop
brake_moving true = pure tt
brake_moving false = brake_stop >> fail

-- The counters at the start.
abbrev pub counters_by : Option ℤ → Option ℤ → Stage (ℤ × ℤ)
counters_by (some ack) (some crc) = pure (ack, crc)
counters_by _ _ = fail

abbrev pub eq_count : Option ℤ → ℤ → Bool
eq_count none _ = false
eq_count (some n) m = eq_ℤ n m

-- From the start to the last phase: the counters at the start, and the failures.
unfoldable pub drive_phases : Stage ((ℤ × ℤ) × List ℕ)
unfolding spin_until_ready brake_moving run_phases
drive_phases =
    spin_until_ready 8000000
    >> (λ t. brake_moving (is_stopped t) t)
    >> (λ t. counters_by t.ack_errors t.crc_errors t)
    >>= λ counters. run_phases phases [] >>= λ failures. pure (counters, failures)

-- From the last brake to the end of the `try` block.
unfoldable pub conclude : (ℤ × ℤ) × List ℕ → Stage (List ℕ)
unfolding idle
conclude ((ack, crc), failures) =
    idle 1300000
    >> (λ t. require (eq_count t.ack_errors ack) t)
    >> (λ t. require (eq_count t.crc_errors crc) t)
    >> pure failures

unfoldable pub attempt : Stage (List ℕ)
unfolding drive_phases brake_stop conclude
attempt = drive_phases >>= λ found. brake_stop >> conclude found

-- The handler: an error of its brake is dropped, a `KeyboardInterrupt` is not. A `ValueError` of the
-- test is not handled.
abbrev pub give_up : Outcome (Unit {0}) × MotionTest → Outcome ℕ × MotionTest
give_up (interrupted, t) = (interrupted, t)
give_up (_, t) = (done 1, t)

unfoldable pub settle : Outcome (List ℕ) × MotionTest → Outcome ℕ × MotionTest
unfolding brake_stop
settle (done [], t) = (done 0, t)
settle (done (_ ∷ _), t) = (done 1, t)
settle (failed, t) = give_up (brake_stop t)
settle (interrupted, t) = give_up (brake_stop t)
settle (crashed, t) = (crashed, t)

-- `main`, with `--wheels-raised` given or not: its exit code.
unfoldable pub main : Bool → Stage ℕ
unfolding attempt settle
main false t = (done 2, t)
main true t = settle (attempt t)
