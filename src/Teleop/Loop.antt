-- ===== src/Teleop/Loop.antt =====
-- keyboard_teleop.py of navigation_robot_ros2: `main` of a terminal, as the rounds of its loop and
-- what follows them. The times are the answers of `time.monotonic`.
use navigation_robot.Base.{ℕ, Bool, true, false, Option, none, some, List, [], ◌∷◌, Result, ok, err}
use navigation_robot.Teleop.Keys.{Answer, read_key}
use navigation_robot.Teleop.Node.{
  Teleop, Status, diagnostics_callback, handle_key, tick, shutdown_stop,
}

-- What one round meets: the message that `spin_once` delivers with its time, the answers of the
-- terminal, and the times at which the key is handled and the tick is done.
pub record Round : Type 0 where
  pub diagnostics : Option (List Status × ℕ)
  pub first : Answer
  pub second : Answer
  pub third : Answer
  pub key_time : ℕ
  pub tick_time : ℕ

-- The subscription is made only if the base must be ready.
unfoldable pub told_by : Bool → Option (List Status × ℕ) → Teleop → Teleop
unfolding diagnostics_callback
told_by true (some (array, now)) t = diagnostics_callback array now t
told_by true none t = t
told_by false _ t = t

abbrev pub spin_once : Option (List Status × ℕ) → Teleop → Teleop
spin_once message t = told_by t.require_base_ready message t

-- `if raw: keep_running = node.handle_key(raw)`
unfoldable pub handle_raw : List ℕ → ℕ → Teleop → Result Bool × Teleop
unfolding handle_key
handle_raw [] now t = (ok true, t)
handle_raw (c ∷ raw) now t = handle_key (c ∷ raw) now t

-- An exception leaves the loop before the tick.
unfoldable pub then_tick : ℕ → Result Bool × Teleop → Result Bool × Teleop
unfolding tick
then_tick now (ok keep_running, t) = (ok keep_running, tick now t)
then_tick now (err raised, t) = (err raised, t)

unfoldable pub round : Round → Teleop → Result Bool × Teleop
unfolding read_key
round r t =
    then_tick r.tick_time
      (handle_raw (read_key r.first r.second r.third) r.key_time (spin_once r.diagnostics t))

-- What the loop does after a round, where `again` is the rest of the loop.
abbrev pub go_on :
    (Teleop → Result (Unit {0}) × Teleop) → Result Bool × Teleop → Result (Unit {0}) × Teleop
go_on again (ok true, t) = again t
go_on again (ok false, t) = (ok tt, t)
go_on again (err raised, t) = (err raised, t)

-- The loop, until `rclpy.ok()` fails or an interrupt comes at the end of the rounds, a key ends it, or
-- an exception leaves it.
unfoldable pub loop : List Round → Teleop → Result (Unit {0}) × Teleop
unfolding round
loop [] t = (ok tt, t)
loop (r ∷ rounds) t = go_on (loop rounds) (round r t)

-- `main` on an interactive terminal with a node that was built: what it returns or raises, and the
-- node at its end, after `finally: node.shutdown_stop()`.
unfoldable pub main : List Round → Teleop → Result (Unit {0}) × Teleop
unfolding loop shutdown_stop
main rounds t = let (result, left) = loop rounds t in (result, shutdown_stop left)
