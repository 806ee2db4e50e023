-- ===== src/Tests/Teleop.antt =====
-- The theorems on the keyboard node at concrete rounds of its loop.
use navigation_robot.Base.{
  ℕ, ◌≡◌, refl, arith, Bool, true, false, none, some, List, [], ◌∷◌, ◌++◌, Option,
}
use navigation_robot.Base.Int.{pos, ◌*ℤ◌}
use navigation_robot.Base.Texts.{codes}
use navigation_robot.Teleop.Keys.{
  silent, byte, Answer, read_key, normalize_key, arrow_key, command_for_key, motion_key,
}
use navigation_robot.Teleop.Node.{
  Parameters, Teleop, Status, level_int, new_teleop, base_status_ready, is_healthy, initial, halt,
  tick, handle_key, handle_normalized, take_command, ready, set_gear, stop, command_must_stop,
  shutdown_stop, stop_again,
}
use navigation_robot.Teleop.Loop.{
  Round, loop, main, round, spin_once, told_by, handle_raw, then_tick,
}
use navigation_robot.Teleop.Locked.{main-locked, tick-silence}

abbrev parameters : Bool → Parameters
parameters required = record {
  max_linear_speed = pos 6545;
  max_angular_speed = pos 52360;
  initial_gear = pos 1;
  publish_rate = pos 20000;
  key_timeout = pos 0;
  diagnostic_timeout = pos 2500000;
  require_base_ready = required;
}

-- A round with a key, and with what `spin_once` delivers.
abbrev round_of : Option (List Status × ℕ) → Answer → ℕ → Round
round_of message key now = record {
  diagnostics = message;
  first = key;
  second = silent;
  third = silent;
  key_time = now;
  tick_time = now;
}

-- Forwards, faster, to the left, and out.
abbrev driving : List Round
driving =
    round_of none (byte b'w') 100
    ∷ round_of none (byte b'5') 60000
    ∷ round_of none (byte b'a') 70000
    ∷ round_of none (byte b'q') 80000
    ∷ []

driven :
    (main driving (initial (parameters false))).1.published
    ≡ (pos 130900, pos 0)
      ∷ (pos 130900, pos 0)
      ∷ (pos 0, pos 5236000)
      ∷ halt
      ∷ halt
      ∷ halt
      ∷ halt
      ∷ []
unfolding main loop round read_key spin_once told_by handle_raw handle_key normalize_key arrow_key
    handle_normalized take_command command_for_key motion_key ready set_gear then_tick tick stop
    command_must_stop shutdown_stop stop_again ◌*ℤ◌
driven = refl

abbrev waiting : Status
waiting = record {
  name = codes "navigation_robot/base_driver";
  level = level_int (pos 1);
  message = codes "handshake";
}

-- The driver says that it is not ready, and the keys are pressed all the same.
abbrev locked : List Round
locked = round_of (some (waiting ∷ [], 50)) (byte b'w') 100 ∷ round_of none (byte b'd') 60000 ∷ []

main-locked_example :
    (main locked (initial (parameters true))).1.published ≡ halt ∷ halt ∷ halt ∷ []
unfolding new_teleop base_status_ready is_healthy
main-locked_example =
    main-locked (parameters true) (initial (parameters true)) locked refl refl (refl, (tt, tt))

-- A node that drives, and last heard of its base at the second moment.
abbrev moving : Teleop
moving = record (initial (parameters true)) {
  desired = (pos 130900, pos 0);
  command_active = true;
  base_ready = true;
  last_diagnostic_time = 1000000;
}

tick-silence_example :
    ((tick 4000000 moving).command_active ≡ false)
    × ((tick 4000000 moving).published ≡ [] ++ (halt ∷ []))
    × (tick 4050000 (tick 4000000 moving) ≡ tick 4000000 moving)
tick-silence_example = tick-silence moving 2500000 4000000 4050000 refl refl (omega arith)
