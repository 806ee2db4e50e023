-- ===== src/Tests/MotionTest.antt =====
-- The theorem on the motion test of the real base at a script in which no speed is measured.
use navigation_robot.Base.{◌&&◌, ℕ, ◌≡◌, refl, ◌⊎◌, true, false, List, [], ◌∷◌, Option, some, none}
use navigation_robot.Base.Int.{pos}
use navigation_robot.Base.Texts.{codes}
use navigation_robot.Teleop.Node.{level_bytes}
use navigation_robot.MotionTest.Samples.{usable}
use navigation_robot.MotionTest.Node.{
  Delivery, nothing, diagnostics, Pass, missing, answers, braked, published, sought, done, Outcome,
  interrupted, crashed, number, refused, note, MotionTest, new_test, deliver, deliver_all,
  on_joint_state, on_diagnostics, diagnostic_level, clock, watch, watch_by, drive, drive_by,
}
use navigation_robot.MotionTest.Stages.{
  spin_until_ready, wait_until_stopped, zero_stop, ask, brake_by, brake_stop, measure, pulse, idle,
  run_phases, brake_moving, drive_phases, conclude, attempt, settle, main,
}
use navigation_robot.MotionTest.Braking.{moves_after}
use navigation_robot.MotionTest.Reading.{clear_passes, clear_services}
use navigation_robot.MotionTest.Stopping.{main-braked}

abbrev at : ℕ → Option Pass
at now = some (record { now = now; delivery = nothing; heard = now; later = now })

abbrev ready_report : Delivery
ready_report = diagnostics (
    record {
      name = codes "navigation_robot/base_driver";
      level = level_bytes (0 ∷ []);
      message = codes "ready";
      ack_errors = number (pos 0);
      host_crc_errors = number (pos 3);
    }
    ∷ [])

-- The test finds the base ready, drives ahead without hearing a speed, and stops.
abbrev unheard : List (Option Pass)
unheard =
    at 0
    ∷ some (record { now = 1; delivery = ready_report; heard = 2; later = 3 })
    ∷ at 10
    ∷ at 10
    ∷ at 50010
    ∷ at 1500010
    ∷ at 1500020
    ∷ at 1500020
    ∷ at 1500020
    ∷ at 1900020
    ∷ at 1900030
    ∷ at 1900030
    ∷ []

abbrev end_of_unheard : MotionTest
unfolding main new_test
end_of_unheard = (main true (new_test unheard (missing ∷ []))).1

main_deeds :
    end_of_unheard.deeds
    ≡ published (pos 130900, pos 0)
      ∷ published (pos 130900, pos 0)
      ∷ published (pos 0, pos 0)
      ∷ sought
      ∷ []
unfolding end_of_unheard main new_test settle attempt conclude drive_phases brake_moving run_phases
    idle pulse measure brake_stop brake_by ask zero_stop wait_until_stopped spin_until_ready
    drive_by drive watch_by watch clock diagnostic_level on_diagnostics note on_joint_state deliver
    deliver_all usable
main_deeds = refl

main_end : main true (new_test unheard (missing ∷ [])) ≡ (done 1, end_of_unheard)
unfolding end_of_unheard main new_test settle attempt conclude drive_phases brake_moving run_phases
    idle pulse measure brake_stop brake_by ask zero_stop wait_until_stopped spin_until_ready
    drive_by drive watch_by watch clock diagnostic_level on_diagnostics note on_joint_state deliver
    deliver_all usable
main_end = refl

-- The user interrupts the first pulse, and the handler brakes.
abbrev end_of_cancelled : MotionTest
unfolding main new_test
end_of_cancelled =
    let cut =
      at 0
      ∷ some (record { now = 1; delivery = ready_report; heard = 2; later = 3 })
      ∷ at 10
      ∷ at 10
      ∷ none
      ∷ at 20
      ∷ at 20
      ∷ [] in
    (main true (new_test cut (answers [] true ∷ []))).1

cancelled_deeds : end_of_cancelled.deeds ≡ published (pos 130900, pos 0) ∷ braked ∷ []
unfolding end_of_cancelled main new_test settle attempt conclude drive_phases brake_moving
    run_phases idle pulse measure brake_stop brake_by ask zero_stop wait_until_stopped
    spin_until_ready drive_by drive watch_by watch clock diagnostic_level on_diagnostics
    on_joint_state deliver deliver_all usable
cancelled_deeds = refl

-- In the first pulse a counter comes whose text is no number: the error leaves `main`, and the base
-- is not braked.
abbrev unreadable_report : Delivery
unreadable_report = diagnostics (
    record {
      name = codes "navigation_robot/base_driver";
      level = level_bytes (0 ∷ []);
      message = codes "ready";
      ack_errors = refused;
      host_crc_errors = number (pos 3);
    }
    ∷ [])

abbrev end_of_unreadable : Outcome ℕ × MotionTest
unfolding main new_test
end_of_unreadable =
    let passes =
      at 0
      ∷ some (record { now = 1; delivery = ready_report; heard = 2; later = 3 })
      ∷ at 10
      ∷ some (record { now = 11; delivery = unreadable_report; heard = 12; later = 13 })
      ∷ at 20
      ∷ at 20
      ∷ [] in
    main true (new_test passes (answers [] true ∷ []))

unreadable_end : end_of_unreadable.0 ≡ crashed
unfolding end_of_unreadable main new_test settle attempt conclude drive_phases brake_moving
    run_phases idle pulse measure brake_stop brake_by ask zero_stop wait_until_stopped
    spin_until_ready drive_by drive watch_by watch clock diagnostic_level on_diagnostics
    on_joint_state deliver deliver_all usable
unreadable_end = refl

unreadable_deeds : end_of_unreadable.1.deeds ≡ published (pos 130900, pos 0) ∷ []
unfolding end_of_unreadable main new_test settle attempt conclude drive_phases brake_moving
    run_phases idle pulse measure brake_stop brake_by ask zero_stop wait_until_stopped
    spin_until_ready drive_by drive watch_by watch clock diagnostic_level on_diagnostics
    on_joint_state deliver deliver_all usable
unreadable_deeds = refl

main-braked_example :
    let finish = main true (new_test unheard (missing ∷ [])) in
    (moves_after false finish.1.deeds ≡ false)
    ⊎ ((finish.0 ≡ interrupted) × (finish.1.services ≡ []))
    ⊎ ((finish.0 ≡ crashed) × ((clear_passes unheard && clear_services (missing ∷ [])) ≡ false))
main-braked_example = main-braked true unheard (missing ∷ [])
