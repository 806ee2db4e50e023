-- ===== src/Tests/Emulator.antt =====
-- The theorems on the emulator at concrete requests, and a run of them.
use navigation_robot.Base.{ℕ, ◌≡◌, refl, List, [], ◌∷◌, ok, ◌>>=◌, arith}
use navigation_robot.Base.Int.{pos, neg}
use navigation_robot.Base.Dict.{lookup, insert}
use navigation_robot.Protocol.{HostFrame}
use navigation_robot.Emulator.{new_emulator, is_confirmed, request, chassis_payload}
use navigation_robot.Emulator.Reports.{reported, chassis_payload-decode}
use navigation_robot.Telemetry.{decode_chassis_telemetry}
use navigation_robot.Emulator.Targets.{IsWithin, Step, requested, step, steps, steps-IsWithin}

abbrev frame : ℕ → List ℕ → HostFrame
frame msg_type payload = record { msg_type = msg_type; sequence = 1; flags = 1; payload = payload }

-- Both motors are queried and set to the speed mode, and then driven at 25 RPM.
abbrev requests : List Step
requests =
    requested (frame 0x13 (1 ∷ [])) 10
    ∷ requested (frame 0x16 (1 ∷ 2 ∷ [])) 20
    ∷ requested (frame 0x13 (2 ∷ [])) 30
    ∷ requested (frame 0x16 (2 ∷ 2 ∷ [])) 40
    ∷ requested (frame 0x1A (1 ∷ 2 ∷ 25 ∷ 0 ∷ 25 ∷ 0 ∷ 0 ∷ 0 ∷ [])) 50
    ∷ []

driven_forward : (steps requests (new_emulator 0)).target_left ≡ pos 25
unfolding steps step request new_emulator is_confirmed lookup insert neg
driven_forward = refl

steps-IsWithin_example :
    let s = steps requests (new_emulator 0) in
    IsWithin s.active s.target_left × IsWithin s.active s.target_right
steps-IsWithin_example = steps-IsWithin 0 requests

chassis_payload-decode_example :
    (chassis_payload 5000000 (steps requests (new_emulator 0)) >>= decode_chassis_telemetry)
    ≡ ok (reported 5000000 (steps requests (new_emulator 0)))
unfolding steps step request new_emulator is_confirmed lookup insert neg
chassis_payload-decode_example =
    chassis_payload-decode 5000000 (steps requests (new_emulator 0)) (omega arith) (omega arith)
      (omega arith) (omega arith)
