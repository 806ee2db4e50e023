-- ===== src/Tests/Telemetry.antt =====
-- The theorems on the telemetry at concrete reports and payloads.
use navigation_robot.Base.{
  ℕ, ◌+◌, ◌≤◌, ◌≡◌, ◌↔◌, refl, arith, some, List, [], ◌∷◌, ok, length, replicate,
}
use navigation_robot.Telemetry.{
  TelemetryRateMeter, new_meter, trim, restarted, update, decode_chassis_telemetry,
}
use navigation_robot.Telemetry.Rates.{
  IsValid, Report, update_all, last_counter, update_all-total, update-exact,
}
use navigation_robot.Telemetry.Records.{layout, chassis_at, decode_chassis_telemetry-exact}

abbrev report : ℕ → ℕ → ℕ → Report
report time counter feedback = record { time = time; counter = counter; feedback = feedback }

-- The sequence number wraps between the reports.
update_all-total_example :
    (update_all new_meter
        (report 0 250 3 ∷ report 100 258 5 ∷ report 200 500 5 ∷ [])).heartbeat_total
      + 250
    ≡ last_counter 250 (report 100 258 5 ∷ report 200 500 5 ∷ [])
update_all-total_example =
    update_all-total (report 0 250 3) (report 100 258 5 ∷ report 200 500 5 ∷ [])
      (omega arith, omega arith, omega arith, (omega arith, omega arith, omega arith, tt))

abbrev meter : TelemetryRateMeter
meter = record new_meter {
  samples = record { time = 10; frames = 0; feedback = 3 } ∷ [];
  last_sequence = some 250;
  last_feedback = some 3;
}

abbrev meter-IsValid : IsValid meter
meter-IsValid = (record { frames_past = omega arith; feedback_past = omega arith }, tt)

meter_samples :
    (update meter 1010 2 7).0.samples
    ≡ record { time = 10; frames = 0; feedback = 3 }
      ∷ record { time = 1010; frames = 8; feedback = 7 }
      ∷ []
unfolding update trim restarted
meter_samples = refl

update-exact_example :
    let (n, (telemetry, fed)) = update meter 1010 2 7 in
    (telemetry.count + 0 ≡ n.heartbeat_total)
    × (fed.count + 3 ≡ 7)
    × (telemetry.duration + 10 ≡ 1010)
    × (fed.duration + 10 ≡ 1010)
update-exact_example =
    update-exact meter 1010 2 7 (record { time = 10; frames = 0; feedback = 3 })
      (record { time = 1010; frames = 8; feedback = 7 }) [] meter-IsValid meter_samples
      (omega arith)

abbrev zeros : List ℕ
zeros = replicate 56 0

abbrev ones : List ℕ
ones = replicate 44 1

decode_chassis_telemetry-exact_example :
    (decode_chassis_telemetry zeros ≡ ok (chassis_at zeros))
    ↔ ((56 ≤ length zeros) × (chassis_at zeros ≡ layout zeros))
decode_chassis_telemetry-exact_example = decode_chassis_telemetry-exact zeros (chassis_at zeros)
