-- ===== src/Tests/App.antt =====
-- The theorems on the application at concrete inputs.
use navigation_robot.Base.{
  ℕ, ◌≡◌, refl, List, [], ◌∷◌, ◌&&◌, some, true, false, arith, All, drop, replicate, ok, err,
  tcl_error, none,
}
use navigation_robot.Protocol.{HostFrame, msg_ack, msg_hello, flag_ack_required}
use navigation_robot.Protocol.Encoding.{wire, cut}
use navigation_robot.Telemetry.Records.{chassis_at}
use navigation_robot.App.Session.{finish_disconnect, send_dual_stop, worker_send}
use navigation_robot.App.Receive.{
  handle_frame, handle_ack, dispatch, are_valid, are_fresh, handle_chassis,
}
use navigation_robot.App.Safety.Requests.{Queued}
use navigation_robot.App.Safety.Preparing.{
  requested, one_ack, two_acks, three_acks, four_acks, four_acks-prepared,
}
use navigation_robot.App.Safety.Stale.{IsUpTo, finish_disconnect-poll_loop}
use navigation_robot.App.Safety.Stops.{
  IsIdle, IsStopped, send_dual_stop-halts, handle_chassis-IsStopped,
}
use navigation_robot.App.State.{
  App, Worker, usb_serial, wifi_tcp, start, poll as poll_job, control_tick as control_tick_job,
}
use navigation_robot.App.Driving.{prepare_dual_control, digit, arrow}
use navigation_robot.App.Ticks.{Entry, poll_loop, opened, rx, poll, control_tick}
use navigation_robot.App.Safety.Actions.{Ensures, start-IsValid}
use navigation_robot.App.Safety.Loops.{Asks, control_tick-survives}
use navigation_robot.App.Safety.Runs.{
  Input, polled, ticked, handshake_ticked, toggled, prepared, stopped, key_down, key_up, edited,
  tcp_port_typed,
}
use navigation_robot.Mapping.{up}

abbrev port : List ℕ
port = 67 ∷ 79 ∷ 77 ∷ 51 ∷ []

-- A connection is opened, and then come a part of a frame and bytes that are no frame.
abbrev entries : List Entry
entries =
    record { session = 1; event = opened; now = 1000 }
    ∷ record { session = 1; event = rx (0xAA ∷ 0x55 ∷ 1 ∷ []); now = 2000 }
    ∷ record { session = 1; event = rx (7 ∷ 0xAA ∷ []); now = 3000 }
    ∷ []

control_tick-survives_example : Ensures (Asks control_tick_job) (control_tick 5000 (start port))
control_tick-survives_example = control_tick-survives 5000 (start port) (start-IsValid port)

abbrev inputs : List Input
inputs =
    edited (tcp_port_typed (some 4000))
    ∷ toggled
    ∷ polled 48 entries
    ∷ handshake_ticked 900000
    ∷ prepared
    ∷ key_down false (digit 3)
    ∷ key_down false (arrow up)
    ∷ ticked 910000
    ∷ key_up (arrow up)
    ∷ stopped true
    ∷ []

-- The first session, with its worker and after its handshake.
abbrev worker : Worker
worker = record { kind = usb_serial; session = 1; stopped = false; tx = [] }

abbrev connected : App
connected = record (start port) { session_id = 1; worker = some worker; link_ready = true }

connected-session : All (IsUpTo connected.session_id) entries
connected-session = (omega arith, (omega arith, (omega arith, tt)))

finish_disconnect-poll_loop_example :
    poll_loop 2 entries (finish_disconnect connected)
    ≡ (ok (drop 2 entries), finish_disconnect connected)
finish_disconnect-poll_loop_example =
    finish_disconnect-poll_loop 2 entries connected connected-session

send_dual_stop-halts_example :
    let (r, b) = send_dual_stop true connected in
    (r ≡ ok tt)
    × (b.worker
        ≡ some (
            worker_send
              (wire (cut 0x1C connected.sequence flag_ack_required (1 ∷ 2 ∷ 0xFF ∷ [])))
              worker))
    × IsIdle b
    × (b.pressed_directions ≡ [])
send_dual_stop-halts_example = send_dual_stop-halts true connected worker refl refl

abbrev zeros : List ℕ
zeros = replicate 56 0

zeros-invalid : (are_valid (chassis_at zeros).flags && are_fresh (chassis_at zeros)) ≡ false
zeros-invalid = refl

handle_chassis-IsStopped_example :
    let (r, b) = handle_chassis zeros 7 1000 connected in (r ≡ ok tt) × IsStopped 2000 b
handle_chassis-IsStopped_example =
    handle_chassis-IsStopped zeros 7 1000 2000 connected refl zeros-invalid

four_acks-prepared_example :
    Queued (requested 1 0) (prepare_dual_control connected).1
    × Queued (requested 2 0) (one_ack 0 5000 connected).1
    × Queued (requested 3 0) (two_acks 0 5000 connected).1
    × Queued (requested 4 0) (three_acks 0 5000 connected).1
    × ((three_acks 0 5000 connected).1.dual_prepared ≡ false)
    × ((four_acks 0 5000 connected).0 ≡ ok tt)
    × ((four_acks 0 5000 connected).1.dual_prepared ≡ true)
unfolding start
four_acks-prepared_example = four_acks-prepared worker connected 5000 refl refl refl

-- The ACK of HELLO on a TCP session whose field of the port was edited to something else than a number.
abbrev misdialled : App
misdialled = record connected {
  worker = some (record worker { kind = wifi_tcp });
  link_ready = false;
  hello_sequence = some 3;
  tcp_port = none;
}

abbrev hello_ack : HostFrame
hello_ack = record {
  msg_type = msg_ack;
  sequence = 3;
  flags = 0;
  payload = msg_hello ∷ 0 ∷ 0 ∷ 0 ∷ [];
}

misdialled_error : (handle_frame hello_ack 5000 misdialled).0 ≡ err tcl_error
unfolding handle_frame handle_ack dispatch start
misdialled_error = refl
