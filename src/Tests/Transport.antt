-- ===== src/Tests/Transport.antt =====
-- The theorems on the workers at concrete runs.
use navigation_robot.Base.{
  ℕ, ◌*◌, ◌^◌, ◌≡◌, min, refl, arith, true, false, some, List, [], ◌∷◌, ◌++◌, map, replicate,
}
use navigation_robot.App.Ticks.{opened, retrying, tx}
use navigation_robot.Transport.{Answer, Move, sends, closes, steps, transmitted}
use navigation_robot.Transport.Serial.{new_serial}
use navigation_robot.Transport.Serial
use navigation_robot.Transport.Tcp.{TcpWorker, new_tcp}
use navigation_robot.Transport.Tcp
use navigation_robot.Transport.Fifo.{Queued, is_over, run-Queued}
use navigation_robot.Transport.Life.{starting, gone, serial_next, tcp_next, follow, Tells}
use navigation_robot.Transport.SerialLife.{serial_ended, serial_run-follow}
use navigation_robot.Transport.TcpLife.{tcp_ended, tcp_run-follow}
use navigation_robot.Transport.Ending.{serial_close-gone}
use navigation_robot.Transport.TcpEnding.{tcp_close-gone}
use navigation_robot.Transport.Retries.{refusals, until_wait, refusals-delay}
use navigation_robot.Transport.Forgetting.{IsSublist, retry-IsSublist}

-- A call that succeeds, with nothing to read, and one that raises.
abbrev calm : Answer
calm = record { raised = false; timed_out = false; now = 5; received = [] }

abbrev breaks : Answer
breaks = record calm { raised = true }

-- Two frames are given to the worker while it opens its port, and one after `close`.
abbrev session : List Move
session =
    sends (1 ∷ []) ∷ map steps (replicate 12 calm)
    ++ (sends (2 ∷ []) ∷ map steps (replicate 4 calm) ++ (closes ∷ sends (3 ∷ []) ∷ []))

run-Queued_example :
    Queued
      (is_over (Serial.run session new_serial).phase)
      ((1 ∷ []) ∷ (2 ∷ []) ∷ [])
      (transmitted (Serial.run session new_serial).events)
      (Serial.run session new_serial).tx
run-Queued_example = run-Queued session

serial_run-follow_example :
    Tells
      (serial_ended (Serial.run session new_serial).phase)
      (follow serial_next (some starting) (Serial.run session new_serial).events)
serial_run-follow_example = serial_run-follow session

tcp_run-follow_example :
    Tells
      (tcp_ended (Tcp.run session new_tcp).phase)
      (follow tcp_next (some starting) (Tcp.run session new_tcp).events)
tcp_run-follow_example = tcp_run-follow session

serial_close-gone_example :
    ((Serial.run (session ++ (closes ∷ map steps (replicate 8 breaks))) new_serial).phase
      ≡ Serial.finished)
    × (follow serial_next
          (some starting)
          (Serial.run (session ++ (closes ∷ map steps (replicate 8 breaks))) new_serial).events
        ≡ some gone)
unfolding Serial.run Serial.move Serial.send Serial.close Serial.step Serial.step_by new_serial
serial_close-gone_example = serial_close-gone session (replicate 8 breaks) (omega arith)

tcp_close-gone_example :
    ((Tcp.run (session ++ (closes ∷ map steps (replicate 8 calm))) new_tcp).phase ≡ Tcp.finished)
    × (follow tcp_next
          (some starting)
          (Tcp.run (session ++ (closes ∷ map steps (replicate 8 calm))) new_tcp).events
        ≡ some gone)
unfolding Tcp.run Tcp.move Tcp.send Tcp.close Tcp.step Tcp.step_by new_tcp
tcp_close-gone_example = tcp_close-gone session (replicate 8 calm) (omega arith)

refusals-delay_example :
    let w = Tcp.run until_wait (Tcp.run (refusals 5) new_tcp) in
    (w.phase ≡ Tcp.waiting)
    × (w.retry_delay ≡ min 10000 (1000 * 2 ^ 5))
    × (w.events ≡ replicate 5 retrying ++ (retrying ∷ []))
refusals-delay_example = refusals-delay 5

-- A worker that has lost its connection while a frame waits; another one is given to it later.
abbrev lost : TcpWorker
lost = record new_tcp {
  tx = (1 ∷ []) ∷ [];
  phase = Tcp.discarding;
  events = opened ∷ tx (7 ∷ []) ∷ [];
}

abbrev later : List Move
later = sends (2 ∷ []) ∷ steps calm ∷ sends (3 ∷ []) ∷ map steps (replicate 8 calm)

retry-IsSublist_example :
    let v = Tcp.step calm lost in
    (v.events ≡ opened ∷ tx (7 ∷ []) ∷ [])
    × ((Tcp.step calm (Tcp.run (map sends ((2 ∷ []) ∷ [])) v)).events
        ≡ opened ∷ tx (7 ∷ []) ∷ retrying ∷ [])
    × ((more : List (List ℕ)) × ((transmitted (Tcp.run later v).events ≡ (7 ∷ []) ∷ more)
          × IsSublist more ((2 ∷ []) ∷ (3 ∷ []) ∷ [])))
unfolding new_tcp
retry-IsSublist_example = retry-IsSublist calm calm ((2 ∷ []) ∷ []) later lost refl
