-- ===== src/Transport/Serial.antt =====
-- navigation_robot/host/transport.py: `open_ftdi_serial` and `SerialWorker`. Times are in
-- microseconds.
use navigation_robot.Base.{
  ℕ, suc, ◌+◌, Bool, true, false, not, ◌&&◌, List, [], ◌∷◌, ◌++◌, ltb, if◌then◌else◌,
}
use navigation_robot.Config.{startup_purge_max, startup_purge_quiet_reads}
use navigation_robot.App.Ticks.{Event, opened, error, closed, rx, tx}
use navigation_robot.Transport.{
  Answer, Move, sends, closes, steps, Connection, absent, is_open, shut_if_open,
}

-- What `open_ftdi_serial` does with the serial library.
pub data PortCall : Type 0 where
  construct clear_dtr clear_rts set_port open_port reset_input_buffer : PortCall

-- The calls up to the first that raises, and whether one did.
unfoldable pub perform : (PortCall → Bool) → List PortCall → List PortCall × Bool
perform fails [] = ([], false)
perform fails (call ∷ calls) =
    let (made, raised) = perform fails calls in
    if fails call then (call ∷ [], true) else (call ∷ made, raised)

unfoldable pub open_ftdi_serial : (PortCall → Bool) → List PortCall × Bool
unfolding perform
open_ftdi_serial fails =
    perform fails
      (construct ∷ clear_dtr ∷ clear_rts ∷ set_port ∷ open_port ∷ reset_input_buffer ∷ [])

-- Where `_run` stands: before the port is opened, in `_purge_startup_backlog` (with its deadline and
-- the quiet reads so far), in its two loops, and in its `finally`.
pub data Phase : Type 0 where
  opening purge_start : Phase
  purge_test purge_read : ℕ → ℕ → Phase
  purge_end opened_test loop_test draining reading closing finished : Phase

pub record SerialWorker : Type 0 where
  pub tx : List (List ℕ)
  pub stopped : Bool
  pub connection : Connection
  pub phase : Phase
  pub events : List Event

unfoldable pub new_serial : SerialWorker
new_serial = record { tx = []; stopped = false; connection = absent; phase = opening; events = [] }

unfoldable pub send : List ℕ → SerialWorker → SerialWorker
send bytes w = if not w.stopped then record w { tx = w.tx ++ (bytes ∷ []) } else w

abbrev pub emit : Event → Phase → SerialWorker → SerialWorker
emit event phase w = record w { events = w.events ++ (event ∷ []); phase = phase }

abbrev pub go_to : Phase → SerialWorker → SerialWorker
go_to phase w = record w { phase = phase }

-- `except Exception as exc`
abbrev pub fail : SerialWorker → SerialWorker
fail w = emit error closing w

abbrev pub quiet_after : List ℕ → ℕ → ℕ
quiet_after [] quiet_reads = suc quiet_reads
quiet_after (_ ∷ _) quiet_reads = 0

-- The step from `get_nowait` to `_emit`: what was taken from the queue is lost if `write` raises.
abbrev pub drain : Answer → List (List ℕ) → SerialWorker → SerialWorker
drain answer [] w = go_to reading w
drain answer (bytes ∷ queue) w =
    let taken : SerialWorker = record w { tx = queue } in
    if answer.raised then fail taken else emit (tx bytes) draining taken

abbrev pub deliver : List ℕ → SerialWorker → SerialWorker
deliver [] w = go_to loop_test w
deliver (byte ∷ received) w = emit (rx (byte ∷ received)) loop_test w

unfoldable pub step_by : Phase → Answer → SerialWorker → SerialWorker
unfolding shut_if_open
step_by opening answer w =
    if answer.raised then fail w else record w { connection = is_open; phase = purge_start }
step_by purge_start answer w = go_to (purge_test (answer.now + startup_purge_max) 0) w
step_by (purge_test deadline quiet_reads) answer w =
    if not w.stopped && ltb answer.now deadline && ltb quiet_reads startup_purge_quiet_reads
    then go_to (purge_read deadline quiet_reads) w
    else go_to purge_end w
step_by (purge_read deadline quiet_reads) answer w =
    if answer.raised
    then fail w
    else go_to (purge_test deadline (quiet_after answer.received quiet_reads)) w
step_by purge_end answer w = if answer.raised then fail w else go_to opened_test w
step_by opened_test answer w = if w.stopped then go_to closing w else emit opened loop_test w
step_by loop_test answer w = if w.stopped then go_to closing w else go_to draining w
step_by draining answer w = drain answer w.tx w
step_by reading answer w = if answer.raised then fail w else deliver answer.received w
step_by closing answer w =
    emit closed finished (record w { connection = shut_if_open w.connection })
step_by finished answer w = w

-- The next step of the thread.
unfoldable pub step : Answer → SerialWorker → SerialWorker
unfolding step_by
step answer w = step_by w.phase answer w

unfoldable pub close : SerialWorker → SerialWorker
unfolding shut_if_open
close w = record w { stopped = true; connection = shut_if_open w.connection }

unfoldable pub move : Move → SerialWorker → SerialWorker
unfolding send close step
move (sends bytes) w = send bytes w
move closes w = close w
move (steps answer) w = step answer w

unfoldable pub run : List Move → SerialWorker → SerialWorker
unfolding move
run [] w = w
run (m ∷ moves) w = run moves (move m w)
