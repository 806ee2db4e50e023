-- ===== src/Transport/Tcp.antt =====
-- navigation_robot/host/transport.py: `TcpWorker`. The delay is in milliseconds.
use navigation_robot.Base.{ℕ, ◌*◌, Bool, true, false, not, List, [], ◌∷◌, ◌++◌, min, if◌then◌else◌}
use navigation_robot.App.Ticks.{Event, opened, retrying, closed, rx, tx}
use navigation_robot.Transport.{
  Answer, Move, sends, closes, steps, Connection, absent, is_open, shut_if_open,
}

-- Where `_run` stands: in its outer loop, in the inner one, in `except`, and in `finally`.
pub data Phase : Type 0 where
  loop_test connecting configuring inner_test draining receiving : Phase
  failed discarding reporting waiting closing finished : Phase

pub record TcpWorker : Type 0 where
  pub tx : List (List ℕ)
  pub stopped : Bool
  pub connection : Connection
  pub retry_delay : ℕ
  pub phase : Phase
  pub events : List Event

unfoldable pub new_tcp : TcpWorker
new_tcp = record {
  tx = [];
  stopped = false;
  connection = absent;
  retry_delay = 1000;
  phase = loop_test;
  events = [];
}

unfoldable pub send : List ℕ → TcpWorker → TcpWorker
send bytes w = if not w.stopped then record w { tx = w.tx ++ (bytes ∷ []) } else w

abbrev pub emit : Event → Phase → TcpWorker → TcpWorker
emit event phase w = record w { events = w.events ++ (event ∷ []); phase = phase }

abbrev pub go_to : Phase → TcpWorker → TcpWorker
go_to phase w = record w { phase = phase }

-- The step from `get_nowait` to `_emit`: what was taken from the queue is lost if `sendall` raises.
abbrev pub drain : Answer → List (List ℕ) → TcpWorker → TcpWorker
drain answer [] w = go_to receiving w
drain answer (bytes ∷ queue) w =
    let taken : TcpWorker = record w { tx = queue } in
    if answer.raised then go_to failed taken else emit (tx bytes) draining taken

-- An empty answer of `recv` is the end of the connection, which raises `ConnectionError`.
abbrev pub deliver : List ℕ → TcpWorker → TcpWorker
deliver [] w = go_to failed w
deliver (byte ∷ received) w = emit (rx (byte ∷ received)) inner_test w

-- `_discard_pending_tx`, as it stands when it has found the queue empty.
unfoldable pub discard_pending_tx : TcpWorker → TcpWorker
discard_pending_tx w = record w { tx = [] }

unfoldable pub step_by : Phase → Answer → TcpWorker → TcpWorker
unfolding discard_pending_tx
step_by loop_test answer w = if w.stopped then emit closed finished w else go_to connecting w
step_by connecting answer w =
    if answer.raised then go_to failed w else record w { connection = is_open; phase = configuring }
step_by configuring answer w =
    if answer.raised
    then go_to failed w
    else emit opened inner_test (record w { retry_delay = 1000 })
step_by inner_test answer w = if w.stopped then go_to closing w else go_to draining w
step_by draining answer w = drain answer w.tx w
step_by receiving answer w =
    if answer.timed_out
    then go_to inner_test w
    else if answer.raised
    then go_to failed w
    else deliver answer.received w
step_by failed answer w = if w.stopped then go_to closing w else go_to discarding w
step_by discarding answer w = go_to reporting (discard_pending_tx w)
step_by reporting answer w = emit retrying waiting w
step_by waiting answer w = record w { retry_delay = min 10000 (w.retry_delay * 2); phase = closing }
step_by closing answer w = record w { connection = absent; phase = loop_test }
step_by finished answer w = w

-- The next step of the thread.
unfoldable pub step : Answer → TcpWorker → TcpWorker
unfolding step_by
step answer w = step_by w.phase answer w

unfoldable pub close : TcpWorker → TcpWorker
unfolding shut_if_open
close w = record w { stopped = true; connection = shut_if_open w.connection }

unfoldable pub move : Move → TcpWorker → TcpWorker
unfolding send close step
move (sends bytes) w = send bytes w
move closes w = close w
move (steps answer) w = step answer w

unfoldable pub run : List Move → TcpWorker → TcpWorker
unfolding move
run [] w = w
run (m ∷ moves) w = run moves (move m w)
