-- ===== src/App/Safety/Runs.antt =====
-- The callbacks of the window that drive both wheels, one after the other as Tk runs them.
use navigation_robot.Base.{ℕ, Bool, Option, List, [], ◌∷◌}
use navigation_robot.Link.{poll as poll_handshake, Action as Poll, send as send_now}
use navigation_robot.App.State.{
  App, Action, ◌>>◌, Done, modify, skip, finish_disconnect as finish_disconnect_job,
  close_now as close_now_job, poll as poll_job, control_tick as control_tick_job, ConnectionType,
}
use navigation_robot.App.Session.{
  send, finish_disconnect, handle_open_timeout, handshake_tick, send_dual_stop, toggle_connection,
  close, handle_close_now,
}
use navigation_robot.App.Driving.{prepare_dual_control, KeySym, key_press, key_release}
use navigation_robot.App.Ticks.{Entry, poll, control_tick}

-- What the user puts into a field of the connection: its kind, the serial port, the host name, the TCP
-- port (`none` for a text that is no number).
pub data Edit : Type 0 where
  kind_chosen : ConnectionType → Edit
  port_chosen host_typed : List ℕ → Edit
  tcp_port_typed : Option ℕ → Edit

unfoldable pub edit : Edit → App → App
edit (kind_chosen kind) a = record a { connection_type = kind }
edit (port_chosen port) a = record a { port = port }
edit (host_typed host) a = record a { host = host }
edit (tcp_port_typed port) a = record a { tcp_port = port }

-- What calls the application: its timers, the keys, the buttons for both wheels and for the
-- connection, and the fields of the connection.
pub data Input : Type 0 where
  polled : ℕ → List Entry → Input
  ticked handshake_ticked : ℕ → Input
  open_timed_out disconnected toggled closing closed_now prepared : Input
  stopped : Bool → Input
  key_down : Bool → KeySym → Input
  key_up : KeySym → Input
  edited : Edit → Input

unfoldable pub respond : Input → Action Done
unfolding poll control_tick handshake_tick handle_open_timeout finish_disconnect toggle_connection
    close handle_close_now prepare_dual_control send_dual_stop key_press key_release edit
respond (polled allowed entries) = poll allowed entries >> skip
respond (ticked now) = control_tick now
respond (handshake_ticked now) = handshake_tick now
respond open_timed_out = modify handle_open_timeout
respond disconnected = modify finish_disconnect
respond toggled = toggle_connection
respond closing = close
respond closed_now = modify handle_close_now
respond prepared = prepare_dual_control
respond (stopped emergency) = send_dual_stop emergency
respond (key_down typing key) = modify (key_press typing key)
respond (key_up key) = key_release key
respond (edited e) = modify (edit e)

unfoldable pub respond_all : List Input → Action Done
unfolding respond
respond_all [] = skip
respond_all (i ∷ is) = respond i >> respond_all is
