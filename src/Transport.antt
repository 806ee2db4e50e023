-- ===== src/Transport.antt =====
-- navigation_robot/host/transport.py: what the serial worker and the TCP worker have in common. A
-- worker is a thread beside the one of the application, which calls `send` and `close`; they share the
-- queue of what is to be sent and the event that stops the thread. A run is a list of moves, in the
-- order in which they happen: a call, or the next step of the thread with what the outside world
-- answers to it.
pub mod Serial
pub mod Tcp
pub mod Traffic
pub mod Fifo
pub mod Retries
pub mod Life
pub mod SerialLife
pub mod TcpLife
pub mod Ending
pub mod TcpEnding
pub mod Forgetting
use navigation_robot.Base.{
  ℕ, Bool, true, false, Option, none, some, List, [], ◌∷◌, ◌++◌, if◌then◌else◌,
}
use navigation_robot.App.Ticks.{Event, opened, retrying, error, closed, rx, tx}

-- What a step of the thread may meet: the call that it makes raises an exception or times out, the
-- answer of `time.monotonic`, and the bytes that were read.
pub record Answer : Type 0 where
  pub raised : Bool
  pub timed_out : Bool
  pub now : ℕ
  pub received : List ℕ

pub data Move : Type 0 where
  sends : List ℕ → Move
  closes : Move
  steps : Answer → Move

-- `self.connection`: `None`, open, or closed.
pub data Connection : Type 0 where
  absent is_open shut : Connection

unfoldable pub shut_if_open : Connection → Connection
shut_if_open absent = absent
shut_if_open is_open = shut
shut_if_open shut = shut

abbrev pub tx_of : Event → List (List ℕ)
tx_of (tx data') = data' ∷ []
tx_of _ = []

-- What a worker has reported as sent.
abbrev pub transmitted : List Event → List (List ℕ)
transmitted [] = []
transmitted (event ∷ events) = tx_of event ++ transmitted events

-- What a worker takes from its caller, which is all until it is told to stop.
abbrev pub accepted : Bool → List Move → List (List ℕ)
accepted true moves = []
accepted false [] = []
accepted false (sends data' ∷ moves) = data' ∷ accepted false moves
accepted false (closes ∷ moves) = []
accepted false (steps answer ∷ moves) = accepted false moves
