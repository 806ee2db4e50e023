-- ===== src/Link.antt =====
-- navigation_robot/host/link.py: `HandshakeController`, which repeats HELLO until an answer or a
-- deadline, and `ResetDetector`, which looks for the boot banner of the ESP32 in the bytes received.
-- Times are in microseconds.
pub mod Handshake
pub mod Resets
use navigation_robot.Base.{
  ℕ, zero, suc, ◌+◌, Bool, true, false, not, Option, none, some, List, [], ◌∷◌, ◌++◌, ltb, leb,
  if◌then◌else◌, length, drop,
}
use navigation_robot.Base.Bytes.{find, last}
use navigation_robot.Config.{
  handshake_initial_delay, handshake_retry, handshake_timeout, reset_marker, reset_window,
}

-- The results `WAIT`, `SEND` and `TIMEOUT` of `poll`.
pub data Action : Type 0 where
  wait send timeout : Action

pub record HandshakeController : Type 0 where
  pub active : Bool
  pub deadline : ℕ
  pub next_send : ℕ

abbrev pub new_handshake : HandshakeController
new_handshake = record { active = false; deadline = 0; next_send = 0 }

unfoldable pub start : HandshakeController → ℕ → HandshakeController
start h now = record h {
  active = true;
  deadline = now + handshake_timeout;
  next_send = now + handshake_initial_delay;
}

unfoldable pub complete : HandshakeController → HandshakeController
complete h = record h { active = false }

unfoldable pub poll : HandshakeController → ℕ → HandshakeController × Action
poll h now =
    if not h.active
    then (h, wait)
    else if leb h.deadline now
    then (record h { active = false }, timeout)
    else if leb h.next_send now
    then (record h { next_send = now + handshake_retry }, send)
    else (h, wait)

pub record ResetDetector : Type 0 where
  pub buffer : List ℕ
  pub reset_times : List ℕ

abbrev pub new_detector : ResetDetector
new_detector = record { buffer = []; reset_times = [] }

-- `len(RESET_MARKER) - 1`
abbrev pub marker_keep : ℕ
marker_keep = 7

-- The loop of `feed`, on fuel; `found` is its local variable.
unfoldable pub scan : ℕ → ℕ → ResetDetector → Bool → ResetDetector × Bool
scan zero now d found = (d, found)
scan (suc fuel) now d found = elim (find reset_marker d.buffer) [
  | none ↦ (record d { buffer = last marker_keep d.buffer }, found)
  | some position ↦
      scan fuel now
        (record d {
          buffer = drop (position + length reset_marker) d.buffer;
          reset_times = d.reset_times ++ (now ∷ []);
        })
        true
]

-- `[item for item in self.reset_times if timestamp - item <= RESET_WINDOW_S]`
pub recent : ℕ → List ℕ → List ℕ
recent now [] = []
recent now (item ∷ items) =
    let rest = recent now items in if leb now (item + reset_window) then item ∷ rest else rest

abbrev forget : ℕ → ResetDetector × Bool → ResetDetector × ℕ
forget now (d, found) =
    let times = recent now d.reset_times in
    (record d { reset_times = times }, if found then length times else 0)

-- Every round that goes on takes the bytes of a marker, so as many rounds as bytes, and one, are
-- enough.
unfoldable pub feed : ResetDetector → List ℕ → ℕ → ResetDetector × ℕ
feed d bytes now =
    let buffer = d.buffer ++ bytes in
    forget now (scan (length buffer + 1) now (record d { buffer = buffer }) false)
