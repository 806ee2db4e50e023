-- ===== src/Link/Handshake.antt =====
-- How often HELLO is sent, and that a handshake ends.
use navigation_robot.Base.{
  ℕ, ◌+◌, ◌*◌, ◌≤◌, ◌<◌, ◌≡◌, ◌≢◌, ◌⊎◌, List, [], ◌∷◌, arith, if◌then◌else◌, ltb,
}
use navigation_robot.Link.{HandshakeController, Action, wait, send, timeout, start, complete, poll}
use navigation_robot.Config.{handshake_initial_delay, handshake_retry, handshake_timeout}

-- One poll for each moment of the list, with the actions in their order.
pub poll_all : HandshakeController → List ℕ → HandshakeController × List Action
poll_all h [] = (h, [])
poll_all h (now ∷ later) =
    let (g, action) = poll h now in let (end, actions) = poll_all g later in (end, action ∷ actions)

-- How many polls asked for a HELLO, and how many reported the time-out.
abbrev pub sends : List Action → ℕ
sends [] = 0
sends (send ∷ actions) = sends actions + 1
sends (wait ∷ actions) = sends actions
sends (timeout ∷ actions) = sends actions

abbrev pub timeouts : List Action → ℕ
timeouts [] = 0
timeouts (timeout ∷ actions) = timeouts actions + 1
timeouts (wait ∷ actions) = timeouts actions
timeouts (send ∷ actions) = timeouts actions

-- What is left of the time until the deadline bounds the number of sends.
abbrev IsBounded : HandshakeController → List Action → Type 0
IsBounded h actions =
    ((sends actions ≡ 0)
      ⊎ (h.next_send + sends actions * handshake_retry < h.deadline + handshake_retry))
    × (timeouts actions ≤ 1)

-- The first poll of a started handshake: nothing before the initial delay, a HELLO between that
-- and the deadline, and from the deadline on the time-out.
pub start-poll :
    (h : HandshakeController) (now later : ℕ)
    → (poll (start h now) later).1 ≡ (
        if ltb later (now + handshake_initial_delay)
        then wait
        else if ltb later (now + handshake_timeout)
        then send
        else timeout)
unfolding start poll
start-poll h now later = ground arith

-- After a HELLO no poll within the retry period asks for another one; and once the handshake is
-- completed, a poll changes nothing and asks for nothing.
pub poll-send_gap :
    (h : HandshakeController) (now later : ℕ)
    → (poll h now).1 ≡ send
    → later < now + handshake_retry
    → ((poll (poll h now).0 later).1 ≢ send)
      × (poll (complete (poll h now).0) later ≡ (complete (poll h now).0, wait))
unfolding poll complete
poll-send_gap h now later sent early = ground arith
