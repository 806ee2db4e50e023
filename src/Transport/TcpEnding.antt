-- ===== src/Transport/TcpEnding.antt =====
-- A TCP worker that is told to stop ends, whatever is answered to it, and closes its events.
use navigation_robot.Base.{
  ℕ, ◌+◌, ◌-◌, ◌≤◌, ◌≡◌, refl, ap, ◌∙◌, arith, true, List, [], ◌∷◌, ◌++◌, map, length, Bool-cases,
  inl, inr, some,
}
use navigation_robot.Transport.{Answer, Move, closes, steps}
use navigation_robot.Transport.Life.{starting, gone, tcp_next, follow}
use navigation_robot.Transport.TcpLife.{tcp_ended, tcp_run-follow}
use navigation_robot.Transport.Ending.{gone-Tells, ended-Tells}
use navigation_robot.Transport.Tcp.{
  TcpWorker, Phase, loop_test, connecting, configuring, inner_test, draining, receiving, failed,
  discarding, reporting, waiting, closing, finished, new_tcp, close, step, step_by, move, run,
  drain, deliver, discard_pending_tx,
}

-- The steps that the worker still makes once it is told to stop, at most.
rank : Phase → ℕ → ℕ
rank loop_test n = 1
rank connecting n = 5
rank configuring n = 4
rank inner_test n = 3
rank draining n = 5 + n
rank receiving n = 4
rank failed n = 3
rank discarding n = 5
rank reporting n = 4
rank waiting n = 3
rank closing n = 2
rank finished n = 0

abbrev left : TcpWorker → ℕ
left w = rank w.phase (length w.tx)

drain-left :
    (answer : Answer) (queue : List (List ℕ)) (w : TcpWorker)
    → w.tx ≡ queue
    → left (drain answer queue w) ≤ 4 + length queue
unfolding rank
drain-left answer [] w e = omega arith
drain-left answer (bytes ∷ queue) w e = ground arith

deliver-left : (received : List ℕ) (w : TcpWorker) → left (deliver received w) ≤ 3
unfolding rank
deliver-left [] w = omega arith
deliver-left (byte ∷ received) w = omega arith

step_by-left :
    (phase : Phase) (answer : Answer) (w : TcpWorker)
    → w.phase ≡ phase
    → w.stopped ≡ true
    → left (step_by phase answer w) ≤ rank phase (length w.tx) - 1
unfolding rank step_by discard_pending_tx
step_by-left loop_test answer w p e = ground arith
step_by-left connecting answer w p e = ground arith
step_by-left configuring answer w p e = ground arith
step_by-left inner_test answer w p e = ground arith
step_by-left draining answer w p e = omega (arith, drain-left answer w.tx w refl)
step_by-left receiving answer w p e = elim (Bool-cases answer.timed_out) [
  | inl f ↦ rw f (omega arith)
  | inr f ↦ rw f (elim (Bool-cases answer.raised) [
    | inl g ↦ rw g (omega arith)
    | inr g ↦ rw g (deliver-left answer.received w)
  ])
]
step_by-left failed answer w p e = ground arith
step_by-left discarding answer w p e = ground arith
step_by-left reporting answer w p e = ground arith
step_by-left waiting answer w p e = ground arith
step_by-left closing answer w p e = ground arith
step_by-left finished answer w p e = rw p (omega arith)

rank-zero : (phase : Phase) (n : ℕ) → rank phase n ≤ 0 → phase ≡ finished
unfolding rank
rank-zero phase n h = ground arith

rank-bound : (phase : Phase) (n : ℕ) → rank phase n ≤ 5 + n
unfolding rank
rank-bound phase n = ground arith

pub step-stopped : (answer : Answer) (w : TcpWorker) → (step answer w).stopped ≡ w.stopped
unfolding step step_by discard_pending_tx
step-stopped answer w = ground arith

-- After as many steps as are left the thread has ended.
ends :
    (answers : List Answer) (w : TcpWorker)
    → w.stopped ≡ true
    → left w ≤ length answers
    → (run (map steps answers) w).phase ≡ finished
unfolding run move step
ends [] w e h = rank-zero w.phase (length w.tx) (omega arith)
ends (answer ∷ answers) w e h =
    ends answers (step answer w) (step-stopped answer w ∙ e)
      (omega (arith, step_by-left w.phase answer w refl e))

run-append :
    (moves more : List Move) (w : TcpWorker) → run (moves ++ more) w ≡ run more (run moves w)
unfolding run
run-append [] more w = refl
run-append (m ∷ moves) more w = run-append moves more (move m w)

closed_ends :
    (w : TcpWorker) (answers : List Answer)
    → 5 + length w.tx ≤ length answers
    → (run (closes ∷ map steps answers) w).phase ≡ finished
unfolding run move close
closed_ends w answers h =
    ends answers (close w) refl (omega (arith, rank-bound w.phase (length w.tx)))

-- After any moves of a TCP worker, `close` and five more steps of its thread than data wait in the
-- queue, whatever is answered to them, lead to the thread's end, and its last event is `closed`.
pub tcp_close-gone :
    (moves : List Move) (answers : List Answer)
    → 5 + length (run moves new_tcp).tx ≤ length answers
    → ((run (moves ++ (closes ∷ map steps answers)) new_tcp).phase ≡ finished)
      × (follow tcp_next
            (some starting)
            (run (moves ++ (closes ∷ map steps answers)) new_tcp).events
          ≡ some gone)
tcp_close-gone moves answers h =
    let last = moves ++ (closes ∷ map steps answers) in
    let ended : (run last new_tcp).phase ≡ finished =
      rw (run-append moves (closes ∷ map steps answers) new_tcp)
        (closed_ends (run moves new_tcp) answers h) in
    let life = follow tcp_next (some starting) (run last new_tcp).events in
    (
      ended,
      gone-Tells life (
          ended-Tells (tcp_ended (run last new_tcp).phase) life (ap tcp_ended ended)
            (tcp_run-follow last)),
    )
