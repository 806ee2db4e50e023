-- ===== src/Transport/Fifo.antt =====
-- A serial worker is a queue: what it has reported as sent is what its caller gave to it, in order.
use navigation_robot.Base.{
  ℕ, ◌≡◌, refl, ap, sym, ◌∙◌, Bool, true, false, not, ◌&&◌, List, [], ◌∷◌, ◌++◌, append-nil,
  append_assoc, if◌then◌else◌, Bool-cases, arith, ltb, inl, inr,
}
use navigation_robot.Config.{startup_purge_quiet_reads}
use navigation_robot.App.Ticks.{Event, opened, error, closed, rx, tx}
use navigation_robot.Transport.{Answer, Move, sends, closes, steps, tx_of, transmitted, accepted}
use navigation_robot.Transport.Traffic.{
  accepted-nil, accepted_stopped, accepted-sends, accepted-closes, accepted-steps,
  transmitted-append, quiet,
}
use navigation_robot.Transport.Serial.{
  SerialWorker, Phase, opening, purge_start, purge_test, purge_read, purge_end, opened_test,
  loop_test, draining, reading, closing, finished, new_serial, send, close, step, step_by, move,
  run, drain, deliver, fail, emit, go_to,
}

-- The thread has left its loop.
abbrev pub is_over : Phase → Bool
is_over closing = true
is_over finished = true
is_over _ = false

-- The abstract queue: of what was put into it, this was taken out, and the rest waits in it. A worker
-- that is over takes out no more.
abbrev pub Queued : Bool → List (List ℕ) → List (List ℕ) → List (List ℕ) → Type 0
Queued false put taken waiting = put ≡ taken ++ waiting
Queued true put taken waiting = (rest : List (List ℕ)) × (put ≡ taken ++ rest)

abbrev pub Serves : List (List ℕ) → SerialWorker → Type 0
Serves put w = Queued (is_over w.phase) put (transmitted w.events) w.tx

if-Serves :
    (put : List (List ℕ)) (test : Bool) (w v : SerialWorker)
    → Serves put w
    → Serves put v
    → Serves put (if test then w else v)
if-Serves put true w v h k = h
if-Serves put false w v h k = k

module _ (put : List (List ℕ)) (w : SerialWorker) (h : put ≡ transmitted w.events ++ w.tx) where
  fail-Serves : Serves put (fail w)
  fail-Serves = rw (quiet w.events error refl) (w.tx, h)

  live : (event : Event) → tx_of event ≡ [] → Serves put (emit event loop_test w)
  live event e = rw (quiet w.events event e) h

drain-Serves :
    (put : List (List ℕ)) (answer : Answer) (queue : List (List ℕ)) (w : SerialWorker)
    → put ≡ transmitted w.events ++ queue
    → w.tx ≡ queue
    → Serves put (drain answer queue w)
drain-Serves put answer [] w h e = rw e h
drain-Serves put answer (bytes ∷ queue) w h e = elim (Bool-cases answer.raised) [
  | inl f ↦ rw (f, quiet w.events error refl) (bytes ∷ queue, h)
  | inr f ↦ rw (f, transmitted-append w.events (tx bytes ∷ []), append_assoc) h
]

deliver-Serves :
    (put : List (List ℕ)) (received : List ℕ) (w : SerialWorker)
    → put ≡ transmitted w.events ++ w.tx
    → Serves put (deliver received w)
deliver-Serves put [] w h = h
deliver-Serves put (byte ∷ received) w h = live put w h (rx (byte ∷ received)) refl

over-Serves :
    (put : List (List ℕ)) (w : SerialWorker)
    → Queued true put (transmitted w.events) w.tx
    → Queued true put (transmitted (w.events ++ (closed ∷ []))) w.tx
over-Serves put w h = rw (quiet w.events closed refl) h

step_by-Serves :
    (put : List (List ℕ)) (phase : Phase) (answer : Answer) (w : SerialWorker)
    → w.phase ≡ phase
    → Queued (is_over phase) put (transmitted w.events) w.tx
    → Serves put (step_by phase answer w)
unfolding step_by
step_by-Serves put opening answer w e h =
    if-Serves put answer.raised (fail w) _ (fail-Serves put w h) h
step_by-Serves put purge_start answer w e h = h
step_by-Serves put (purge_test deadline quiet_reads) answer w e h =
    if-Serves put
      (not w.stopped && ltb answer.now deadline && ltb quiet_reads startup_purge_quiet_reads)
      (go_to (purge_read deadline quiet_reads) w) (go_to purge_end w) h h
step_by-Serves put (purge_read deadline quiet_reads) answer w e h =
    if-Serves put answer.raised (fail w) _ (fail-Serves put w h) h
step_by-Serves put purge_end answer w e h =
    if-Serves put answer.raised (fail w) (go_to opened_test w) (fail-Serves put w h) h
step_by-Serves put opened_test answer w e h =
    if-Serves put w.stopped (go_to closing w) (emit opened loop_test w) (w.tx, h)
      (live put w h opened refl)
step_by-Serves put loop_test answer w e h =
    if-Serves put w.stopped (go_to closing w) (go_to draining w) (w.tx, h) h
step_by-Serves put draining answer w e h = drain-Serves put answer w.tx w h refl
step_by-Serves put reading answer w e h =
    if-Serves put answer.raised (fail w) (deliver answer.received w) (fail-Serves put w h)
      (deliver-Serves put answer.received w h)
step_by-Serves put closing answer w e h = over-Serves put w h
step_by-Serves put finished answer w e h = rw e h

step-Serves :
    (put : List (List ℕ)) (answer : Answer) (w : SerialWorker)
    → Serves put w
    → Serves put (step answer w)
unfolding step
step-Serves put answer w h = step_by-Serves put w.phase answer w refl h

-- A datum put into the queue.
put-Queued :
    (over : Bool) (put taken waiting : List (List ℕ)) (bytes : List ℕ)
    → Queued over put taken waiting
    → Queued over (put ++ (bytes ∷ [])) taken (waiting ++ (bytes ∷ []))
put-Queued false put taken waiting bytes h = rw h (append_assoc taken waiting (bytes ∷ []))
put-Queued true put taken waiting bytes (rest, h) =
    (rest ++ (bytes ∷ []), rw h (append_assoc taken rest (bytes ∷ [])))

send-Serves :
    (put : List (List ℕ)) (bytes : List ℕ) (w : SerialWorker)
    → w.stopped ≡ false
    → Serves put w
    → Serves (put ++ (bytes ∷ [])) (send bytes w)
unfolding send
send-Serves put bytes w e h =
    rw e (put-Queued (is_over w.phase) put (transmitted w.events) w.tx bytes h)

close-Serves : (put : List (List ℕ)) (w : SerialWorker) → Serves put w → Serves put (close w)
unfolding close
close-Serves put w h = h

send_stopped : (bytes : List ℕ) (w : SerialWorker) → w.stopped ≡ true → send bytes w ≡ w
unfolding send
send_stopped bytes w e = ap (λ t. if not t then record w { tx = w.tx ++ (bytes ∷ []) } else w) e

send-stopped : (bytes : List ℕ) (w : SerialWorker) → (send bytes w).stopped ≡ w.stopped
unfolding send
send-stopped bytes w = ground arith

pub step-stopped : (answer : Answer) (w : SerialWorker) → (step answer w).stopped ≡ w.stopped
unfolding step step_by
step-stopped answer w = ground arith

next-Serves : (a b : List (List ℕ)) (w : SerialWorker) → a ≡ b → Serves b w → Serves a w
next-Serves a b w e h = rw e h

run-Serves :
    (moves : List Move) (put : List (List ℕ)) (w : SerialWorker)
    → Serves put w
    → Serves (put ++ accepted w.stopped moves) (run moves w)
unfolding run move
run-Serves [] put w h = rw (accepted-nil w.stopped, append-nil put) h
run-Serves (sends bytes ∷ moves) put w h = elim (Bool-cases w.stopped) [
  | inl e ↦
      next-Serves (put ++ accepted w.stopped (sends bytes ∷ moves))
        (put ++ accepted w.stopped moves) (run moves (send bytes w))
        (ap (λ t. put ++ t)
          (accepted_stopped w.stopped (sends bytes ∷ moves) e
            ∙ sym (accepted_stopped w.stopped moves e)))
        (rw (send_stopped bytes w e) (run-Serves moves put w h))
  | inr e ↦
      next-Serves (put ++ accepted w.stopped (sends bytes ∷ moves))
        ((put ++ (bytes ∷ [])) ++ accepted (send bytes w).stopped moves) (run moves (send bytes w))
        (ap (λ t. put ++ t) (accepted-sends w.stopped bytes moves e)
          ∙ sym (append_assoc put (bytes ∷ []) (accepted w.stopped moves))
          ∙ ap (λ t. (put ++ (bytes ∷ [])) ++ accepted t moves) (sym (send-stopped bytes w)))
        (run-Serves moves (put ++ (bytes ∷ [])) (send bytes w) (send-Serves put bytes w e h))
]
run-Serves (closes ∷ moves) put w h =
    next-Serves (put ++ accepted w.stopped (closes ∷ moves)) (put ++ accepted true moves)
      (run moves (close w)) (ap (λ t. put ++ t) (accepted-closes w.stopped moves))
      (run-Serves moves put (close w) (close-Serves put w h))
run-Serves (steps answer ∷ moves) put w h =
    next-Serves (put ++ accepted w.stopped (steps answer ∷ moves))
      (put ++ accepted (step answer w).stopped moves) (run moves (step answer w))
      (ap (λ t. put ++ t)
        (accepted-steps w.stopped answer moves
          ∙ ap (λ t. accepted t moves) (sym (step-stopped answer w))))
      (run-Serves moves put (step answer w) (step-Serves put answer w h))

-- However the calls of `send` and `close` fall between the steps of the thread, and whatever the serial
-- port answers: what the worker has reported as sent, followed by what waits in its queue, is what
-- its caller gave to it before it was told to stop, in that order. Once the thread has left its loop,
-- what it has reported as sent is still a beginning of what it was given.
pub run-Queued :
    (moves : List Move)
    → Queued
        (is_over (run moves new_serial).phase)
        (accepted false moves)
        (transmitted (run moves new_serial).events)
        (run moves new_serial).tx
unfolding new_serial
run-Queued moves = run-Serves moves [] new_serial refl
