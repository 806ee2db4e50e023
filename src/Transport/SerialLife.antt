-- ===== src/Transport/SerialLife.antt =====
-- The events of a serial worker are in order.
use navigation_robot.Base.{
  ℕ, ◌≡◌, refl, ap, ◌∙◌, Bool, true, false, not, ◌&&◌, some, List, [], ◌∷◌, ◌++◌, if◌then◌else◌,
  ltb,
}
use navigation_robot.Config.{startup_purge_quiet_reads}
use navigation_robot.App.Ticks.{Event, opened, error, closed, rx, tx}
use navigation_robot.Transport.{Answer, Move, sends, closes, steps}
use navigation_robot.Transport.Serial
use navigation_robot.Transport.Serial.{SerialWorker}
use navigation_robot.Transport.Life.{
  Life, starting, connected, broken, gone, serial_next, follow, InOrder, emitted, IsAlive, Tells,
}

-- The lives of a serial worker at the places of its thread.
abbrev FitsSerial : Serial.Phase → Life → Type 0
FitsSerial Serial.loop_test life = life ≡ connected
FitsSerial Serial.draining life = life ≡ connected
FitsSerial Serial.reading life = life ≡ connected
FitsSerial Serial.closing life = IsAlive life
FitsSerial Serial.finished life = life ≡ gone
FitsSerial _ life = life ≡ starting

abbrev SerialInOrder : SerialWorker → Type 0
SerialInOrder w = InOrder serial_next (FitsSerial w.phase) w.events

if-SerialInOrder :
    (test : Bool) (w v : SerialWorker)
    → SerialInOrder w
    → SerialInOrder v
    → SerialInOrder (if test then w else v)
if-SerialInOrder true w v h k = h
if-SerialInOrder false w v h k = k

-- Where the events so far tell of this life.
module _ (w : SerialWorker) (life : Life)
    (h : follow serial_next (some starting) w.events ≡ some life) where
  fail-SerialInOrder : serial_next life error ≡ some broken → SerialInOrder (Serial.fail w)
  fail-SerialInOrder e = emitted serial_next IsAlive w.events error life broken h e tt

  emit-SerialInOrder :
      (event : Event)
      → serial_next life event ≡ some connected
      → SerialInOrder (Serial.emit event Serial.loop_test w)
  emit-SerialInOrder event e =
      emitted serial_next (λ l. l ≡ connected) w.events event life connected h e refl

  close-SerialInOrder :
      IsAlive life → InOrder serial_next (λ l. l ≡ gone) (w.events ++ (closed ∷ []))
  close-SerialInOrder a =
      emitted serial_next (λ l. l ≡ gone) w.events closed life gone h (ends life a) refl
    where
      ends : (life : Life) → IsAlive life → serial_next life closed ≡ some gone
      ends starting a = refl
      ends connected a = refl
      ends broken a = refl
      ends gone a = absurd a

drain-SerialInOrder :
    (answer : Answer) (queue : List (List ℕ)) (w : SerialWorker)
    → follow serial_next (some starting) w.events ≡ some connected
    → SerialInOrder (Serial.drain answer queue w)
drain-SerialInOrder answer [] w h = (connected, (h, refl))
drain-SerialInOrder answer (bytes ∷ queue) w h =
    let taken : SerialWorker = record w { tx = queue } in
    if-SerialInOrder answer.raised (Serial.fail taken)
      (Serial.emit (tx bytes) Serial.draining taken) (fail-SerialInOrder taken connected h refl)
      (emitted serial_next (λ l. l ≡ connected) w.events (tx bytes) connected connected h refl refl)

deliver-SerialInOrder :
    (received : List ℕ) (w : SerialWorker)
    → follow serial_next (some starting) w.events ≡ some connected
    → SerialInOrder (Serial.deliver received w)
deliver-SerialInOrder [] w h = (connected, (h, refl))
deliver-SerialInOrder (byte ∷ received) w h =
    emit-SerialInOrder w connected h (rx (byte ∷ received)) refl

-- A step that leads on without a report, unless its call raises.
go_on-SerialInOrder :
    (raised : Bool) (w v : SerialWorker) (life : Life)
    → follow serial_next (some starting) w.events ≡ some life
    → serial_next life error ≡ some broken
    → SerialInOrder v
    → SerialInOrder (if raised then Serial.fail w else v)
go_on-SerialInOrder raised w v life h e k =
    if-SerialInOrder raised (Serial.fail w) v (fail-SerialInOrder w life h e) k

step_by-SerialInOrder :
    (phase : Serial.Phase) (answer : Answer) (w : SerialWorker)
    → w.phase ≡ phase
    → InOrder serial_next (FitsSerial phase) w.events
    → SerialInOrder (Serial.step_by phase answer w)
unfolding Serial.step_by
step_by-SerialInOrder Serial.opening answer w p (life, (h, e)) =
    go_on-SerialInOrder answer.raised w _ starting (h ∙ ap some e) refl (life, (h, e))
step_by-SerialInOrder Serial.purge_start answer w p (life, (h, e)) = (life, (h, e))
step_by-SerialInOrder (Serial.purge_test deadline quiet_reads) answer w p (life, (h, e)) =
    if-SerialInOrder
      (not w.stopped && ltb answer.now deadline && ltb quiet_reads startup_purge_quiet_reads)
      (Serial.go_to (Serial.purge_read deadline quiet_reads) w) (Serial.go_to Serial.purge_end w)
      (life, (h, e)) (life, (h, e))
step_by-SerialInOrder (Serial.purge_read deadline quiet_reads) answer w p (life, (h, e)) =
    go_on-SerialInOrder answer.raised w _ starting (h ∙ ap some e) refl (life, (h, e))
step_by-SerialInOrder Serial.purge_end answer w p (life, (h, e)) =
    go_on-SerialInOrder answer.raised w (Serial.go_to Serial.opened_test w) starting (h ∙ ap some e)
      refl (life, (h, e))
step_by-SerialInOrder Serial.opened_test answer w p (life, (h, e)) =
    if-SerialInOrder w.stopped (Serial.go_to Serial.closing w)
      (Serial.emit opened Serial.loop_test w) (starting, (h ∙ ap some e, tt))
      (emit-SerialInOrder w starting (h ∙ ap some e) opened refl)
step_by-SerialInOrder Serial.loop_test answer w p (life, (h, e)) =
    if-SerialInOrder w.stopped (Serial.go_to Serial.closing w) (Serial.go_to Serial.draining w)
      (connected, (h ∙ ap some e, tt)) (life, (h, e))
step_by-SerialInOrder Serial.draining answer w p (life, (h, e)) =
    drain-SerialInOrder answer w.tx w (h ∙ ap some e)
step_by-SerialInOrder Serial.reading answer w p (life, (h, e)) =
    go_on-SerialInOrder answer.raised w (Serial.deliver answer.received w) connected (h ∙ ap some e)
      refl (deliver-SerialInOrder answer.received w (h ∙ ap some e))
step_by-SerialInOrder Serial.closing answer w p (life, (h, e)) = close-SerialInOrder w life h e
step_by-SerialInOrder Serial.finished answer w p (life, (h, e)) = rw p (life, (h, e))

-- A call changes neither the events nor the place of the thread.
move-SerialInOrder :
    (m : Move) (w : SerialWorker) → SerialInOrder w → SerialInOrder (Serial.move m w)
unfolding Serial.move Serial.send Serial.close Serial.step
move-SerialInOrder (sends bytes) w h =
    if-SerialInOrder (not w.stopped) (record w { tx = w.tx ++ (bytes ∷ []) }) w h h
move-SerialInOrder closes w h = h
move-SerialInOrder (steps answer) w h = step_by-SerialInOrder w.phase answer w refl h

run-SerialInOrder :
    (moves : List Move) (w : SerialWorker) → SerialInOrder w → SerialInOrder (Serial.run moves w)
unfolding Serial.run
run-SerialInOrder [] w h = h
run-SerialInOrder (m ∷ moves) w h =
    run-SerialInOrder moves (Serial.move m w) (move-SerialInOrder m w h)

abbrev pub serial_ended : Serial.Phase → Bool
serial_ended Serial.finished = true
serial_ended _ = false

serial_phase-Tells :
    (phase : Serial.Phase) (life : Life)
    → FitsSerial phase life
    → Tells (serial_ended phase) (some life)
serial_phase-Tells Serial.opening life e = rw e refl
serial_phase-Tells Serial.purge_start life e = rw e refl
serial_phase-Tells (Serial.purge_test deadline quiet_reads) life e = rw e refl
serial_phase-Tells (Serial.purge_read deadline quiet_reads) life e = rw e refl
serial_phase-Tells Serial.purge_end life e = rw e refl
serial_phase-Tells Serial.opened_test life e = rw e refl
serial_phase-Tells Serial.loop_test life e = rw e refl
serial_phase-Tells Serial.draining life e = rw e refl
serial_phase-Tells Serial.reading life e = rw e refl
serial_phase-Tells Serial.closing starting e = refl
serial_phase-Tells Serial.closing connected e = refl
serial_phase-Tells Serial.closing broken e = refl
serial_phase-Tells Serial.closing gone e = absurd e
serial_phase-Tells Serial.finished life e = rw e refl

-- However the calls of `send` and `close` fall between the steps of the thread, and whatever the serial
-- port answers, the events of a serial worker are in order: `opened` once and before all data, one
-- `error` at most, which no data follow, and `closed` last. `closed` is there if the thread has ended,
-- and only then.
pub serial_run-follow :
    (moves : List Move)
    → Tells
        (serial_ended (Serial.run moves Serial.new_serial).phase)
        (follow serial_next (some starting) (Serial.run moves Serial.new_serial).events)
unfolding Serial.new_serial
serial_run-follow moves =
    let last = Serial.run moves Serial.new_serial in
    let (life, (h, e)) = run-SerialInOrder moves Serial.new_serial (starting, (refl, refl)) in
    rw h (serial_phase-Tells last.phase life e)
