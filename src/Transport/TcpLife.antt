-- ===== src/Transport/TcpLife.antt =====
-- The events of a TCP worker are in order.
use navigation_robot.Base.{
  ℕ, ◌≡◌, refl, ap, ◌∙◌, Bool, true, false, not, some, List, [], ◌∷◌, ◌++◌, if◌then◌else◌,
}
use navigation_robot.App.Ticks.{opened, retrying, closed, rx, tx}
use navigation_robot.Transport.{Answer, Move, sends, closes, steps}
use navigation_robot.Transport.Tcp
use navigation_robot.Transport.Tcp.{TcpWorker}
use navigation_robot.Transport.Life.{
  Life, starting, connected, broken, gone, tcp_next, follow, InOrder, emitted, Tells,
}

abbrev IsUp : Life → Type 0
IsUp starting = Unit
IsUp connected = Unit
IsUp _ = ⊥

-- Between two connections a worker has none, unless it is told to stop.
abbrev Rests : Bool → Life → Type 0
Rests false life = life ≡ starting
Rests true life = IsUp life

-- The lives of a TCP worker at the places of its thread.
abbrev FitsTcp : Tcp.Phase → Bool → Life → Type 0
FitsTcp Tcp.loop_test stopped life = Rests stopped life
FitsTcp Tcp.closing stopped life = Rests stopped life
FitsTcp Tcp.connecting stopped life = life ≡ starting
FitsTcp Tcp.configuring stopped life = life ≡ starting
FitsTcp Tcp.waiting stopped life = life ≡ starting
FitsTcp Tcp.failed stopped life = IsUp life
FitsTcp Tcp.discarding stopped life = IsUp life
FitsTcp Tcp.reporting stopped life = IsUp life
FitsTcp Tcp.finished stopped life = life ≡ gone
FitsTcp _ stopped life = life ≡ connected

abbrev TcpInOrder : TcpWorker → Type 0
TcpInOrder w = InOrder tcp_next (FitsTcp w.phase w.stopped) w.events

if-TcpInOrder :
    (test : Bool) (w v : TcpWorker)
    → TcpInOrder w
    → TcpInOrder v
    → TcpInOrder (if test then w else v)
if-TcpInOrder true w v h k = h
if-TcpInOrder false w v h k = k

Rests-IsUp : (stopped : Bool) (life : Life) → Rests stopped life → IsUp life
Rests-IsUp false life e = rw e tt
Rests-IsUp true life h = h

starting-Rests : (stopped : Bool) → Rests stopped starting
starting-Rests false = refl
starting-Rests true = tt

starting-Rests_eq : (stopped : Bool) (life : Life) → life ≡ starting → Rests stopped life
starting-Rests_eq stopped life e = rw e (starting-Rests stopped)

-- A worker that stops while it is up.
stop-Rests : (stopped : Bool) (life : Life) → stopped ≡ true → IsUp life → Rests stopped life
stop-Rests true life e h = h
stop-Rests false life e h = absurd (cc e)

drain-TcpInOrder :
    (answer : Answer) (queue : List (List ℕ)) (w : TcpWorker)
    → follow tcp_next (some starting) w.events ≡ some connected
    → TcpInOrder (Tcp.drain answer queue w)
drain-TcpInOrder answer [] w h = (connected, (h, refl))
drain-TcpInOrder answer (bytes ∷ queue) w h =
    let taken : TcpWorker = record w { tx = queue } in
    if-TcpInOrder answer.raised (Tcp.go_to Tcp.failed taken)
      (Tcp.emit (tx bytes) Tcp.draining taken) (connected, (h, tt))
      (emitted tcp_next (λ l. l ≡ connected) w.events (tx bytes) connected connected h refl refl)

deliver-TcpInOrder :
    (received : List ℕ) (w : TcpWorker)
    → follow tcp_next (some starting) w.events ≡ some connected
    → TcpInOrder (Tcp.deliver received w)
deliver-TcpInOrder [] w h = (connected, (h, tt))
deliver-TcpInOrder (byte ∷ received) w h =
    emitted tcp_next (λ l. l ≡ connected) w.events (rx (byte ∷ received)) connected connected h refl
      refl

closed-next : (life : Life) → IsUp life → tcp_next life closed ≡ some gone
closed-next starting h = refl
closed-next connected h = refl
closed-next broken h = absurd h
closed-next gone h = absurd h

retrying-next : (life : Life) → IsUp life → tcp_next life retrying ≡ some starting
retrying-next starting h = refl
retrying-next connected h = refl
retrying-next broken h = absurd h
retrying-next gone h = absurd h

-- At the tests of `stop_event`, by its value.
loop_test-TcpInOrder :
    (stopped : Bool) (w : TcpWorker) (life : Life)
    → follow tcp_next (some starting) w.events ≡ some life
    → Rests stopped life
    → TcpInOrder (if stopped then Tcp.emit closed Tcp.finished w else Tcp.go_to Tcp.connecting w)
loop_test-TcpInOrder true w life h e =
    emitted tcp_next (λ l. l ≡ gone) w.events closed life gone h (closed-next life e) refl
loop_test-TcpInOrder false w life h e = (life, (h, e))

leave-TcpInOrder :
    (stopped : Bool) (next : Tcp.Phase) (w : TcpWorker) (life : Life)
    → w.stopped ≡ stopped
    → follow tcp_next (some starting) w.events ≡ some life
    → IsUp life
    → TcpInOrder (Tcp.go_to next w)
    → TcpInOrder (if stopped then Tcp.go_to Tcp.closing w else Tcp.go_to next w)
leave-TcpInOrder true next w life p h e k = (life, (h, stop-Rests w.stopped life p e))
leave-TcpInOrder false next w life p h e k = k

step_by-TcpInOrder :
    (phase : Tcp.Phase) (answer : Answer) (w : TcpWorker)
    → w.phase ≡ phase
    → InOrder tcp_next (FitsTcp phase w.stopped) w.events
    → TcpInOrder (Tcp.step_by phase answer w)
unfolding Tcp.step_by Tcp.discard_pending_tx
step_by-TcpInOrder Tcp.loop_test answer w p (life, (h, e)) =
    loop_test-TcpInOrder w.stopped w life h e
step_by-TcpInOrder Tcp.connecting answer w p (life, (h, e)) =
    if-TcpInOrder answer.raised (Tcp.go_to Tcp.failed w) _ (starting, (h ∙ ap some e, tt))
      (life, (h, e))
step_by-TcpInOrder Tcp.configuring answer w p (life, (h, e)) =
    if-TcpInOrder answer.raised (Tcp.go_to Tcp.failed w) _ (starting, (h ∙ ap some e, tt))
      (emitted tcp_next (λ l. l ≡ connected) w.events opened starting connected (h ∙ ap some e) refl
        refl)
step_by-TcpInOrder Tcp.inner_test answer w p (life, (h, e)) =
    leave-TcpInOrder w.stopped Tcp.draining w connected refl (h ∙ ap some e) tt (life, (h, e))
step_by-TcpInOrder Tcp.draining answer w p (life, (h, e)) =
    drain-TcpInOrder answer w.tx w (h ∙ ap some e)
step_by-TcpInOrder Tcp.receiving answer w p (life, (h, e)) =
    let up = h ∙ ap some e in
    if-TcpInOrder answer.timed_out (Tcp.go_to Tcp.inner_test w) _ (life, (h, e))
      (if-TcpInOrder answer.raised (Tcp.go_to Tcp.failed w) (Tcp.deliver answer.received w)
        (connected, (up, tt)) (deliver-TcpInOrder answer.received w up))
step_by-TcpInOrder Tcp.failed answer w p (life, (h, e)) =
    leave-TcpInOrder w.stopped Tcp.discarding w life refl h e (life, (h, e))
step_by-TcpInOrder Tcp.discarding answer w p (life, (h, e)) = (life, (h, e))
step_by-TcpInOrder Tcp.reporting answer w p (life, (h, e)) =
    emitted tcp_next (λ l. l ≡ starting) w.events retrying life starting h (retrying-next life e)
      refl
step_by-TcpInOrder Tcp.waiting answer w p (life, (h, e)) =
    (life, (h, starting-Rests_eq w.stopped life e))
step_by-TcpInOrder Tcp.closing answer w p (life, (h, e)) = (life, (h, e))
step_by-TcpInOrder Tcp.finished answer w p (life, (h, e)) = rw p (life, (h, e))

-- To be told to stop is in order everywhere.
stopped-FitsTcp :
    (phase : Tcp.Phase) (stopped : Bool) (life : Life)
    → FitsTcp phase stopped life
    → FitsTcp phase true life
stopped-FitsTcp Tcp.loop_test stopped life h = Rests-IsUp stopped life h
stopped-FitsTcp Tcp.closing stopped life h = Rests-IsUp stopped life h
stopped-FitsTcp Tcp.connecting stopped life h = h
stopped-FitsTcp Tcp.configuring stopped life h = h
stopped-FitsTcp Tcp.waiting stopped life h = h
stopped-FitsTcp Tcp.failed stopped life h = h
stopped-FitsTcp Tcp.discarding stopped life h = h
stopped-FitsTcp Tcp.reporting stopped life h = h
stopped-FitsTcp Tcp.finished stopped life h = h
stopped-FitsTcp Tcp.inner_test stopped life h = h
stopped-FitsTcp Tcp.draining stopped life h = h
stopped-FitsTcp Tcp.receiving stopped life h = h

move-TcpInOrder : (m : Move) (w : TcpWorker) → TcpInOrder w → TcpInOrder (Tcp.move m w)
unfolding Tcp.move Tcp.send Tcp.close Tcp.step
move-TcpInOrder (sends bytes) w h =
    if-TcpInOrder (not w.stopped) (record w { tx = w.tx ++ (bytes ∷ []) }) w h h
move-TcpInOrder closes w (life, (h, e)) = (life, (h, stopped-FitsTcp w.phase w.stopped life e))
move-TcpInOrder (steps answer) w h = step_by-TcpInOrder w.phase answer w refl h

run-TcpInOrder : (moves : List Move) (w : TcpWorker) → TcpInOrder w → TcpInOrder (Tcp.run moves w)
unfolding Tcp.run
run-TcpInOrder [] w h = h
run-TcpInOrder (m ∷ moves) w h = run-TcpInOrder moves (Tcp.move m w) (move-TcpInOrder m w h)

abbrev pub tcp_ended : Tcp.Phase → Bool
tcp_ended Tcp.finished = true
tcp_ended _ = false

up-Tells : (life : Life) → IsUp life → Tells false (some life)
up-Tells starting h = refl
up-Tells connected h = refl
up-Tells broken h = absurd h
up-Tells gone h = absurd h

tcp_phase-Tells :
    (phase : Tcp.Phase) (stopped : Bool) (life : Life)
    → FitsTcp phase stopped life
    → Tells (tcp_ended phase) (some life)
tcp_phase-Tells Tcp.loop_test stopped life e = up-Tells life (Rests-IsUp stopped life e)
tcp_phase-Tells Tcp.closing stopped life e = up-Tells life (Rests-IsUp stopped life e)
tcp_phase-Tells Tcp.failed stopped life e = up-Tells life e
tcp_phase-Tells Tcp.discarding stopped life e = up-Tells life e
tcp_phase-Tells Tcp.reporting stopped life e = up-Tells life e
tcp_phase-Tells Tcp.connecting stopped life e = rw e refl
tcp_phase-Tells Tcp.configuring stopped life e = rw e refl
tcp_phase-Tells Tcp.waiting stopped life e = rw e refl
tcp_phase-Tells Tcp.inner_test stopped life e = rw e refl
tcp_phase-Tells Tcp.draining stopped life e = rw e refl
tcp_phase-Tells Tcp.receiving stopped life e = rw e refl
tcp_phase-Tells Tcp.finished stopped life e = rw e refl

-- However the calls of `send` and `close` fall between the steps of the thread, and whatever the
-- socket answers, the events of a TCP worker are in order: data only between an `opened` and the next
-- `retrying`, no `opened` twice without a `retrying` between, no `error`, and `closed` last. `closed`
-- is there if the thread has ended, and only then.
pub tcp_run-follow :
    (moves : List Move)
    → Tells
        (tcp_ended (Tcp.run moves Tcp.new_tcp).phase)
        (follow tcp_next (some starting) (Tcp.run moves Tcp.new_tcp).events)
unfolding Tcp.new_tcp
tcp_run-follow moves =
    let last = Tcp.run moves Tcp.new_tcp in
    let (life, (h, e)) = run-TcpInOrder moves Tcp.new_tcp (starting, (refl, refl)) in
    rw h (tcp_phase-Tells last.phase last.stopped life e)
