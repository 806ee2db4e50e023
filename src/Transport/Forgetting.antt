-- ===== src/Transport/Forgetting.antt =====
-- What a TCP worker still sends of the data that were given to it.
use navigation_robot.Base.{
  ℕ, ◌≡◌, refl, ap, sym, ◌∙◌, Bool, true, false, List, [], ◌∷◌, ◌++◌, append-nil, append_assoc, map,
  if◌then◌else◌, Bool-cases, inl, inr,
}
use navigation_robot.App.Ticks.{Event, opened, retrying, closed, rx, tx}
use navigation_robot.Transport.{Answer, Move, sends, closes, steps, tx_of, transmitted, accepted}
use navigation_robot.Transport.Traffic.{accepted-closes, accepted-steps, transmitted-append, quiet}
use navigation_robot.Transport.TcpEnding.{step-stopped}
use navigation_robot.Transport.Tcp.{
  TcpWorker, Phase, loop_test, connecting, configuring, inner_test, draining, receiving, failed,
  discarding, reporting, waiting, closing, finished, send, close, step, step_by, move, run, drain,
  deliver, emit, go_to, discard_pending_tx,
}

-- The first list is the second one without some of its elements.
pub data IsSublist {ℓ} {A : Type ℓ} : List A → List A → Type ℓ where
  nothing : IsSublist [] []
  drops : {xs ys : List A} (y : A) → IsSublist xs ys → IsSublist xs (y ∷ ys)
  keeps : {xs ys : List A} (x : A) → IsSublist xs ys → IsSublist (x ∷ xs) (x ∷ ys)

module _ {ℓ} {A : Type ℓ} where
  none_of : (xs : List A) → IsSublist [] xs
  none_of [] = nothing
  none_of (x ∷ xs) = drops x (none_of xs)

  both-append :
      {xs ys : List A} {zs ws : List A}
      → IsSublist xs ys
      → IsSublist zs ws
      → IsSublist (xs ++ zs) (ys ++ ws)
  both-append nothing k = k
  both-append (drops y h) k = drops y (both-append h k)
  both-append (keeps x h) k = keeps x (both-append h k)

  rebase : {xs ys zs : List A} → ys ≡ zs → IsSublist xs ys → IsSublist xs zs
  rebase e h = rw (sym e) h

-- What is sent after some moment is what was sent before, and a part of what waits.
abbrev pub Sends : List (List ℕ) → TcpWorker → List (List ℕ) → Type 0
Sends sent w waiting' =
    (more : List (List ℕ)) × ((transmitted w.events ≡ sent ++ more) × IsSublist more waiting')

-- A step takes a beginning of the queue, and sends a part of it.
abbrev Advances : TcpWorker → TcpWorker → Type 0
Advances w v =
    (taken : List (List ℕ)) × ((sent : List (List ℕ)) × ((w.tx ≡ taken ++ v.tx)
        × (transmitted v.events ≡ transmitted w.events ++ sent)
        × IsSublist sent taken))

if-Advances :
    (u : TcpWorker) (test : Bool) (w v : TcpWorker)
    → Advances u w
    → Advances u v
    → Advances u (if test then w else v)
if-Advances u true w v h k = h
if-Advances u false w v h k = k

module _ (w : TcpWorker) where
  stays : Advances w w
  stays = ([], ([], (refl, sym (append-nil (transmitted w.events)), nothing)))

  -- A report of anything else than sent data.
  reports : (event : Event) (phase : Phase) → tx_of event ≡ [] → Advances w (emit event phase w)
  reports event phase e =
      ([], ([], (refl, quiet w.events event e ∙ sym (append-nil (transmitted w.events)), nothing)))

drain-Advances :
    (answer : Answer) (queue : List (List ℕ)) (w : TcpWorker)
    → w.tx ≡ queue
    → Advances w (drain answer queue w)
drain-Advances answer [] w e = stays w
drain-Advances answer (bytes ∷ queue) w e =
    let taken : TcpWorker = record w { tx = queue } in
    if-Advances w answer.raised (go_to failed taken) (emit (tx bytes) draining taken)
      (bytes ∷ [], ([], (e, sym (append-nil (transmitted w.events)), none_of (bytes ∷ []))))
      (
        bytes ∷ [],
        (bytes ∷ [], (e, transmitted-append w.events (tx bytes ∷ []), keeps bytes nothing)),
      )

deliver-Advances : (received : List ℕ) (w : TcpWorker) → Advances w (deliver received w)
deliver-Advances [] w = stays w
deliver-Advances (byte ∷ received) w = reports w (rx (byte ∷ received)) inner_test refl

step_by-Advances :
    (phase : Phase) (answer : Answer) (w : TcpWorker) → Advances w (step_by phase answer w)
unfolding step_by discard_pending_tx
step_by-Advances loop_test answer w =
    if-Advances w w.stopped (emit closed finished w) (go_to connecting w)
      (reports w closed finished refl) (stays w)
step_by-Advances connecting answer w =
    if-Advances w answer.raised (go_to failed w) _ (stays w) (stays w)
step_by-Advances configuring answer w =
    if-Advances w answer.raised (go_to failed w) _ (stays w) (reports w opened inner_test refl)
step_by-Advances inner_test answer w =
    if-Advances w w.stopped (go_to closing w) (go_to draining w) (stays w) (stays w)
step_by-Advances draining answer w = drain-Advances answer w.tx w refl
step_by-Advances receiving answer w =
    if-Advances w answer.timed_out (go_to inner_test w) _ (stays w) (
      if-Advances w answer.raised (go_to failed w) (deliver answer.received w) (stays w)
        (deliver-Advances answer.received w))
step_by-Advances failed answer w =
    if-Advances w w.stopped (go_to closing w) (go_to discarding w) (stays w) (stays w)
step_by-Advances discarding answer w =
    (w.tx, ([], (sym (append-nil w.tx), sym (append-nil (transmitted w.events)), none_of w.tx)))
step_by-Advances reporting answer w = reports w retrying waiting refl
step_by-Advances waiting answer w = stays w
step_by-Advances closing answer w = stays w
step_by-Advances finished answer w = stays w

step-Advances : (answer : Answer) (w : TcpWorker) → Advances w (step answer w)
unfolding step
step-Advances answer w = step_by-Advances w.phase answer w

-- From the worker after a move to the worker before it.
step-Sends :
    (w v last : TcpWorker) (rest : List (List ℕ))
    → Advances w v
    → Sends (transmitted v.events) last (v.tx ++ rest)
    → Sends (transmitted w.events) last (w.tx ++ rest)
step-Sends w v last rest (taken, (sent, (e, f, h))) (more, (g, k)) = (
  sent ++ more,
  (
    g ∙ ap (λ t. t ++ more) f ∙ append_assoc (transmitted w.events) sent more,
    rebase (sym (append_assoc taken v.tx rest) ∙ ap (λ t. t ++ rest) (sym e)) (both-append h k),
  ),
)

regard :
    (sent now' waiting' ahead : List (List ℕ)) (last : TcpWorker)
    → sent ≡ now'
    → waiting' ≡ ahead
    → Sends sent last waiting'
    → Sends now' last ahead
regard sent now' waiting' ahead last e f h = rw (sym e, sym f) h

send-events :
    (bytes : List ℕ) (w : TcpWorker) → transmitted (send bytes w).events ≡ transmitted w.events
unfolding send
send-events bytes w = elim (Bool-cases w.stopped) [ inl e ↦ rw e refl | inr e ↦ rw e refl ]

-- A call of `send` puts the datum behind those that wait, unless the worker is told to stop.
send-waiting :
    (bytes : List ℕ) (moves : List Move) (w : TcpWorker) (stopped : Bool)
    → w.stopped ≡ stopped
    → (send bytes w).tx ++ accepted (send bytes w).stopped moves
      ≡ w.tx ++ accepted stopped (sends bytes ∷ moves)
unfolding send
send-waiting bytes moves w true e = rw e refl
send-waiting bytes moves w false e = rw e (append_assoc w.tx (bytes ∷ []) (accepted false moves))

close-Sends :
    (moves : List Move) (w : TcpWorker)
    → Sends
        (transmitted (close w).events)
        (run moves (close w))
        ((close w).tx ++ accepted (close w).stopped moves)
    → Sends (transmitted w.events) (run moves (close w)) (w.tx ++ accepted true moves)
unfolding close
close-Sends moves w h = h

run-Sends :
    (moves : List Move) (w : TcpWorker)
    → Sends (transmitted w.events) (run moves w) (w.tx ++ accepted w.stopped moves)
unfolding run move
run-Sends [] w =
    ([], (sym (append-nil (transmitted w.events)), none_of (w.tx ++ accepted w.stopped [])))
run-Sends (sends bytes ∷ moves) w =
    regard (transmitted (send bytes w).events) (transmitted w.events) _ _ (run moves (send bytes w))
      (send-events bytes w) (send-waiting bytes moves w w.stopped refl)
      (run-Sends moves (send bytes w))
run-Sends (closes ∷ moves) w =
    regard (transmitted w.events) (transmitted w.events) _ _ (run moves (close w)) refl
      (ap (λ t. w.tx ++ t) (sym (accepted-closes w.stopped moves)))
      (close-Sends moves w (run-Sends moves (close w)))
run-Sends (steps answer ∷ moves) w =
    regard (transmitted w.events) (transmitted w.events) _ _ (run moves (step answer w)) refl
      (ap (λ t. w.tx ++ t)
        (ap (λ t. accepted t moves) (step-stopped answer w)
          ∙ sym (accepted-steps w.stopped answer moves)))
      (step-Sends w (step answer w) (run moves (step answer w))
        (accepted (step answer w).stopped moves) (step-Advances answer w)
        (run-Sends moves (step answer w)))

-- Whatever happens to a TCP worker from some moment on: what it reports as sent after that moment are
-- data that waited in its queue then, or that its caller has given to it since and before it was told
-- to stop, in this order and each at most once.
pub run-IsSublist :
    (moves : List Move) (w : TcpWorker)
    → (more : List (List ℕ)) × ((transmitted (run moves w).events ≡ transmitted w.events ++ more)
        × IsSublist more (w.tx ++ accepted w.stopped moves))
run-IsSublist moves w = run-Sends moves w

-- Calls of `send` leave the events and the place of the thread.
calls-quiet :
    (calls : List (List ℕ)) (w : TcpWorker)
    → ((run (map sends calls) w).events ≡ w.events) × ((run (map sends calls) w).phase ≡ w.phase)
unfolding run move send
calls-quiet [] w = (refl, refl)
calls-quiet (bytes ∷ calls) w =
    let (events, phase) = calls-quiet calls (send bytes w) in
    let (same, place) = send-quiet bytes w in (events ∙ same, phase ∙ place)
  where
    send-quiet :
        (bytes : List ℕ) (w : TcpWorker)
        → ((send bytes w).events ≡ w.events) × ((send bytes w).phase ≡ w.phase)
    send-quiet bytes w = elim (Bool-cases w.stopped) [
      | inl e ↦ rw e (refl, refl)
      | inr e ↦ rw e (refl, refl)
    ]

reported :
    (answer : Answer) (calls : List (List ℕ)) (w : TcpWorker)
    → w.phase ≡ reporting
    → (step answer (run (map sends calls) w)).events ≡ w.events ++ (retrying ∷ [])
unfolding step step_by
reported answer calls w e =
    let (events, phase) = calls-quiet calls w in
    let last = run (map sends calls) w in
    ap (λ place. (step_by place answer last).events) (phase ∙ e)
    ∙ ap (λ t. t ++ (retrying ∷ [])) events

-- When a TCP worker has lost its connection, it forgets what waits, reports nothing of it, and then,
-- with its next step, that it will try again, however the calls of `send` fall between the two: all
-- that it reports as sent after it has forgotten was given to it since, in this order and each at
-- most once.
pub retry-IsSublist :
    (answer next : Answer) (calls : List (List ℕ)) (moves : List Move) (w : TcpWorker)
    → w.phase ≡ discarding
    → let v = step answer w in
      (v.events ≡ w.events)
      × ((step next (run (map sends calls) v)).events ≡ w.events ++ (retrying ∷ []))
      × ((more : List (List ℕ)) × ((transmitted (run moves v).events ≡ transmitted w.events ++ more)
            × IsSublist more (accepted w.stopped moves)))
unfolding step step_by discard_pending_tx
retry-IsSublist answer next calls moves w e =
    let v : TcpWorker = go_to reporting (discard_pending_tx w) in
    rw e (refl, reported next calls v refl, run-Sends moves v)
