-- ===== src/App/Safety/Requests.antt =====
-- A request of the preparation of both motors, and what its ACK leads to.
use navigation_robot.Base.{
  ℕ, ◌+◌, ◌%◌, ◌≡◌, refl, ap, ◌∙◌, true, false, some, List, [], ◌∷◌, ◌++◌, ==_refl, ok,
}
use navigation_robot.Base.Dict.{lookup, insert, erase, lookup-insert}
use navigation_robot.Protocol.{HostFrame, msg_ack, msg_query_motor, msg_set_mode, flag_ack_required}
use navigation_robot.Protocol.Encoding.{wire, cut}
use navigation_robot.App.State.{
  App, Worker, Request, Preparation, query_left, mode_left, query_right, mode_right, ◌>>◌, skip,
}
use navigation_robot.App.Session.{send, send_by, worker_send}
use navigation_robot.App.Driving.{prepare_context, next_step, continue_prepare}
use navigation_robot.App.Receive.{handle_frame, handle_ack, dispatch, context_of}
use navigation_robot.App.Safety.Gate.{IsPayload}
use navigation_robot.App.Safety.Actions.{encode_frame-IsPayload, >>-after}

abbrev pub request_of : Preparation → ℕ
request_of query_left = msg_query_motor
request_of mode_left = msg_set_mode
request_of query_right = msg_query_motor
request_of mode_right = msg_set_mode

-- The ACK of a request with the status 0.
abbrev pub success : ℕ → Preparation → HostFrame
success sequence step = record {
  msg_type = msg_ack;
  sequence = sequence;
  flags = 0;
  payload = request_of step ∷ 0 ∷ 0 ∷ 0 ∷ [];
}

-- The context with which a request of the preparation waits.
abbrev pub stored : Preparation → Request
stored step = record (prepare_context step) { request_type = request_of step }

-- There is a worker that has these data still to send.
abbrev pub Queued : List (List ℕ) → App → Type 0
Queued tx a = (w : Worker) × ((a.worker ≡ some w) × (w.tx ≡ tx))

-- There is a worker with these data in its queue, and the request of this step waits for its ACK under
-- this number.
pub record Waits (step : Preparation) (sequence : ℕ) (tx : List (List ℕ)) (a : App) : Type 0 where
  pub worker : Worker
  pub connected : a.worker ≡ some worker
  pub running : worker.stopped ≡ false
  pub queue : worker.tx ≡ tx
  pub context : lookup sequence a.pending_requests ≡ some (stored step)
  pub unprepared : a.dual_prepared ≡ false

-- The state after a request of the preparation was sent.
abbrev pub asked : ℕ → List ℕ → Preparation → Worker → App → App
asked msg_type payload step w a = record a {
  sequence = (a.sequence + 1) % 256;
  pending_requests =
      insert a.sequence (record (prepare_context step) { request_type = msg_type })
        a.pending_requests;
  worker = some (worker_send (wire (cut msg_type a.sequence flag_ack_required payload)) w);
}

send_by-asked :
    (msg_type : ℕ) (payload : List ℕ) (step : Preparation) (w : Worker) (a : App)
    → IsPayload payload
    → send_by (some w) msg_type payload true (some (prepare_context step)) a
      ≡ (ok (some a.sequence), asked msg_type payload step w a)
send_by-asked msg_type payload step w a p =
    rw (encode_frame-IsPayload msg_type a.sequence flag_ack_required payload p) refl

pub send-asked :
    (msg_type : ℕ) (payload : List ℕ) (step : Preparation) (w : Worker) (a : App)
    → a.worker ≡ some w
    → IsPayload payload
    → (send msg_type payload true (some (prepare_context step)) >> skip) a
      ≡ (ok tt, asked msg_type payload step w a)
unfolding send
send-asked msg_type payload step w a e p =
    >>-after (send msg_type payload true (some (prepare_context step))) skip a
      (asked msg_type payload step w a)
      (ap (λ o. send_by o msg_type payload true (some (prepare_context step)) a) e
        ∙ send_by-asked msg_type payload step w a p)

-- The frame of a request.
abbrev pub frame_of : ℕ → ℕ → List ℕ → List ℕ
frame_of msg_type sequence payload = wire (cut msg_type sequence flag_ack_required payload)

sent_to :
    (bytes : List ℕ) (w : Worker) (tx : List (List ℕ))
    → w.stopped ≡ false
    → w.tx ≡ tx
    → ((worker_send bytes w).stopped ≡ false) × ((worker_send bytes w).tx ≡ tx ++ (bytes ∷ []))
sent_to bytes w tx r q = rw r (refl, ap (λ t. t ++ (bytes ∷ [])) q)

pub asked-Waits :
    (payload : List ℕ) (step : Preparation) (w : Worker) (tx : List (List ℕ)) (a : App)
    → w.stopped ≡ false
    → w.tx ≡ tx
    → a.dual_prepared ≡ false
    → Waits step a.sequence
        (tx ++ (frame_of (request_of step) a.sequence payload ∷ []))
        (asked (request_of step) payload step w a)
asked-Waits payload step w tx a r q e =
    let bytes = frame_of (request_of step) a.sequence payload in
    let (running, queue) = sent_to bytes w tx r q in
    record {
      worker = worker_send bytes w;
      connected = refl;
      running = running;
      queue = queue;
      context =
          lookup-insert a.sequence a.sequence (stored step) a.pending_requests
          ∙ rw (==_refl a.sequence) refl;
      unprepared = e;
    }

-- What `_handle_frame` leaves of the waiting requests.
abbrev pub answered : ℕ → App → App
answered sequence a = record a { pending_requests = erase sequence a.pending_requests }

dispatched :
    (step : Preparation) (sequence now : ℕ) (a b : App)
    → next_step step a ≡ (ok tt, b)
    → (dispatch sequence (request_of step) 0 0 (stored step) now >> skip) a ≡ (ok tt, b)
unfolding dispatch continue_prepare
dispatched query_left sequence now a b h =
    >>-after (dispatch sequence (request_of query_left) 0 0 (stored query_left) now) skip a b h
dispatched mode_left sequence now a b h =
    >>-after (dispatch sequence (request_of mode_left) 0 0 (stored mode_left) now) skip a b h
dispatched query_right sequence now a b h =
    >>-after (dispatch sequence (request_of query_right) 0 0 (stored query_right) now) skip a b h
dispatched mode_right sequence now a b h =
    >>-after (dispatch sequence (request_of mode_right) 0 0 (stored mode_right) now) skip a b h

pub handled :
    (step : Preparation) (sequence now : ℕ) (tx : List (List ℕ)) (a b : App)
    → Waits step sequence tx a
    → next_step step (answered sequence a) ≡ (ok tt, b)
    → handle_frame (success sequence step) now a ≡ (ok tt, b)
unfolding handle_frame handle_ack
handled query_left sequence now tx a b h e =
    ap
      (λ r.
        (dispatch sequence (request_of query_left) 0 0 (context_of r) now >> skip)
          (answered sequence a))
      h.context
    ∙ dispatched query_left sequence now (answered sequence a) b e
handled mode_left sequence now tx a b h e =
    ap
      (λ r.
        (dispatch sequence (request_of mode_left) 0 0 (context_of r) now >> skip)
          (answered sequence a))
      h.context
    ∙ dispatched mode_left sequence now (answered sequence a) b e
handled query_right sequence now tx a b h e =
    ap
      (λ r.
        (dispatch sequence (request_of query_right) 0 0 (context_of r) now >> skip)
          (answered sequence a))
      h.context
    ∙ dispatched query_right sequence now (answered sequence a) b e
handled mode_right sequence now tx a b h e =
    ap
      (λ r.
        (dispatch sequence (request_of mode_right) 0 0 (context_of r) now >> skip)
          (answered sequence a))
      h.context
    ∙ dispatched mode_right sequence now (answered sequence a) b e
