-- ===== src/App/Safety/Preparing.antt =====
-- The four requests that prepare both motors, and the ACKs that lead from one to the next.
use navigation_robot.Base.{
  ℕ, ◌+◌, ◌%◌, ◌≡◌, refl, ap, sym, ◌∙◌, arith, Bool, true, false, not, some, List, [], ◌∷◌, ◌++◌,
  append_assoc, take, Result, ok, if◌then◌else◌,
}
use navigation_robot.Config.{left_motor_id, right_motor_id, m0601_mode_speed}
use navigation_robot.Protocol.{msg_query_motor}
use navigation_robot.App.State.{
  App, Worker, Preparation, query_left, mode_left, query_right, mode_right, Action, Done, ◌>>◌,
  skip,
}
use navigation_robot.App.Session.{send, cancel_motion_flow}
use navigation_robot.App.Driving.{prepare_context, prepare_dual_control, next_step}
use navigation_robot.App.Receive.{handle_frame}
use navigation_robot.App.Safety.Gate.{IsPayload}
use navigation_robot.App.Safety.Actions.{>>-after}
use navigation_robot.App.Safety.Sending.{one-IsPayload, two-IsPayload}
use navigation_robot.App.Safety.Requests.{
  Queued, Waits, answered, asked, asked-Waits, frame_of, handled, request_of, send-asked, success,
}

-- The ACK of a step was handled, and the next step waits with its request behind the earlier ones.
abbrev Leads : Preparation → Preparation → List ℕ → ℕ → ℕ → List (List ℕ) → App → Type 0
Leads step following payload sequence now tx a =
    (b : App) × ((handle_frame (success sequence step) now a ≡ (ok tt, b))
      × (b.sequence ≡ (a.sequence + 1) % 256)
      × Waits following a.sequence (tx ++ (frame_of (request_of following) a.sequence payload ∷ []))
          b)

next_step-Leads :
    (step following : Preparation) (payload : List ℕ) (sequence now : ℕ) (tx : List (List ℕ))
    (a : App)
    → IsPayload payload
    → Waits step sequence tx a
    → ((b : App)
        → next_step step b
          ≡ (send (request_of following) payload true (some (prepare_context following)) >> skip) b)
    → Leads step following payload sequence now tx a
next_step-Leads step following payload sequence now tx a p h e =
    let b = answered sequence a in
    (
      asked (request_of following) payload following h.worker b,
      (
        handled step sequence now tx a (asked (request_of following) payload following h.worker b) h
            (e b ∙ send-asked (request_of following) payload following h.worker b h.connected p),
        refl,
        asked-Waits payload following h.worker tx b h.running h.queue h.unprepared,
      ),
    )

query_left-Leads :
    (sequence now : ℕ) (tx : List (List ℕ)) (a : App)
    → Waits query_left sequence tx a
    → Leads query_left mode_left (1 ∷ 2 ∷ []) sequence now tx a
query_left-Leads sequence now tx a h =
    next_step-Leads query_left mode_left (left_motor_id ∷ m0601_mode_speed ∷ []) sequence now tx a
      (two-IsPayload left_motor_id m0601_mode_speed (omega arith) (omega arith)) h (λ b. refl)

mode_left-Leads :
    (sequence now : ℕ) (tx : List (List ℕ)) (a : App)
    → Waits mode_left sequence tx a
    → Leads mode_left query_right (2 ∷ []) sequence now tx a
mode_left-Leads sequence now tx a h =
    next_step-Leads mode_left query_right (right_motor_id ∷ []) sequence now tx a
      (one-IsPayload right_motor_id (omega arith)) h (λ b. refl)

query_right-Leads :
    (sequence now : ℕ) (tx : List (List ℕ)) (a : App)
    → Waits query_right sequence tx a
    → Leads query_right mode_right (2 ∷ 2 ∷ []) sequence now tx a
query_right-Leads sequence now tx a h =
    next_step-Leads query_right mode_right (right_motor_id ∷ m0601_mode_speed ∷ []) sequence now tx
      a (two-IsPayload right_motor_id m0601_mode_speed (omega arith) (omega arith)) h (λ b. refl)

prepare-Waits :
    (w : Worker) (a : App)
    → a.worker ≡ some w
    → w.stopped ≡ false
    → a.link_ready ≡ true
    → (b : App) × ((prepare_dual_control a ≡ (ok tt, b))
        × (b.sequence ≡ (a.sequence + 1) % 256)
        × Waits query_left a.sequence
            (w.tx ++ (frame_of msg_query_motor a.sequence (1 ∷ []) ∷ []))
            b)
unfolding prepare_dual_control cancel_motion_flow
prepare-Waits w a e r l =
    let b : App = record (cancel_motion_flow a) { dual_prepared = false; dual_ready = false } in
    (
      asked msg_query_motor (left_motor_id ∷ []) query_left w b,
      (
        ap
              (λ (t : Bool).
                if not t
                then (ok tt, a)
                else (send msg_query_motor (left_motor_id ∷ []) true
                        (some (prepare_context query_left))
                      >> skip)
                    b)
              l
            ∙ send-asked msg_query_motor (left_motor_id ∷ []) query_left w b e
                (one-IsPayload left_motor_id (omega arith)),
        refl,
        asked-Waits (left_motor_id ∷ []) query_left w w.tx b r refl refl,
      ),
    )

renumbered :
    (step : Preparation) (sequence number now : ℕ) (a b : App)
    → sequence ≡ number
    → handle_frame (success sequence step) now a ≡ (ok tt, b)
    → handle_frame (success number step) now a ≡ (ok tt, b)
renumbered step sequence number now a b e h =
    ap (λ k. handle_frame (success k step) now a) (sym e) ∙ h

-- The sequence number after this one.
abbrev pub next_number : ℕ → ℕ
next_number n = (n + 1) % 256

-- The preparation, and the ACKs of its first requests, the first of which has this number.
abbrev pub one_ack : ℕ → ℕ → Action Done
one_ack n now = prepare_dual_control >> handle_frame (success n query_left) now

abbrev pub two_acks : ℕ → ℕ → Action Done
two_acks n now = one_ack n now >> handle_frame (success (next_number n) mode_left) now

abbrev pub three_acks : ℕ → ℕ → Action Done
three_acks n now =
    two_acks n now >> handle_frame (success (next_number (next_number n)) query_right) now

abbrev pub four_acks : ℕ → ℕ → Action Done
four_acks n now =
    three_acks n now
    >> handle_frame (success (next_number (next_number (next_number n))) mode_right) now

-- The requests of the preparation from a sequence number on, the first few of them: motor 1 is queried
-- (0x13) and set (0x16) to the speed mode 2, and then motor 2.
abbrev pub requests : ℕ → List (List ℕ)
requests n =
    frame_of 0x13 n (1 ∷ [])
    ∷ frame_of 0x16 (next_number n) (1 ∷ 2 ∷ [])
    ∷ frame_of 0x13 (next_number (next_number n)) (2 ∷ [])
    ∷ frame_of 0x16 (next_number (next_number (next_number n))) (2 ∷ 2 ∷ [])
    ∷ []

abbrev pub requested : ℕ → ℕ → List (List ℕ)
requested count n = take count (requests n)

grows :
    (before earlier tx : List (List ℕ)) (k m : ℕ) (frame : ℕ → List ℕ)
    → tx ≡ before ++ earlier
    → k ≡ m
    → tx ++ (frame k ∷ []) ≡ before ++ (earlier ++ (frame m ∷ []))
grows before earlier tx k m frame h e =
    ap (λ t. t ++ (frame k ∷ [])) h
    ∙ ap (λ j. (before ++ earlier) ++ (frame j ∷ [])) e
    ∙ append_assoc before earlier (frame m ∷ [])

Waits-Queued :
    (step : Preparation) (sequence : ℕ) (tx : List (List ℕ)) (a b : App)
    → (r : Result Done × App) → r ≡ (ok tt, b)
    → Waits step sequence tx b
    → (more : List (List ℕ)) → tx ≡ more
    → Queued more r.1
Waits-Queued step sequence tx a b r e h more same =
    (h.worker, (ap (λ (x : Result Done × App). x.1.worker) e ∙ h.connected, h.queue ∙ same))

-- With a worker that runs and after the handshake, the preparation of both wheels gives the worker its
-- requests one after the other: the query of the left motor at once, and with the ACKs of status 0, one
-- each, the speed mode of the left motor, the query of the right one and its speed mode, each with the
-- next sequence number and behind what waited before. After the third ACK the wheels are not yet
-- prepared, after the fourth they are, and no step raises.
pub four_acks-prepared :
    (w : Worker) (a : App) (now : ℕ)
    → a.worker ≡ some w
    → w.stopped ≡ false
    → a.link_ready ≡ true
    → Queued (w.tx ++ requested 1 a.sequence) (prepare_dual_control a).1
      × Queued (w.tx ++ requested 2 a.sequence) (one_ack a.sequence now a).1
      × Queued (w.tx ++ requested 3 a.sequence) (two_acks a.sequence now a).1
      × Queued (w.tx ++ requested 4 a.sequence) (three_acks a.sequence now a).1
      × ((three_acks a.sequence now a).1.dual_prepared ≡ false)
      × ((four_acks a.sequence now a).0 ≡ ok tt)
      × ((four_acks a.sequence now a).1.dual_prepared ≡ true)
four_acks-prepared w a now e r l =
    let n = a.sequence in
    let (b, (eb, sb, hb)) = prepare-Waits w a e r l in
    let tx1 = w.tx ++ requested 1 n in
    let (c, (ec, sc, hc)) = query_left-Leads n now tx1 b hb in
    let frame2 : ℕ → List ℕ = λ k. frame_of 0x16 k (1 ∷ 2 ∷ []) in
    let tx2 = tx1 ++ (frame2 b.sequence ∷ []) in
    let (d, (ed, sd, hd)) = mode_left-Leads b.sequence now tx2 c hc in
    let frame3 : ℕ → List ℕ = λ k. frame_of 0x13 k (2 ∷ []) in
    let tx3 = tx2 ++ (frame3 c.sequence ∷ []) in
    let (f, (ef, sf, hf)) = query_right-Leads c.sequence now tx3 d hd in
    let frame4 : ℕ → List ℕ = λ k. frame_of 0x16 k (2 ∷ 2 ∷ []) in
    let tx4 = tx3 ++ (frame4 d.sequence ∷ []) in
    let g : App = record (answered d.sequence f) { dual_prepared = true } in
    let eg = handled mode_right d.sequence now tx4 f g hf refl in
    let second = sb in
    let third : c.sequence ≡ next_number (next_number n) = sc ∙ ap next_number second in
    let fourth : d.sequence ≡ next_number (next_number (next_number n)) =
      sd ∙ ap next_number third in
    let first_ack =
      >>-after prepare_dual_control (handle_frame (success n query_left) now) a b eb ∙ ec in
    let second_ack =
      >>-after (one_ack n now) (handle_frame (success (next_number n) mode_left) now) a c first_ack
      ∙ renumbered mode_left b.sequence (next_number n) now c d second ed in
    let third_ack =
      >>-after (two_acks n now)
        (handle_frame (success (next_number (next_number n)) query_right) now) a d second_ack
      ∙ renumbered query_right c.sequence (next_number (next_number n)) now d f third ef in
    let fourth_ack =
      >>-after (three_acks n now)
        (handle_frame (success (next_number (next_number (next_number n))) mode_right) now) a f
        third_ack
      ∙ renumbered mode_right d.sequence (next_number (next_number (next_number n))) now f g fourth
          eg in
    let q2 = grows w.tx (requested 1 n) tx1 b.sequence (next_number n) frame2 refl second in
    let q3 =
      grows w.tx (requested 2 n) tx2 c.sequence (next_number (next_number n)) frame3 q2 third in
    let q4 =
      grows w.tx (requested 3 n) tx3 d.sequence (next_number (next_number (next_number n))) frame4
        q3 fourth in
    (
      Waits-Queued query_left n tx1 a b (prepare_dual_control a) eb hb tx1 refl,
      Waits-Queued mode_left b.sequence tx2 a c (one_ack n now a) first_ack hc _ q2,
      Waits-Queued query_right c.sequence tx3 a d (two_acks n now a) second_ack hd _ q3,
      Waits-Queued mode_right d.sequence tx4 a f (three_acks n now a) third_ack hf _ q4,
      ap (λ (r : Result Done × App). r.1.dual_prepared) third_ack ∙ hf.unprepared,
      ap (λ (r : Result Done × App). r.0) fourth_ack,
      ap (λ (r : Result Done × App). r.1.dual_prepared) fourth_ack,
    )
