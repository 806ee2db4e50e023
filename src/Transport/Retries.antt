-- ===== src/Transport/Retries.antt =====
-- The TCP worker between two connections: the delay before the next attempt, and what becomes of the
-- data that wait.
use native.Mathlib.Nat.{add-zero, pow-suc, zero-add}
use navigation_robot.Base.{
  ℕ, zero, suc, ◌+◌, ◌*◌, ◌^◌, min, ◌≡◌, refl, ap, ◌∙◌, arith, true, false, List, [], ◌∷◌, ◌++◌,
  append-nil, append_assoc, replicate,
}
use navigation_robot.App.Ticks.{Event, retrying}
use navigation_robot.Transport.{Answer, Move, steps}
use navigation_robot.Transport.Tcp.{
  TcpWorker, waiting, new_tcp, step, step_by, move, run, discard_pending_tx,
}

-- A refused attempt: the steps from the test of the outer loop until it is tested again.
abbrev refusal : Answer
refusal = record { raised = true; timed_out = false; now = 0; received = [] }

abbrev pub refusals : ℕ → List Move
refusals zero = []
refusals (suc n) =
    steps refusal
    ∷ steps refusal
    ∷ steps refusal
    ∷ steps refusal
    ∷ steps refusal
    ∷ steps refusal
    ∷ steps refusal
    ∷ refusals n

-- A worker that waits for its next attempt.
abbrev resting : ℕ → List Event → TcpWorker
resting delay events = record new_tcp { retry_delay = delay; events = events }

after_refusal :
    (n delay : ℕ) (events : List Event)
    → run (refusals (suc n)) (resting delay events)
      ≡ run (refusals n) (resting (min 10000 (delay * 2)) (events ++ (retrying ∷ [])))
unfolding run move step step_by discard_pending_tx new_tcp
after_refusal n delay events = refl

refusals-resting :
    (n k : ℕ) (events : List Event)
    → run (refusals n) (resting (min 10000 (1000 * 2 ^ k)) events)
      ≡ resting (min 10000 (1000 * 2 ^ (k + n))) (events ++ replicate n retrying)
unfolding run
refusals-resting zero k events = rw (append-nil events, add-zero k) refl
refusals-resting (suc n) k events =
    after_refusal n (min 10000 (1000 * 2 ^ k)) events
    ∙ ap (λ d. run (refusals n) (resting d (events ++ (retrying ∷ [])))) (doubled k)
    ∙ refusals-resting n (suc k) (events ++ (retrying ∷ []))
    ∙ ap (λ (r : ℕ × List Event). resting (min 10000 (1000 * 2 ^ r.0)) r.1)
        (pair (omega arith) (append_assoc events (retrying ∷ []) (replicate n retrying)))
  where
    pair : {a b : ℕ} {x y : List Event} → a ≡ b → x ≡ y → Path (ℕ × List Event) (a, x) (b, y)
    pair e f = rw (e, f) refl

    doubled : (k : ℕ) → min 10000 (min 10000 (1000 * 2 ^ k) * 2) ≡ min 10000 (1000 * 2 ^ suc k)
    doubled k = omega (arith, pow-suc 2 k)

-- The steps of a refused attempt up to the wait.
abbrev pub until_wait : List Move
until_wait = steps refusal ∷ steps refusal ∷ steps refusal ∷ steps refusal ∷ steps refusal ∷ []

waits :
    (delay : ℕ) (events : List Event)
    → let w = run until_wait (resting delay events) in
      (w.phase ≡ waiting) × (w.retry_delay ≡ delay) × (w.events ≡ events ++ (retrying ∷ []))
unfolding run move step step_by discard_pending_tx new_tcp
waits delay events = (refl, refl, refl)

-- A new TCP worker whose attempts are all refused: with the refused attempt that follows `n` others,
-- one after the other, it comes to its wait with a delay of 2^n s, but 10 s at most, and has reported
-- `retrying` once for each of the attempts and nothing else.
pub refusals-delay :
    (n : ℕ)
    → let w = run until_wait (run (refusals n) new_tcp) in
      (w.phase ≡ waiting)
      × (w.retry_delay ≡ min 10000 (1000 * 2 ^ n))
      × (w.events ≡ replicate n retrying ++ (retrying ∷ []))
unfolding new_tcp
refusals-delay n =
    let e : run (refusals n) new_tcp ≡ resting (min 10000 (1000 * 2 ^ n)) (replicate n retrying) =
      refusals-resting n 0 [] ∙ rw (zero-add n) refl in
    rw e (waits (min 10000 (1000 * 2 ^ n)) (replicate n retrying))
