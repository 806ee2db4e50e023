-- ===== src/Transport/Traffic.antt =====
-- What the moves of a run give to a worker, and what its events tell of.
use navigation_robot.Base.{
  ℕ, ◌≡◌, refl, ap, sym, ◌∙◌, Bool, true, false, List, [], ◌∷◌, ◌++◌, append-nil, append_assoc,
}
use navigation_robot.App.Ticks.{Event}
use navigation_robot.Transport.{Answer, Move, sends, closes, steps, tx_of, transmitted, accepted}

pub accepted-nil : (stopped : Bool) → accepted stopped [] ≡ []
accepted-nil true = refl
accepted-nil false = refl

pub accepted_stopped :
    (stopped : Bool) (moves : List Move) → stopped ≡ true → accepted stopped moves ≡ []
accepted_stopped true moves e = refl
accepted_stopped false moves e = absurd (cc e)

pub accepted-sends :
    (stopped : Bool) (bytes : List ℕ) (moves : List Move)
    → stopped ≡ false
    → accepted stopped (sends bytes ∷ moves) ≡ bytes ∷ accepted stopped moves
accepted-sends true bytes moves e = absurd (cc e)
accepted-sends false bytes moves e = refl

pub accepted-closes :
    (stopped : Bool) (moves : List Move) → accepted stopped (closes ∷ moves) ≡ accepted true moves
accepted-closes true moves = refl
accepted-closes false moves = refl

pub accepted-steps :
    (stopped : Bool) (answer : Answer) (moves : List Move)
    → accepted stopped (steps answer ∷ moves) ≡ accepted stopped moves
accepted-steps true answer moves = refl
accepted-steps false answer moves = refl

pub transmitted-append :
    (events more : List Event)
    → transmitted (events ++ more) ≡ transmitted events ++ transmitted more
transmitted-append [] more = refl
transmitted-append (event ∷ events) more =
    ap (λ t. tx_of event ++ t) (transmitted-append events more)
    ∙ sym (append_assoc (tx_of event) (transmitted events) (transmitted more))

-- A report of anything else than data changes nothing of it.
pub quiet :
    (events : List Event) (event : Event)
    → tx_of event ≡ []
    → transmitted (events ++ (event ∷ [])) ≡ transmitted events
quiet events event h =
    transmitted-append events (event ∷ []) ∙ rw h (append-nil (transmitted events))
