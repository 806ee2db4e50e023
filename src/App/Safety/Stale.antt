-- ===== src/App/Safety/Stale.antt =====
-- What a worker reports after it was let go.
use navigation_robot.Base.{
  ℕ, zero, suc, ◌+◌, ◌≤◌, ◌≡◌, refl, ◌∙◌, false, List, [], ◌∷◌, arith, All, ok, drop, ◌==◌,
}
use navigation_robot.App.State.{App}
use navigation_robot.App.Session.{finish_disconnect, reset_session_state, cancel_open_timeout}
use navigation_robot.App.Ticks.{Entry, handle_entry, poll_loop}
use navigation_robot.App.Safety.Actions.{>>-after}

-- Every event is of that session or of an earlier one.
abbrev pub IsUpTo : ℕ → Entry → Type 0
IsUpTo session entry = entry.session ≤ session

handle_entry-stale :
    (entry : Entry) (a : App) (session : ℕ)
    → IsUpTo session entry
    → a.session_id ≡ session + 1
    → handle_entry entry a ≡ (ok tt, a)
unfolding handle_entry
handle_entry-stale entry a session h e =
    let other : (entry.session == a.session_id) ≡ false = ground (arith, e) in rw other refl

poll_loop-stale :
    (n : ℕ) (entries : List Entry) (a : App) (session : ℕ)
    → All (IsUpTo session) entries
    → a.session_id ≡ session + 1
    → poll_loop n entries a ≡ (ok (drop n entries), a)
unfolding poll_loop
poll_loop-stale zero entries a session h e = refl
poll_loop-stale (suc n) [] a session h e = refl
poll_loop-stale (suc n) (entry ∷ entries) a session h e =
    >>-after (handle_entry entry) (poll_loop n entries) a a
      (handle_entry-stale entry a session h.0 e)
    ∙ poll_loop-stale n entries a session h.1 e

finish_disconnect-session : (a : App) → (finish_disconnect a).session_id ≡ a.session_id + 1
unfolding finish_disconnect reset_session_state cancel_open_timeout
finish_disconnect-session a = ground arith

-- Once a connection is given up, no event of its worker or of an earlier one has any effect,
-- whatever it reports and however many events there are: they are only taken out of the queue.
pub finish_disconnect-poll_loop :
    (n : ℕ) (entries : List Entry) (a : App)
    → All (IsUpTo a.session_id) entries
    → poll_loop n entries (finish_disconnect a) ≡ (ok (drop n entries), finish_disconnect a)
finish_disconnect-poll_loop n entries a h =
    poll_loop-stale n entries (finish_disconnect a) a.session_id h (finish_disconnect-session a)
