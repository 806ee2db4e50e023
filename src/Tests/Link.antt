-- ===== src/Tests/Link.antt =====
-- The theorems on the handshake and on the detector of resets at concrete moments and bytes.
use navigation_robot.Base.{ℕ, ◌≡◌, refl, List, [], ◌∷◌, ◌++◌}
use navigation_robot.Config.{reset_marker}
use navigation_robot.Link.{send, new_handshake, start, poll, new_detector, feed}
use navigation_robot.Link.Resets.{feed-twice}

hello_due : (poll (start new_handshake 0) 2000000).1 ≡ send
unfolding poll start
hello_due = refl

abbrev half : List ℕ
half = 1 ∷ 2 ∷ []

feed-twice_example :
    (feed (feed new_detector half 5).0 reset_marker 5).0
    ≡ (feed new_detector (half ++ reset_marker) 5).0
feed-twice_example = feed-twice new_detector half reset_marker 5
