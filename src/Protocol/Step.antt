-- ===== src/Protocol/Step.antt =====
-- One round of the parser's loop: how it looks at the buffer, and what it does on a whole frame.
use navigation_robot.Base.{
  ℕ, ◌+◌, ◌≤◌, ◌<◌, ◌≡◌, refl, sym, ap, ◌∙◌, List, [], ◌∷◌, ◌++◌, arith, length, get_or, take, drop,
  get_or-append, take-append, drop-append, length-drop, length-append, Option, none, some,
  Option-cases, Bool-cases, if◌then◌else◌, ◌==◌, false, ◌⊎◌, inl, inr,
}
use navigation_robot.Base.Bytes.{
  u16_at, find, find-append, find_bound, last, after, after-append_last, after-found, after-none,
  last-append_last, last-cons, last-nil, after-cons, starts_with, starts_with-append, find-drop,
  find_front,
}
use navigation_robot.Protocol.{
  sof, FrameParser, Round, stop, again, emit, at_sof, round, keep_sof, HostFrame,
}

-- The parser with more bytes in its buffer.
abbrev pub extend : FrameParser → List ℕ → FrameParser
extend p c = record p { buffer = p.buffer ++ c }

header-append :
    (b c : List ℕ)
    → 8 ≤ length b
    → (get_or (b ++ c) 2 0 ≡ get_or b 2 0)
      × (u16_at (b ++ c) 6 ≡ u16_at b 6)
      × (drop 1 (b ++ c) ≡ drop 1 b ++ c)
header-append b c h = (
  get_or-append b c 2 0 (omega arith),
  omega (arith, get_or-append b c 6 0 (omega arith), get_or-append b c 7 0 (omega arith)),
  drop-append 1 b c (omega arith),
)

frame-append :
    (b c : List ℕ) (n : ℕ)
    → 10 + n ≤ length b
    → (u16_at (b ++ c) (8 + n) ≡ u16_at b (8 + n))
      × (take (6 + n) (drop 2 (b ++ c)) ≡ take (6 + n) (drop 2 b))
      × (take n (drop 8 (b ++ c)) ≡ take n (drop 8 b))
      × (drop (10 + n) (b ++ c) ≡ drop (10 + n) b ++ c)
      × (get_or (b ++ c) 3 0 ≡ get_or b 3 0)
      × (get_or (b ++ c) 4 0 ≡ get_or b 4 0)
      × (get_or (b ++ c) 5 0 ≡ get_or b 5 0)
frame-append b c n h = (
  omega (
    arith,
    get_or-append b c (8 + n) 0 (omega arith),
    get_or-append b c (8 + n + 1) 0 (omega arith),
  ),
  rw (drop-append 2 b c (omega arith))
      (take-append (6 + n) (drop 2 b) c (omega (arith, length-drop {0} 2 b))),
  rw (drop-append 8 b c (omega arith))
      (take-append n (drop 8 b) c (omega (arith, length-drop {0} 8 b))),
  drop-append (10 + n) b c h,
  get_or-append b c 3 0 (omega arith),
  get_or-append b c 4 0 (omega arith),
  get_or-append b c 5 0 (omega arith),
)

module _ (p q : FrameParser) (c : List ℕ) where
  at_sof-again : at_sof p ≡ again q → at_sof (extend p c) ≡ again (extend q c)
  unfolding at_sof
  at_sof-again h = ground (
    arith,
    header-append p.buffer c,
    frame-append p.buffer c (u16_at p.buffer 6),
    length-append p.buffer c,
  )

  at_sof-emit : (f : HostFrame) → at_sof p ≡ emit f q → at_sof (extend p c) ≡ emit f (extend q c)
  unfolding at_sof
  at_sof-emit f h = ground (
    arith,
    header-append p.buffer c,
    frame-append p.buffer c (u16_at p.buffer 6),
    length-append p.buffer c,
  )

-- A round that waits for more bytes leaves the buffer alone.
at_sof-stop : (p q : FrameParser) → at_sof p ≡ stop q → (q ≡ p) × (length p.buffer < 138)
unfolding at_sof
at_sof-stop p q h = ground arith

at_sof-shorter : (p q : FrameParser) → at_sof p ≡ again q → length q.buffer + 1 ≡ length p.buffer
unfolding at_sof
at_sof-shorter p q h = ground (arith, length-drop 1 p.buffer)

at_sof-shorter_emit :
    (p q : FrameParser) (f : HostFrame)
    → at_sof p ≡ emit f q
    → length q.buffer + 10 ≤ length p.buffer
unfolding at_sof
at_sof-shorter_emit p q f h = ground (arith, length-drop (10 + u16_at p.buffer 6) p.buffer)

-- The parser with the bytes before a position dropped.
abbrev pub from : FrameParser → ℕ → FrameParser
from p i = record p { buffer = drop i p.buffer }

pub round-found :
    (p : FrameParser) (i : ℕ) → find sof p.buffer ≡ some i → round p ≡ at_sof (from p i)
unfolding round
round-found p i h = rw (h, round)

pub round_idle :
    (p : FrameParser)
    → find sof p.buffer ≡ none
    → round p ≡ stop (record p { buffer = keep_sof p.buffer })
unfolding round
round_idle p h = rw (h, round)

round-found_append :
    (p : FrameParser) (c : List ℕ) (i : ℕ)
    → find sof p.buffer ≡ some i
    → round (extend p c) ≡ at_sof (extend (from p i) c)
round-found_append p c i h =
    round-found (extend p c) i (find-append sof p.buffer c i h)
    ∙ ap (λ (b : List ℕ). at_sof (record p { buffer = b }))
        (drop-append i p.buffer c (omega (arith, find_bound sof p.buffer i h)))

module _ (p q : FrameParser) where
  pub round-again : (c : List ℕ) → round p ≡ again q → round (extend p c) ≡ again (extend q c)
  round-again c h = elim (Option-cases (find sof p.buffer)) [
    | inl o ↦ cc (round_idle p o)
    | inr (i, o) ↦
        round-found_append p c i o ∙ at_sof-again (from p i) q c (sym (round-found p i o) ∙ h)
  ]

  pub round-emit :
      (c : List ℕ) (f : HostFrame) → round p ≡ emit f q → round (extend p c) ≡ emit f (extend q c)
  round-emit c f h = elim (Option-cases (find sof p.buffer)) [
    | inl o ↦ cc (round_idle p o)
    | inr (i, o) ↦
        round-found_append p c i o ∙ at_sof-emit (from p i) q c f (sym (round-found p i o) ∙ h)
  ]

  pub round-shorter : round p ≡ again q → length q.buffer < length p.buffer
  round-shorter h = elim (Option-cases (find sof p.buffer)) [
    | inl o ↦ cc (round_idle p o)
    | inr (i, o) ↦ omega (
      arith,
      at_sof-shorter (from p i) q (sym (round-found p i o) ∙ h),
      length-drop {0} i p.buffer,
    )
  ]

  pub round-shorter_emit : (f : HostFrame) → round p ≡ emit f q → length q.buffer < length p.buffer
  round-shorter_emit f h = elim (Option-cases (find sof p.buffer)) [
    | inl o ↦ cc (round_idle p o)
    | inr (i, o) ↦ omega (
      arith,
      at_sof-shorter_emit (from p i) q f (sym (round-found p i o) ∙ h),
      length-drop {0} i p.buffer,
    )
  ]

-- `keep_sof` in terms of the last byte.
abbrev keep_first : List ℕ → List ℕ
keep_first l = if starts_with (0xAA ∷ []) l then l else []

abbrev IsLastByte : List ℕ → Type 0
IsLastByte l = (l ≡ []) ⊎ ((x : ℕ) × (l ≡ x ∷ []))

last-IsLastByte : (b : List ℕ) → IsLastByte (last 1 b)
last-IsLastByte [] = inl (last-nil 1)
last-IsLastByte (x ∷ []) = inr (x, refl)
last-IsLastByte (x ∷ y ∷ b) = rw (last-cons 1 x (y ∷ b) (omega arith)) (last-IsLastByte (y ∷ b))

keep_sof-cons : (x : ℕ) (c : List ℕ) → (0xAA == x) ≡ false → keep_sof (x ∷ c) ≡ keep_sof c
keep_sof-cons x [] h = rw h
keep_sof-cons x (y ∷ c) h = rw (last-cons 1 x (y ∷ c) (omega arith))

keep_first-append :
    (l c : List ℕ)
    → IsLastByte l
    → (keep_sof (keep_first l ++ c) ≡ keep_sof (l ++ c))
      × (after sof (keep_first l ++ c) ≡ after sof (l ++ c))
keep_first-append l c (inl e) = rw e (refl, refl)
keep_first-append l c (inr (x, e)) = elim (Bool-cases (0xAA == x)) [
  | inl sof_byte ↦ rw (e, sof_byte) (refl, refl)
  | inr other ↦ rw (e, other) (sym (keep_sof-cons x c other), sym (after-cons sof x c (rw other)))
]

-- A round looks at its buffer through the bytes from the first `SOF` on and through the last byte.
stopped : FrameParser → Round → FrameParser
stopped p (stop q) = q
stopped p (again q) = p
stopped p (emit f q) = p

stop-injective : {p q : FrameParser} → stop p ≡ stop q → p ≡ q
unfolding stopped
stop-injective {p} h = ap (stopped p) h

round_by : FrameParser → Option (List ℕ) → Round
round_by p none = stop (record p { buffer = keep_sof p.buffer })
round_by p (some b) = at_sof (record p { buffer = b })

round-round_by : (p : FrameParser) → round p ≡ round_by p (after sof p.buffer)
unfolding round_by
round-round_by p = elim (Option-cases (find sof p.buffer)) [
  | inl o ↦ round_idle p o ∙ sym (ap (round_by p) (after-none sof p.buffer o))
  | inr (i, o) ↦ round-found p i o ∙ sym (ap (round_by p) (after-found sof p.buffer i o))
]

round_by_same :
    (p : FrameParser) (b d : List ℕ)
    → keep_sof b ≡ keep_sof d
    → after sof b ≡ after sof d
    → round_by (record p { buffer = b }) (after sof b)
      ≡ round_by (record p { buffer = d }) (after sof d)
round_by_same p b d kept same = rw same (go (after sof d))
  where
    go :
        (o : Option (List ℕ))
        → round_by (record p { buffer = b }) o ≡ round_by (record p { buffer = d }) o
    go none = unfold round_by in ap (λ (l : List ℕ). stop (record p { buffer = l })) kept
    go (some l) = unfold round_by in refl

round_same :
    (p : FrameParser) (b d : List ℕ)
    → keep_sof b ≡ keep_sof d
    → after sof b ≡ after sof d
    → round (record p { buffer = b }) ≡ round (record p { buffer = d })
round_same p b d kept same =
    round-round_by (record p { buffer = b })
    ∙ round_by_same p b d kept same
    ∙ sym (round-round_by (record p { buffer = d }))

-- A round that waits can forget what it drops: with more bytes, the round on what it kept is the
-- round on everything.
round-stop_idle :
    (p : FrameParser) (c : List ℕ)
    → find sof p.buffer ≡ none
    → round (extend p c) ≡ round (extend (record p { buffer = keep_sof p.buffer }) c)
round-stop_idle p c h =
    let (kept, same) = keep_first-append (last 1 p.buffer) c (last-IsLastByte p.buffer) in
    round_same p (p.buffer ++ c) (keep_sof p.buffer ++ c)
      (ap keep_first (sym (last-append_last 1 p.buffer c)) ∙ sym kept)
      (after-append_last 0xAA (0x55 ∷ []) p.buffer c h ∙ sym same)

round-stop_found :
    (p q : FrameParser) (c : List ℕ) (i : ℕ)
    → find sof p.buffer ≡ some i
    → round p ≡ stop q
    → round (extend p c) ≡ round (extend q c)
round-stop_found p q c i o h =
    let (same, _) = at_sof-stop (from p i) q (sym (round-found p i o) ∙ h) in
    let front = starts_with-append sof (drop i p.buffer) c (find-drop sof p.buffer i o) in
    rw same (
      round-found_append p c i o
      ∙ sym (round-found (extend (from p i) c) 0 (find_front sof (drop i p.buffer ++ c) front)))

pub round-stop :
    (p q : FrameParser) (c : List ℕ) → round p ≡ stop q → round (extend p c) ≡ round (extend q c)
round-stop p q c h = elim (Option-cases (find sof p.buffer)) [
  | inl o ↦ rw (stop-injective (sym h ∙ round_idle p o)) (round-stop_idle p c o)
  | inr (i, o) ↦ round-stop_found p q c i o h
]
