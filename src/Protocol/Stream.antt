-- ===== src/Protocol/Stream.antt =====
-- The parser on a stream: that its loop ends, and that the cuts between the chunks do not matter.
use navigation_robot.Base.{
  ℕ, zero, suc, ◌<◌, ◌≡◌, refl, sym, ap, ◌∙◌, List, [], ◌∷◌, ◌++◌, append_assoc, append-nil, arith,
  length, ◌⊎◌, inl, inr,
}
use navigation_robot.Protocol.{
  FrameParser, HostFrame, Round, stop, again, emit, round, prepend, loop, feed,
}
use navigation_robot.Protocol.Step.{
  extend, round-again, round-emit, round-stop, round-shorter, round-shorter_emit,
}

-- The rounds until one waits for more bytes: what the loop of `feed` computes, with no fuel.
pub data Rounds : FrameParser → List HostFrame → FrameParser → Type 0 where
  waits : {p q : FrameParser} → round p ≡ stop q → Rounds p [] q
  skips :
      {p q r : FrameParser} {frames : List HostFrame}
      → round p ≡ again q
      → Rounds q frames r
      → Rounds p frames r
  emits :
      {p q r : FrameParser} {frames : List HostFrame} (f : HostFrame)
      → round p ≡ emit f q
      → Rounds q frames r
      → Rounds p (f ∷ frames) r

Round-cases :
    (p : FrameParser)
    → ((q : FrameParser) × (round p ≡ stop q))
      ⊎ ((q : FrameParser) × (round p ≡ again q))
      ⊎ ((f : HostFrame) × (q : FrameParser) × (round p ≡ emit f q))
Round-cases p = go (round p) refl
  where
    go :
        (r : Round)
        → round p ≡ r
        → ((q : FrameParser) × (round p ≡ stop q))
          ⊎ ((q : FrameParser) × (round p ≡ again q))
          ⊎ ((f : HostFrame) × (q : FrameParser) × (round p ≡ emit f q))
    go (stop q) e = inl (q, e)
    go (again q) e = inr (inl (q, e))
    go (emit f q) e = inr (inr (f, q, e))

module _ (fuel : ℕ) (p q : FrameParser) where
  loop-stop : round p ≡ stop q → loop (suc fuel) p ≡ (q, [])
  unfolding loop
  loop-stop e = rw (e, loop)

  loop-again : round p ≡ again q → loop (suc fuel) p ≡ loop fuel q
  unfolding loop
  loop-again e = rw (e, loop)

  loop-emit : (f : HostFrame) → round p ≡ emit f q → loop (suc fuel) p ≡ prepend f (loop fuel q)
  unfolding loop
  loop-emit f e = rw (e, loop)

-- The loop ends: fuel above the number of buffered bytes is enough, so that the result is one
-- that waits for more bytes.
pub loop-Rounds :
    (fuel : ℕ) (p : FrameParser) → length p.buffer < fuel → Rounds p (loop fuel p).1 (loop fuel p).0
loop-Rounds zero p h = elim h [ ]
loop-Rounds (suc fuel) p h = elim (Round-cases p) [
  | inl (q, e) ↦ rw (loop-stop fuel p q e) (waits e)
  | inr (inl (q, e)) ↦
      rw (loop-again fuel p q e) (skips e (loop-Rounds fuel q (omega (arith, round-shorter p q e))))
  | inr (inr (f, q, e)) ↦
      rw (loop-emit fuel p q f e)
        (emits f e (loop-Rounds fuel q (omega (arith, round-shorter_emit p q f e))))
]

-- The rounds determine the result of the loop.
pub Rounds-loop :
    {p r : FrameParser} {frames : List HostFrame} (fuel : ℕ)
    → length p.buffer < fuel
    → Rounds p frames r
    → loop fuel p ≡ (r, frames)
Rounds-loop zero h rounds = elim h [ ]
Rounds-loop {p} {r} (suc fuel) h (waits e) = loop-stop fuel p r e
Rounds-loop {p} (suc fuel) h (skips {q = q} e rest) =
    loop-again fuel p q e ∙ Rounds-loop fuel (omega (arith, round-shorter p q e)) rest
Rounds-loop {p} (suc fuel) h (emits {q = q} f e rest) =
    loop-emit fuel p q f e
    ∙ ap (prepend f) (Rounds-loop fuel (omega (arith, round-shorter_emit p q f e)) rest)

Rounds-same :
    {p q r : FrameParser} {frames : List HostFrame}
    → round p ≡ round q
    → Rounds q frames r
    → Rounds p frames r
Rounds-same same (waits e) = waits (same ∙ e)
Rounds-same same (skips e rest) = skips (same ∙ e) rest
Rounds-same same (emits f e rest) = emits f (same ∙ e) rest

-- Bytes that follow extend the rounds that were made.
pub Rounds-append :
    {p q : FrameParser} {frames : List HostFrame}
    → Rounds p frames q
    → (c : List ℕ) {more : List HostFrame} {r : FrameParser} → Rounds (extend q c) more r
    → Rounds (extend p c) (frames ++ more) r
Rounds-append {p} {q} (waits e) c rest = Rounds-same (round-stop p q c e) rest
Rounds-append {p} (skips {q = q} e earlier) c rest =
    skips (round-again p q c e) (Rounds-append earlier c rest)
Rounds-append {p} (emits {q = q} f e earlier) c rest =
    emits f (round-emit p q c f e) (Rounds-append earlier c rest)

pub feed-Rounds :
    (p : FrameParser) (bytes : List ℕ) → Rounds (extend p bytes) (feed p bytes).1 (feed p bytes).0
unfolding feed
feed-Rounds p bytes = loop-Rounds _ (extend p bytes) (omega arith)

pub Rounds-feed :
    (p : FrameParser) (bytes : List ℕ) {r : FrameParser} {frames : List HostFrame}
    → Rounds (extend p bytes) frames r
    → feed p bytes ≡ (r, frames)
unfolding feed
Rounds-feed p bytes rounds = Rounds-loop _ (omega arith) rounds

-- The frames of one call, then those of the next.
abbrev pub before : List HostFrame → FrameParser × List HostFrame → FrameParser × List HostFrame
before frames (r, more) = (r, frames ++ more)

abbrev pub feed_both : FrameParser → List ℕ → List ℕ → FrameParser × List HostFrame
feed_both p a b = before (feed p a).1 (feed (feed p a).0 b)

-- Feeding bytes in two chunks gives the same frames in the same order, and the same parser with
-- its buffer and its three counters, as feeding them at once, wherever the cut is.
pub feed-append : (p : FrameParser) (a b : List ℕ) → feed p (a ++ b) ≡ feed_both p a b
feed-append p a b = Rounds-feed p (a ++ b) (
    rw (← append_assoc p.buffer a b)
      (Rounds-append (feed-Rounds p a) b (feed-Rounds (feed p a).0 b)))

-- All the chunks of a stream, one call of `feed` each.
unfoldable pub feed_all : FrameParser → List (List ℕ) → FrameParser × List HostFrame
feed_all p [] = (p, [])
feed_all p (chunk ∷ chunks) = let (q, frames) = feed p chunk in before frames (feed_all q chunks)

unfoldable pub join : List (List ℕ) → List ℕ
join [] = []
join (chunk ∷ chunks) = chunk ++ join chunks

-- However a stream is cut into chunks, the frames and the parser are those of the whole stream.
pub feed_all-join :
    (p : FrameParser) (chunk : List ℕ) (chunks : List (List ℕ))
    → feed_all p (chunk ∷ chunks) ≡ feed p (chunk ++ join chunks)
unfolding feed_all join
feed_all-join p chunk [] = rw (append-nil, append-nil)
feed_all-join p chunk (next ∷ chunks) =
    ap (before (feed p chunk).1) (feed_all-join (feed p chunk).0 next chunks)
    ∙ sym (feed-append p chunk (next ++ join chunks))
