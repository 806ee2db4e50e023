-- ===== src/Protocol/RoundTrip.antt =====
-- The parser on what `encode_frame` wrote: it gives the frame back, whatever follows.
use navigation_robot.Base.{
  ℕ, ◌+◌, ◌≤◌, ◌≡◌, ◌≢◌, refl, sym, ap, ◌∙◌, List, [], ◌∷◌, ◌++◌, append_assoc, arith, length,
  get_or, take, drop, length-append, get_or-append_right, All, All-append_split, append-nil, ok,
  take-append_exact, drop-append_exact,
}
use mathlib.Core.Path.{subst}
use native.Mathlib.Nat.{add-zero}
use navigation_robot.Base.Bytes.{u16_at, le16, IsByte, find, find_front}
use navigation_robot.Protocol.{
  sof, FrameParser, HostFrame, version, max_payload, again, emit, at_sof, round, crc16_ccitt_false,
  prepend, feed, encode_frame,
}
use navigation_robot.Protocol.Crc.{crc16_detects_byte}
use navigation_robot.Protocol.Encoding.{
  body, sent, wire, IsFrame, cut, cut-IsFrame, encode_frame-ok, body-bytes,
}
use navigation_robot.Protocol.Step.{round-found, round_idle}
use navigation_robot.Protocol.Stream.{
  waits, emits, feed-Rounds, Rounds-feed, feed_all, feed_all-join, join,
}

-- What the parser reads from a frame on the wire.
module _ (f : HostFrame) (crc : ℕ) (rest : List ℕ) where
  length-sent : length (sent f crc ++ rest) ≡ 10 + length f.payload + length rest
  length-sent =
      omega (arith, length-append {0} (sent f crc) rest, length-append {0} f.payload (le16 crc))

  sent_split : sent f crc ++ rest ≡ sof ++ (body f ++ (le16 crc ++ rest))
  sent_split = ap (λ t. sof ++ t) (append_assoc (body f) _ rest)

  sent_crc : u16_at (sent f crc ++ rest) (8 + length f.payload) ≡ crc
  sent_crc =
      let front = sof ++ body f in
      let low : 8 + length f.payload ≡ length front + 0 = omega arith in
      let high : length front + 0 + 1 ≡ length front + 1 = omega arith in
      rw (sent_split, low, high)
        (omega (
          arith,
          get_or-append_right front (le16 crc ++ rest) 0 0,
          get_or-append_right front (le16 crc ++ rest) 1 0,
        ))

  sent-body : take (6 + length f.payload) (drop 2 (sent f crc ++ rest)) ≡ body f
  sent-body =
      let e : 6 + length f.payload ≡ length (body f) = omega arith in
      rw (e, append_assoc) (take-append_exact (body f) _)

  sent_payload : take (length f.payload) (drop 8 (sent f crc ++ rest)) ≡ f.payload
  sent_payload = rw append_assoc (take-append_exact f.payload _)

  sent_rest : drop (10 + length f.payload) (sent f crc ++ rest) ≡ rest
  sent_rest =
      let e : 10 + length f.payload ≡ length (sent f crc) =
        omega (arith, length-append {0} f.payload (le16 crc)) in
      rw e (drop-append_exact (sent f crc) rest)

-- A buffer that starts with a whole frame of the right version, length and CRC is read as that
-- frame; if the CRC is wrong the parser counts that and drops one byte.
module _ (p : FrameParser) (n : ℕ) (is_version : get_or p.buffer 2 0 ≡ version)
    (is_length : u16_at p.buffer 6 ≡ n) (fits : n ≤ max_payload)
    (whole : 10 + n ≤ length p.buffer) where
  at_sof-read :
      u16_at p.buffer (8 + n) ≡ crc16_ccitt_false (take (6 + n) (drop 2 p.buffer))
      → at_sof p
        ≡ emit
            (record {
              msg_type = get_or p.buffer 3 0;
              sequence = get_or p.buffer 4 0;
              flags = get_or p.buffer 5 0;
              payload = take n (drop 8 p.buffer);
            })
            (record p { valid_frames = p.valid_frames + 1; buffer = drop (10 + n) p.buffer })
  unfolding at_sof
  at_sof-read is_crc = ground arith

  at_sof-wrong_crc :
      u16_at p.buffer (8 + n) ≢ crc16_ccitt_false (take (6 + n) (drop 2 p.buffer))
      → at_sof p ≡ again (record p { crc_errors = p.crc_errors + 1; buffer = drop 1 p.buffer })
  unfolding at_sof
  at_sof-wrong_crc is_crc = ground arith

module _ (p : FrameParser) (f : HostFrame) (rest : List ℕ) where
  -- The parser at a frame on the wire, and past it.
  abbrev at_sent : ℕ → FrameParser
  at_sent crc = record p { buffer = sent f crc ++ rest }

  abbrev past_wire : FrameParser
  past_wire = record p { valid_frames = p.valid_frames + 1; buffer = rest }

  pub round-wire : IsFrame f → round (at_sent (crc16_ccitt_false (body f))) ≡ emit f past_wire
  round-wire v =
      let crc = crc16_ccitt_false (body f) in
      round-found (at_sent crc) 0 (find_front sof _ refl)
      ∙ at_sof-read (at_sent crc) (length f.payload) refl (omega arith) v.payload_fits
          (omega (arith, length-sent f crc rest))
          (sent_crc f crc rest ∙ sym (ap crc16_ccitt_false (sent-body f crc rest)))
      ∙ (λ i.
          emit (record f { payload = sent_payload f crc rest i })
            (record past_wire { buffer = sent_rest f crc rest i }))

  -- A frame that is followed by another CRC than its own is not accepted: the round counts a CRC
  -- error and drops the first byte.
  pub round-sent :
      (crc : ℕ)
      → IsFrame f
      → crc ≢ crc16_ccitt_false (body f)
      → round (at_sent crc)
        ≡ again (record p { crc_errors = p.crc_errors + 1; buffer = drop 1 (sent f crc ++ rest) })
  round-sent crc v wrong =
      round-found (at_sent crc) 0 (find_front sof _ refl)
      ∙ at_sof-wrong_crc (at_sent crc) (length f.payload) refl (omega arith) v.payload_fits
          (omega (arith, length-sent f crc rest))
          (λ e. wrong (sym (sent_crc f crc rest) ∙ e ∙ ap crc16_ccitt_false (sent-body f crc rest)))

-- A parser that has nothing left over.
abbrev pub idle : FrameParser → FrameParser
idle p = record p { buffer = [] }

-- Whatever follows a frame on the wire, an idle parser gives that frame, counts it, and goes on
-- with what follows.
pub feed-wire :
    (p : FrameParser) (f : HostFrame) (rest : List ℕ)
    → IsFrame f
    → feed (idle p) (wire f ++ rest)
      ≡ prepend f (feed (idle (record p { valid_frames = p.valid_frames + 1 })) rest)
feed-wire p f rest v = Rounds-feed (idle p) (wire f ++ rest) (
    emits f (round-wire p f rest v)
      (feed-Rounds (idle (record p { valid_frames = p.valid_frames + 1 })) rest))

unfoldable pub wires : List HostFrame → List ℕ
wires [] = []
wires (f ∷ fs) = wire f ++ wires fs

feed_nil : (p : FrameParser) → feed (idle p) [] ≡ (idle p, [])
unfolding find
feed_nil p = Rounds-feed (idle p) [] (waits (round_idle (idle p) refl))

feed-wires :
    (p : FrameParser) (fs : List HostFrame)
    → All IsFrame fs
    → feed (idle p) (wires fs) ≡ (idle (record p { valid_frames = p.valid_frames + length fs }), fs)
unfolding wires
feed-wires p [] v =
    feed_nil p ∙ λ i. (idle (record p { valid_frames = sym (add-zero p.valid_frames) i }), [])
feed-wires p (f ∷ fs) (v, vs) =
    feed-wire p f (wires fs) v
    ∙ ap (prepend f) (feed-wires (record p { valid_frames = p.valid_frames + 1 }) fs vs)
    ∙ λ i. (idle (record p { valid_frames = count i }), f ∷ fs)
  where
    count : p.valid_frames + 1 + length fs ≡ p.valid_frames + length (f ∷ fs)
    count = omega arith

-- From a parser with nothing in its buffer, frames whose fields and payload are bytes and whose
-- payload fits come out of their stream as they were sent, in order and each once, however the
-- stream is cut into chunks; the parser counts them, reports no error and has nothing left over.
pub stream_round_trip :
    (p : FrameParser) (fs : List HostFrame) (chunk : List ℕ) (chunks : List (List ℕ))
    → All IsFrame fs
    → chunk ++ join chunks ≡ wires fs
    → feed_all (idle p) (chunk ∷ chunks)
      ≡ (idle (record p { valid_frames = p.valid_frames + length fs }), fs)
stream_round_trip p fs chunk chunks v cut_stream =
    feed_all-join (idle p) chunk chunks ∙ ap (feed (idle p)) cut_stream ∙ feed-wires p fs v

-- What `encode_frame` makes of a payload of bytes, a parser with nothing in its buffer takes back:
-- one frame with the type, sequence and flags cut to a byte and with the same payload.
pub feed-encode_frame :
    (p : FrameParser) (msg_type sequence flags : ℕ) (payload bytes : List ℕ)
    → All IsByte payload
    → encode_frame msg_type sequence flags payload ≡ ok bytes
    → feed (idle p) bytes ≡ (
      idle (record p { valid_frames = p.valid_frames + 1 }),
      cut msg_type sequence flags payload ∷ [],
    )
unfolding wires
feed-encode_frame p msg_type sequence flags payload bytes h e =
    let (same, fits) = encode_frame-ok msg_type sequence flags payload bytes h e in
    let f = cut msg_type sequence flags payload in
    rw (same, ← append-nil (wire f))
      (feed-wires p (f ∷ []) (cut-IsFrame msg_type sequence flags payload h fits, tt))

-- A frame in which one byte of its type, sequence number, flags or payload was replaced by another,
-- while its version, its length and its CRC stayed, is not accepted: the round that finds it at the
-- front of the buffer counts a CRC error, drops one byte and emits nothing.
pub round_detects_byte :
    (p : FrameParser) (f g : HostFrame) (before after rest : List ℕ) (a b : ℕ)
    → IsFrame f
    → IsFrame g
    → body f ≡ before ++ (a ∷ after)
    → body g ≡ before ++ (b ∷ after)
    → a ≢ b
    → let bytes = sent g (crc16_ccitt_false (body f)) ++ rest in
      round (record p { buffer = bytes })
      ≡ again (record p { crc_errors = p.crc_errors + 1; buffer = drop 1 bytes })
round_detects_byte p f g before after rest a b vf vg ef eg differ =
    let (ok_before, from_a) =
      All-append_split IsByte before (a ∷ after) (subst (All IsByte) ef (body-bytes f vf)) in
    let (_, from_b) =
      All-append_split IsByte before (b ∷ after) (subst (All IsByte) eg (body-bytes g vg)) in
    round-sent p g rest (crc16_ccitt_false (body f)) vg (λ e.
      crc16_detects_byte before after a b ok_before from_a.1 from_a.0 from_b.0 differ
        (sym (ap crc16_ccitt_false ef) ∙ e ∙ ap crc16_ccitt_false eg))
