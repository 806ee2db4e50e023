-- ===== src/Emulator.antt =====
-- navigation_robot_ros2/src/navigation_robot_base_driver/scripts/lower_controller_emulator.py: the
-- emulator of the controller on a pseudo-terminal. Times are in microseconds.
pub mod Targets
pub mod Reports
use navigation_robot.Base.{
  ℕ, zero, suc, ◌+◌, ◌-◌, ◌/◌, ◌%◌, Bool, true, false, not, ◌&&◌, ◌||◌, Option, none, some, List,
  [], ◌∷◌, ◌++◌, length, get_or, take, drop, ltb, leb, ◌==◌, if◌then◌else◌, Result, ok, err, ◌>>=◌,
}
use navigation_robot.Base.Int.{ℤ, pos, negsuc, neg, eq_ℤ, leb_ℤ}
use navigation_robot.Base.Bytes.{pack_u8, pack_u16, pack_u32, pack_i16, u16_at, i16_at, find}
use navigation_robot.Base.Dict.{lookup, insert}
use navigation_robot.Protocol.{crc16_ccitt_false, sof, HostFrame, keep_sof}

-- `crc16`, which is the loop of the host's function on the same polynomial.
abbrev pub crc16 : List ℕ → ℕ
crc16 = crc16_ccitt_false

-- `encode`, which neither limits the payload nor cuts the fields to bytes.
unfoldable pub encode : ℕ → ℕ → List ℕ → ℕ → Result (List ℕ)
encode msg_type sequence payload flags = do
  v ← pack_u8 1
  t ← pack_u8 msg_type
  s ← pack_u8 sequence
  f ← pack_u8 flags
  n ← pack_u16 (length payload)
  let body = v ++ (t ++ (s ++ (f ++ (n ++ payload))))
  crc ← pack_u16 (crc16 body)
  ok (sof ++ (body ++ crc))

-- One pass of the loop of `Parser.feed`, with the buffer that it leaves.
pub data Pass : Type 0 where
  returns goes_on : List ℕ → Pass
  gives : HostFrame → List ℕ → Pass

unfoldable pub at_start : List ℕ → Pass
at_start b =
    let payload_length = u16_at b 6 in
    let total = 10 + payload_length in
    if ltb (length b) 8
    then returns b
    else if ltb 128 payload_length
    then goes_on (drop 1 b)
    else if ltb (length b) total
    then returns b
    else if not (crc16 (take (6 + payload_length) (drop 2 b)) == u16_at b (8 + payload_length))
    then goes_on (drop 1 b)
    else gives
        (record {
          msg_type = get_or b 3 0;
          sequence = get_or b 4 0;
          flags = get_or b 5 0;
          payload = take payload_length (drop 8 b);
        })
        (drop total b)

unfoldable pub pass : List ℕ → Pass
pass b = elim (find sof b) [ none ↦ returns (keep_sof b) | some start ↦ at_start (drop start b) ]

unfoldable pub parse : ℕ → List ℕ → List ℕ × List HostFrame
parse zero b = (b, [])
parse (suc fuel) b = elim (pass b) [
  | returns c ↦ (c, [])
  | goes_on c ↦ parse fuel c
  | gives f c ↦ let (end, frames) = parse fuel c in (end, f ∷ frames)
]

-- `Parser.feed`: every pass that goes on takes a byte away.
unfoldable pub feed : List ℕ → List ℕ → List ℕ × List HostFrame
feed buffer bytes = let b = buffer ++ bytes in parse (length b + 1) b

-- The variables of `main`; `written` is what `try_write` was given.
pub record Emulator : Type 0 where
  pub buffer : List ℕ
  pub started : ℕ
  pub last_keepalive : ℕ
  pub last_chassis : ℕ
  pub target_left : ℤ
  pub target_right : ℤ
  pub telemetry_count : ℕ
  pub watchdog_count : ℕ
  pub active : Bool
  pub output_sequence : ℕ
  pub confirmed : List ℕ
  pub selected_id : ℕ
  pub modes : List (ℕ × ℕ)
  pub written : List (List ℕ)

unfoldable pub new_emulator : ℕ → Emulator
new_emulator started = record {
  buffer = [];
  started = started;
  last_keepalive = started;
  last_chassis = 0;
  target_left = pos 0;
  target_right = pos 0;
  telemetry_count = 0;
  watchdog_count = 0;
  active = false;
  output_sequence = 0;
  confirmed = [];
  selected_id = 1;
  modes = [];
  written = [];
}

unfoldable pub is_confirmed : ℕ → List ℕ → Bool
is_confirmed id [] = false
is_confirmed id (c ∷ confirmed) = if id == c then true else is_confirmed id confirmed

abbrev pub is_speed : Option ℕ → Bool
is_speed none = false
is_speed (some mode) = mode == 2

abbrev pub query : List ℕ → Emulator → ℕ × Emulator
query payload s =
    let id = get_or payload 0 0 in
    if not (length payload == 1)
    then (2, s)
    else if id == 0xC8
    then (3, s)
    else (0, record s { selected_id = id; confirmed = id ∷ s.confirmed })

abbrev pub set_mode : List ℕ → Emulator → ℕ × Emulator
set_mode payload s =
    let id = get_or payload 0 0 in
    let mode = get_or payload 1 0 in
    if not (length payload == 2)
    then (2, s)
    else if id == 0xC8 || not (mode == 1 || (mode == 2 || mode == 3))
    then (3, s)
    else if not (is_confirmed id s.confirmed) || not (s.selected_id == id)
    then (7, s)
    else (0, record s { modes = insert id mode s.modes })

-- `-125 <= value <= 125`
abbrev pub is_speed_limit : ℤ → Bool
is_speed_limit value = leb_ℤ (neg (pos 125)) value && leb_ℤ value (pos 125)

abbrev pub is_ready : Emulator → Bool
is_ready s =
    (is_confirmed 1 s.confirmed && is_confirmed 2 s.confirmed)
    && (is_speed (lookup 1 s.modes) && is_speed (lookup 2 s.modes))

abbrev pub drive : List ℕ → ℕ → Emulator → ℕ × Emulator
drive payload now s =
    let new_left = i16_at payload 2 in
    let new_right = i16_at payload 4 in
    if not (length payload == 8)
    then (2, s)
    else if not (get_or payload 0 0 == 1)
        || (not (get_or payload 1 0 == 2)
            || (not (is_speed_limit new_left) || not (is_speed_limit new_right)))
    then (3, s)
    else if not (is_ready s)
    then (7, s)
    else (
      0,
      record s {
        target_left = new_left;
        target_right = new_right;
        active = not (eq_ℤ new_left (pos 0)) || not (eq_ℤ new_right (pos 0));
        last_keepalive = now;
      },
    )

-- `payload != b'\x01\x02'`
abbrev pub is_pair : List ℕ → Bool
is_pair payload = length payload == 2 && (get_or payload 0 0 == 1 && get_or payload 1 0 == 2)

abbrev pub keep_alive : List ℕ → ℕ → Emulator → ℕ × Emulator
keep_alive payload now s =
    if not (is_pair payload)
    then (2, s)
    else if not s.active
    then (7, s)
    else (0, record s { last_keepalive = now })

abbrev pub halt : Emulator → Emulator
halt s = record s { target_left = pos 0; target_right = pos 0; active = false }

abbrev pub stop : List ℕ → Emulator → ℕ × Emulator
stop payload s =
    if not (length payload == 3)
    then (2, s)
    else if not (get_or payload 0 0 == 1) || not (get_or payload 1 0 == 2)
    then (3, s)
    else (0, halt s)

-- The status of a request, and the state after it.
unfoldable pub request : HostFrame → ℕ → Emulator → ℕ × Emulator
unfolding is_confirmed lookup insert neg
request f now s =
    if f.msg_type == 0x01
    then (if length f.payload == 0 then 0 else 2, s)
    else if f.msg_type == 0x13
    then query f.payload s
    else if f.msg_type == 0x16
    then set_mode f.payload s
    else if f.msg_type == 0x1A
    then drive f.payload now s
    else if f.msg_type == 0x1B
    then keep_alive f.payload now s
    else if f.msg_type == 0x1C
    then stop f.payload s
    else (8, s)

abbrev pub acknowledge : HostFrame → ℕ × Emulator → Result Emulator
acknowledge f (status, s) =
    if f.flags % 2 == 1 || not (status == 0)
    then (do
      t ← pack_u8 f.msg_type
      n ← pack_u8 status
      frame ← encode 0x80 f.sequence (t ++ (n ++ (0 ∷ 0 ∷ []))) 0
      ok (record s { written = s.written ++ (frame ∷ []) }))
    else ok s

unfoldable pub serve : HostFrame → ℕ → Emulator → Result Emulator
unfolding request encode
serve f now s = acknowledge f (request f now s)

unfoldable pub watch : ℕ → Emulator → Emulator
watch now s =
    if s.active && ltb (s.last_keepalive + 300000) now
    then record (halt s) { watchdog_count = s.watchdog_count + 1 }
    else s

-- `motor_record`: the format `<BBBBhhhHBBHIHH`.
unfoldable pub motor_record : ℕ → ℤ → ℤ → ℕ → Result (List ℕ)
motor_record motor_id target actual count = do
  n ← pack_u8 motor_id
  let state = if eq_ℤ actual (pos 0) then 1 else 2
  t ← pack_i16 target
  a ← pack_i16 actual
  c ← pack_u32 count
  let start = n ++ (2 ∷ state ∷ 0 ∷ [])
  ok (start ++ (t ++ (a ++ (0 ∷ 0 ∷ 0 ∷ 0 ∷ 0 ∷ 0 ∷ 0 ∷ 0 ∷ (c ++ (0 ∷ 0 ∷ 0 ∷ 0 ∷ []))))))

-- The chassis telemetry; `1 if active else 0` is the owner and the lowest flag.
abbrev pub is_active : Emulator → ℕ
is_active s = if s.active then 1 else 0

unfoldable pub chassis_payload : ℕ → Emulator → Result (List ℕ)
unfolding motor_record
chassis_payload now s = do
  let uptime_ms = (now - s.started) / 1000 % 4294967296
  u ← pack_u32 uptime_ms
  w ← pack_u16 s.watchdog_count
  l ← motor_record 1 s.target_left s.target_left s.telemetry_count
  r ← motor_record 2 s.target_right s.target_right s.telemetry_count
  ok (u ++ (is_active s ∷ (0x18 + is_active s) ∷ (w ++ (l ++ r))))

abbrev pub report_by : ℕ → Emulator → Result (List ℕ) → Result Emulator
report_by now s payload = do
  bytes ← payload
  frame ← encode 0x92 s.output_sequence bytes 0
  ok (record s {
    written = s.written ++ (frame ∷ []);
    output_sequence = (s.output_sequence + 1) % 256;
    last_chassis = now;
  })

unfoldable pub report_chassis : ℕ → Emulator → Result Emulator
unfolding chassis_payload encode
report_chassis now s =
    let counted = record s { telemetry_count = s.telemetry_count + 1 } in
    if ltb now (s.last_chassis + 100000)
    then ok s
    else report_by now counted (chassis_payload now counted)
