-- ===== src/Config.antt =====
-- navigation_robot/host/config.py: the limits, the time-outs and the periods.
-- Every time of the host is a number of microseconds, so that its constants are exact.
use navigation_robot.Base.{ℕ, List, [], ◌∷◌}

abbrev pub m0601_brake_off : ℕ
m0601_brake_off = 0x00

abbrev pub m0601_brake_on : ℕ
m0601_brake_on = 0xFF

abbrev pub m0601_reserved_query_id : ℕ
m0601_reserved_query_id = 0xC8

abbrev pub m0601_mode_current : ℕ
m0601_mode_current = 0x01

abbrev pub m0601_mode_speed : ℕ
m0601_mode_speed = 0x02

abbrev pub m0601_mode_position : ℕ
m0601_mode_position = 0x03

abbrev pub max_current_ma : ℕ
max_current_ma = 1000

abbrev pub max_rpm : ℕ
max_rpm = 125

abbrev pub speed_gears : List ℕ
speed_gears = 25 ∷ 50 ∷ 75 ∷ 100 ∷ 125 ∷ []

abbrev pub left_motor_id : ℕ
left_motor_id = 1

abbrev pub right_motor_id : ℕ
right_motor_id = 2

abbrev pub set_id_confirm : ℕ
set_id_confirm = 0x4D36

abbrev pub handshake_initial_delay : ℕ
handshake_initial_delay = 1000000

abbrev pub handshake_retry : ℕ
handshake_retry = 300000

abbrev pub handshake_timeout : ℕ
handshake_timeout = 2500000

abbrev pub reset_window : ℕ
reset_window = 5000000

-- `b"ESP-ROM:"`
abbrev pub reset_marker : List ℕ
reset_marker = b'E' ∷ b'S' ∷ b'P' ∷ b'-' ∷ b'R' ∷ b'O' ∷ b'M' ∷ b':' ∷ []

abbrev pub startup_purge_max : ℕ
startup_purge_max = 1500000

abbrev pub startup_purge_quiet_reads : ℕ
startup_purge_quiet_reads = 3

abbrev pub poll_event_limit : ℕ
poll_event_limit = 48

abbrev pub motion_ack_timeout : ℕ
motion_ack_timeout = 250000

abbrev pub control_keepalive_period : ℕ
control_keepalive_period = 100000

abbrev pub telemetry_rate_window : ℕ
telemetry_rate_window = 2000000
