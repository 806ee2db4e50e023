-- ===== src/Lib.antt =====
-- Verification of the host software of the navigation robot (navigation_robot/host/), of the
-- emulator that it is tested with, and of what drives the robot from the control PC: the keyboard
-- node, the launch of the robot, and the reader of maps.
--
-- The host talks to the ESP32-S3 controller of a robot with two wheels over a byte stream, a serial
-- port or a TCP connection. `protocol.py` frames messages and finds frames in the stream again,
-- `motion.py` lets one motion command at a time wait for its ACK, `link.py` repeats HELLO until an
-- answer comes and looks for the boot banner of the controller, `telemetry.py` decodes reports and
-- measures their rates, and `mapping.py` turns the joystick, the keys and the user's targets into
-- speeds and raw values. `app.py` holds one of each, in the state of the window `MotorTestApp`: its
-- timer loop `_poll` takes what a worker thread has received and calls the parser, the detector and
-- the handlers of the frames; its timer loop `_control_tick` sends the speeds and the keepalives.
-- The threads are those of `transport.py`: each has a queue of what is to be sent, and reports what
-- happens in a queue of events, which `_poll` empties.
--
-- The keyboard node publishes commands for the base driver of ROS 2 on the robot, which the launch
-- file starts with or without the permission to move.
--
-- Which file models what:
-- Protocol: navigation_robot/host/protocol.py. `crc16_ccitt_false`, `encode_frame`, and the
--   parser as a record with `feed`; `round` is one pass of its `while` loop, which ends with `stop`,
--   goes on with `again`, or goes on with a frame with `emit`. Protocol/Step and Protocol/Stream
--   carry the rounds over to cut streams, Protocol/Encoding has the layout of a frame,
--   Protocol/RoundTrip joins the two, Protocol/Crc is about the checksum alone.
-- Config: the numeric constants of navigation_robot/host/config.py.
-- Motion: navigation_robot/host/motion.py, a function for each method of `MotionCommandGate`.
-- Link: navigation_robot/host/link.py, `HandshakeController` and `ResetDetector`.
-- Telemetry: navigation_robot/host/telemetry.py, the rate meter and the decoders.
-- Mapping: navigation_robot/host/mapping.py.
-- Emulator: lower_controller_emulator.py in navigation_robot_ros2/src/
--   navigation_robot_base_driver/scripts/, which plays the controller in tests: its parser, its
--   answer to each request, its watchdog and its chassis telemetry; Emulator/Targets is about the
--   speeds that it drives, Emulator/Reports about what the host reads of its telemetry.
-- Transport: navigation_robot/host/transport.py. Transport has what both workers share, among it
--   the moves of a run: a call of `send` or `close`, or the next step of the thread with the
--   answer that it gets. Transport/Serial and Transport/Tcp have the workers: a phase is a place in
--   `_run` at which the thread meets the outside world or shared state, and `step` goes from one to
--   the next. Transport/Fifo compares the serial worker with a queue, Transport/Forgetting says what
--   the TCP worker still sends, Transport/Life, SerialLife and TcpLife are about the order of the
--   events, Transport/Ending and TcpEnding about the end of the thread, Transport/Retries about the
--   delay between attempts.
-- Teleop: keyboard_teleop.py in the same folder as local_map_publisher.py: Teleop/Keys has the keys
--   and `read_key`, Teleop/Node the node with a function for each method, Teleop/Loop `main`, with a
--   round of its loop as a record of what the round meets. Teleop/Bounds, Pressed, Runs and Shutdown
--   are about the speeds and the end, Teleop/Locked about the readiness of the base.
-- Launch: robot.launch.py in navigation_robot_ros2/src/navigation_robot_bringup/launch/:
--   Launch/Values has the values of the configuration and the small functions, Launch/Nodes the
--   parameters of the nodes, Launch/Setup `_camera_actions` and `_launch_setup`, cut at their
--   tests. Launch/Actions, Lock and Refusal are about what is started.
-- MotionTest: navigation_robot_ros2/scripts/test_real_base_motion.py: MotionTest/Samples has the
--   measured speeds and their check, MotionTest/Node the node with its callbacks and the loops,
--   MotionTest/Stages the parts of the test and `main`. What the test meets is a list of passes and
--   a list of answers of the brake service, among both the interrupts of the user, who also
--   interrupts it where a list ends. `deeds` is what it did to the base. MotionTest/Braking and
--   Stopping are about how the test leaves the base, Reading and Legible about the counters it reads.
-- LocalMap: local_map_publisher.py in navigation_robot_ros2/src/navigation_robot_remote_control/
--   navigation_robot_remote_control/, the reader of PGM images and the conversion to a grid;
--   `int` on a token and the comparisons with the thresholds are parameters. LocalMap/Cells says
--   which pixel each cell comes from.
-- App: navigation_robot/host/app.py. App/State has the attributes of `MotorTestApp` as a record
--   and methods as actions that take the state, return a value or an exception, and keep what was
--   changed before an exception. App/Session has the connection and the handshake, App/Driving the
--   control of both wheels and the keys, App/Motor the control of a single motor, App/Receive the
--   handling of what was received, App/Ticks the two loops. App/Safety has the proofs: Gate, Actions
--   and Sending for what is sent, Receiving for what is received, Loops and Runs for the callbacks,
--   Requests and Preparing for the four requests before both wheels can be driven,
--   Stops for what ends the control of both wheels, Stale for events of a worker that was let go.
-- Base: shared names, lists, results, integers, bytes, bits, association lists; Tests: runs at
--   concrete inputs.
--
-- Units. Times are microseconds on one clock, from 0 on; the moment is an
-- argument of every operation that reads `time.monotonic`. Targets of the user and positions of the
-- joystick are integers in thousandths, and `round` is rounding of the exact quotient to the
-- nearest, to even at a half. The speeds of the keyboard node are in hundredths of the unit of its
-- maxima, and the real numbers of the launch are in millionths. The floats of the IMU are their bit patterns. A rate is a count and a
-- duration.
--
-- Fuel. `Protocol.loop`, `Link.scan` and `Emulator.parse` have one unit more than there are
-- bytes in the buffer: a round that goes on takes at least one byte away. `Motion.advance`
-- has one unit more than the present moment: each round moves the next keepalive on by a positive
-- period. All else is by recursion on lists: a run is the list of its events, moves or rounds, and
-- ends with it.
--
-- What is not modelled: the widgets, message boxes, texts, the log and the snapshot file of the
-- window (to it a worker is what it was given to send, and the events in its queue are an argument of
-- `poll`); the serial port, the sockets and the threads' scheduler, which are the answers and the
-- order of the moves of a run, where a call of `send` is one move although its test and its `put` are
-- two; the joystick's drawing; the emulator's pseudo-terminal and IMU telemetry; `rclpy`, the terminal
-- and the clock of the keyboard node, which are what a round meets; `float`, `int`, `str`, the file
-- system, the YAML reader and the packages of the launch, which are the parameter `Outside`; the map
-- publisher's node; the texts that the motion test prints; the C++ nodes, the other launch files, and the
-- firmware.
pub mod Base
pub mod Protocol
pub mod Config
pub mod Motion
pub mod Link
pub mod Telemetry
pub mod Mapping
pub mod Emulator
pub mod LocalMap
pub mod Transport
pub mod Teleop
pub mod Launch
pub mod MotionTest
pub mod App
mod Tests
