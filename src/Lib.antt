-- ===== src/Lib.antt =====
-- x_pilot, the control software of an agricultural drone, as four processes: a manager that starts the
-- others and keeps them running, a communication process between the ground station (TCP) and the
-- control process (a Unix domain socket), a control process that flies the simulated drone on two
-- threads, and a viewer that reads the drone's state from shared memory.
--
-- Parts, by file (paths from the root of the repository):
--   Base        lists, words and results that the other files share; no code of its own.
--   Platform    what the program takes from elsewhere, as interfaces: the calls of include/json.hpp,
--               the machine's double, a blocking read of a socket. Platform/Sample has instances that
--               the examples compute with.
--   Effects     what goes out of a process, as data: descriptors got and closed, bytes sent, events of
--               metrics.log, and what the clock answered to attempts to connect and their failures.
--   Signals     the flag g_should_exit, its handlers and the loops that test it, in all four processes.
--   Protocol    include/protocol.h, src/protocol.cpp: parseFrame is parse_frame, its loop parse_loop.
--   Tcp         include/tcp_client.h, src/tcp_client.cpp: TcpClient, a definition for each method
--               (tryConnect is try_connect, and so on); `send` and sendHeartbeat are in Tcp/Sending,
--               `recv` in Tcp/Receiving. Tcp/Calls has the histories of calls, and Tcp/Machine the
--               connection as an abstract machine, with a pause of min(60, 2 ^ n) seconds after n
--               failures in a row.
--   Ipc         include/ipc.h, src/ipc.cpp: UnixSocketServer and UnixSocketClient.
--   Robot       include/types.h.
--   Control     src/control_main.cpp: FlightController. Control/Handler has handleCommand as handle_command
--               and a round of the main thread as main_step, Control/Simulation a part of a round of
--               the simulation thread as sim_step, and Control/Rounds that round in one piece, Control/Flight
--               rounds one behind another. Control/Mission has runMission,
--               Control/Plan loadConfig and main (run_control).
--   Manager     src/manager_main.cpp: start_process, the monitoring loop as monitor, the end as
--               shut_down, and main as run_manager.
--   Comm        src/comm_main.cpp: blocks A, B and B2 of a round of the event loop. Comm/Events has block
--               D, the events, Comm/Rounds a round and the loop (main_loop), Comm/Main main as
--               comm_main.
--   Journey     a command, many commands, and a height, on their way through Tcp, Comm, Ipc and Control.
--   Raii        include/raii.h: ScopedFd as a descriptor or none, with a function for each method, and
--               ScopedShm.
--   Config      include/config.h, src/config.cpp: ConfigLoader::load is load.
--   Log         include/utils.h, src/utils.cpp, src/metrics.cpp: the lines of the two logs and where they
--               go; logMessage is log_message, a macro LOG_INFO log_info, Metrics::emit emit. The std::map of
--               the C++ library is insert and make_map. Log/Reading is a reader of metrics.log.
--   View        src/view_main.cpp: main as view_main.
--
-- How they interact: Comm runs the methods of Tcp and of the client in Ipc, and both ends of Ipc read
-- and write the frames of Protocol. Control runs the server of Ipc and writes the state of Robot, which
-- View reads through the owner in Raii. Manager knows the others as process numbers only.
--
-- How the code is modelled. A method is a function from the old object to the new one. What the kernel,
-- the clock and the other processes answer are arguments, so that a theorem holds for all of their
-- answers; an answer that the code ignores is no argument. An exception that nobody catches is `threw`.
-- The descriptor -1 and the null pointer are `none`. Traces are newest first. Numbers are natural, and
-- a length on the wire or a port is cut to its width where the code cuts it. The threads of the control
-- process, and the signals that it gets, are a sequence of steps in any order, where each step writes
-- at most one field that the other thread uses. In the other processes the signals that arrive are
-- listed before each test of the flag.
--
-- Bounds: parse_loop has fuel, one round more than the buffer has bytes; each round that goes on takes a
-- header of four bytes off at least, so the fuel is never used up, which Protocol.Loop shows. The
-- other loops of the program end by a signal or a deadline: they are recursions over the list of what
-- the rounds meet.
--
-- Not modelled: the text of log messages, sleeping as such, the cut of a socket path of more than 107
-- bytes (the program's has 16), the layout of the shared memory, undefined behaviour of a data race,
-- a `kill` or `mkdir` that fails, and the formatting of times and numbers. include/json.hpp is another
-- project's. src/config, the tests and the build file are data and tools.
pub mod Base
pub mod Platform
pub mod Effects
pub mod Signals
pub mod Protocol
pub mod Tcp
pub mod Ipc
pub mod Robot
pub mod Raii
pub mod Config
pub mod Log
pub mod Control
pub mod Manager
pub mod Comm
pub mod Journey
pub mod View
