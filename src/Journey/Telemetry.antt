-- ===== src/Journey/Telemetry.antt =====
-- The way of a height through the system: from a step of the climb (src/control_main.cpp) through the socket
-- (src/ipc.cpp) and the communication process (src/comm_main.cpp) to the ground station.
use mathlib.Core.Path.{subst}
use x_pilot.Base.{
  ℕ, ◌<◌, ◌≡◌, sym, ap, ◌∙◌, true, Option, some, [], ◌++◌, append-nil, length, arith,
}
use x_pilot.Base.Word.{htonl, length-htonl}
use x_pilot.Platform.{JsonLib, DoubleLib, SocketLib}
use x_pilot.Effects.{wire}
use x_pilot.Effects.Wire.{wire_two}
use x_pilot.Protocol.Frame.{frame}
use x_pilot.Tcp.{connected}
use x_pilot.Tcp.Sending.{send}
use x_pilot.Ipc.{send_frame}
use x_pilot.Ipc.Delivery.{IsWaitall, IsSendable, client_receives}
use x_pilot.Comm.{Comm}
use x_pilot.Comm.Events.{Event, ipc_event}
use x_pilot.Comm.Relay.{telemetry_passed_on}
use x_pilot.Control.{FlightController, on_robot, climbing}
use x_pilot.Control.Simulation.{fly, perform_climb, send_telemetry, telemetry}
use x_pilot.Journey.{same_front}

module _ (lib : JsonLib) (doubles : DoubleLib) (of_double : doubles.Double → lib.Json) where
  open lib use {Json, dump, put, null, of_string}
  open doubles use {Double, add, ten, lt}

  -- The controller ten metres higher.
  abbrev pub raised : FlightController lib doubles → FlightController lib doubles
  raised c = record c {
    current_altitude = add c.current_altitude ten;
    shm = on_robot lib doubles (λ r. record r { z = add c.current_altitude ten }) c.shm;
  }

  wire-telemetry :
      (c : FlightController lib doubles) (x : ℕ)
      → c.client_fd ≡ some x
      → 0 < x
      → wire x
          (send_telemetry lib doubles of_double c
            (some 4)
            (some (length (dump (telemetry lib doubles of_double c))))).trace
        ≡ wire x c.trace ++ frame (dump (telemetry lib doubles of_double c))
  unfolding send_telemetry send_frame frame
  wire-telemetry c x s k =
      let j = telemetry lib doubles of_double c in
      ground (
        arith,
        length-htonl (length (dump j)),
        wire_two x 4 (length (dump j)) (htonl (length (dump j))) (dump j) c.trace,
      )

  climb_step :
      (c : FlightController lib doubles) (target : Double) (h p : Option ℕ)
      → c.current_state ≡ climbing
      → lt c.current_altitude target ≡ true
      → fly lib doubles of_double c target h p ≡ send_telemetry lib doubles of_double (raised c) h p
  unfolding fly perform_climb
  climb_step c target h p s k = ground arith

  -- What the ground station is to read: the height, and that the controller climbs.
  abbrev pub height_message : Double → Json
  height_message height =
      put (put null "altitude" (of_double height)) "state" (of_string "CLIMBING")

  telemetry-raised :
      (c : FlightController lib doubles)
      → c.current_state ≡ climbing
      → telemetry lib doubles of_double (raised c) ≡ height_message (add c.current_altitude ten)
  unfolding telemetry
  telemetry-raised c s = ground arith

  wire-fly :
      (c : FlightController lib doubles) (target : Double) (x : ℕ)
      → c.current_state ≡ climbing
      → lt c.current_altitude target ≡ true
      → c.client_fd ≡ some x
      → 0 < x
      → wire x
          (fly lib doubles of_double c target
            (some 4)
            (some (length (dump (height_message (add c.current_altitude ten)))))).trace
        ≡ wire x c.trace ++ frame (dump (height_message (add c.current_altitude ten)))
  wire-fly c target x s k f p =
      let j = telemetry lib doubles of_double (raised c) in
      let flown =
        ap (λ (b : FlightController lib doubles). wire x b.trace)
          (climb_step c target (some 4) (some (length (dump j))) s k)
        ∙ wire-telemetry (raised c) x f p in
      subst
        (λ t.
          wire x (fly lib doubles of_double c target (some 4) (some (length (dump t)))).trace
          ≡ wire x c.trace ++ frame (dump t))
        (telemetry-raised c s) flown

  module _ (sock : SocketLib) (w : IsWaitall sock) where
    open sock use {Conn}
    open w use {pending}

    -- A step of the climb reports the new height, where a client is connected on a positive descriptor, the
    -- message is sendable, the kernel takes the bytes and the communication process has a connection: what
    -- the step adds to the socket, read by a readable event of the communication process, makes it put the
    -- frame of the message with that height as "altitude" and "CLIMBING" as "state" on the TCP connection, and
    -- nothing else.
    pub height_reported :
        (c : FlightController lib doubles) (target : Double) (x y : ℕ) (d : Comm)
        (e : Event lib sock)
        → c.current_state ≡ climbing
        → lt c.current_altitude target ≡ true
        → c.client_fd ≡ some x
        → 0 < x
        → IsSendable lib (height_message (add c.current_altitude ten))
        → wire x
            (fly lib doubles of_double c target
              (some 4)
              (some (length (dump (height_message (add c.current_altitude ten)))))).trace
          ≡ wire x c.trace ++ pending e.reads
        → d.tcp.state ≡ connected
        → d.tcp.sock_fd ≡ some y
        → e.readable ≡ true
        → (send lib d.tcp (height_message (add c.current_altitude ten)) e.answer).1 ≡ true
        → wire y (ipc_event lib sock d e).tcp.trace
          ≡ wire y d.tcp.trace ++ frame (dump (height_message (add c.current_altitude ten)))
    height_reported c target x y d e s k f p sendable grown up fd readable taken =
        let j = height_message (add c.current_altitude ten) in
        let new : pending e.reads ≡ frame (dump j) =
          same_front (wire x c.trace) (pending e.reads) (frame (dump j))
            (sym grown ∙ wire-fly c target x s k f p) in
        let (left, read, _) =
          client_receives lib sock w e.reads j [] sendable
            (new ∙ sym (append-nil (frame (dump j)))) in
        (telemetry_passed_on lib sock d e y j up fd readable (ap (λ t. t.0) read) taken).0
