-- ===== src/Control/Release.antt =====
-- What the control process gives back when it ends: the shared memory, the socket, the client.
use mathlib.Core.Path.{subst}
use x_pilot.Base.{
  ℕ, ◌+◌, ◌<◌, ◌≡◌, Bool, Bool-cases, Option-cases, inl, inr, if_keeps, true, false, Option, none,
  some, List, [], ◌∷◌, String, Outcome, done, >>=-eq-done, done-injective, if◌then◌else◌, arith,
}
use x_pilot.Platform.{JsonLib, DoubleLib}
use x_pilot.Effects.{Effect, opens, closes, holds}
use x_pilot.Signals.{deliver}
use x_pilot.Ipc.{send_frame, accept, bind_and_listen, new_server}
use x_pilot.Raii.{ScopedShm, new_shm, open_}
use x_pilot.Control.{
  FlightController, Point, flight, stamp, move, spray_test, spray_add, count, new_controller,
  on_robot, has_client,
}
use x_pilot.Control.Handler.{MainEvent, quiet, frame_in, frame_failed, frame_threw, main_step}
use x_pilot.Control.Simulation.{at_point, send_telemetry, telemetry, fly, perform_climb}
use x_pilot.Control.Mission.{
  Action, Threads, threads, schedule, finish, StartEnv, prepare, wait_client, WaitEvent, timed_out,
  select_failed, incoming, notified, control_signal_handler, after_wait,
}
use x_pilot.Control.Schedules.{schedule_rule}

module _ (lib : JsonLib) (doubles : DoubleLib) (fd : ℕ) (positive : 0 < fd)
    (owner : ScopedShm) where
  open lib use {Json}
  open doubles use {Double, add, ten}

  -- A descriptor of the sockets that was got is closed, by the server or the controller, or held; and the
  -- owner of the memory is this one.
  abbrev pub IsAccounted : FlightController lib doubles → Type 0
  IsAccounted c =
      (opens fd c.server.trace
        ≡ closes fd c.server.trace
          + holds fd c.server.server_fd
          + closes fd c.trace
          + holds fd c.client_fd)
      × (opens fd c.trace ≡ 0)
      × (c.shm_owner ≡ owner)

  send_frame-ledger :
      (x : ℕ) (j : Json) (a b : Option ℕ) (t : List Effect)
      → (opens fd (send_frame lib x j a b t).0 ≡ opens fd t)
        × (closes fd (send_frame lib x j a b t).0 ≡ closes fd t)
  unfolding send_frame
  send_frame-ledger x j a b t = ground arith

  accepted-IsAccounted :
      (c : FlightController lib doubles) (answer : Option ℕ)
      → has_client c.client_fd ≡ false
      → IsAccounted c
      → IsAccounted
          (record c { server = (accept c.server answer).0; client_fd = (accept c.server answer).1 })
  unfolding accept
  accepted-IsAccounted c answer none_yet h = ground arith

  pub waited-IsAccounted :
      (es : List WaitEvent) (flag : Bool) (c : FlightController lib doubles)
      → has_client c.client_fd ≡ false
      → IsAccounted c
      → IsAccounted (wait_client lib doubles flag c es).1
  unfolding wait_client
  waited-IsAccounted [] flag c n h = h
  waited-IsAccounted (notified s ∷ es) flag c n h =
      waited-IsAccounted es (deliver control_signal_handler flag s) c n h
  waited-IsAccounted (timed_out ∷ es) flag c n h =
      if_keeps (λ (w : Option Bool × FlightController lib doubles). IsAccounted w.1) flag h
        (waited-IsAccounted es flag c n h)
  waited-IsAccounted (select_failed ∷ es) flag c n h =
      if_keeps (λ (w : Option Bool × FlightController lib doubles). IsAccounted w.1) flag h h
  waited-IsAccounted (incoming answer ∷ es) flag c n h =
      let (server, client) = accept c.server answer in
      let d : FlightController lib doubles = record c { server = server; client_fd = client } in
      let q = accepted-IsAccounted c answer n h in
      if_keeps (λ (w : Option Bool × FlightController lib doubles). IsAccounted w.1) flag h
        (elim (Bool-cases (has_client client)) [
          | inl k ↦ rw k q
          | inr k ↦ rw k (waited-IsAccounted es flag d k q)
        ])

  module _ (as_double : Json → Option Double) (of_double : Double → Json) where
    main-IsAccounted :
        (c c' : FlightController lib doubles) (e : MainEvent lib doubles as_double)
        → IsAccounted c
        → main_step lib doubles as_double c e ≡ done c'
        → IsAccounted c'
    unfolding main_step
    main-IsAccounted c c' quiet v h = ground arith
    main-IsAccounted c c' (frame_in j) v h = ground arith
    main-IsAccounted c c' frame_failed v h = ground arith
    main-IsAccounted c c' frame_threw v h = ground arith

    send_telemetry-IsAccounted :
        (c : FlightController lib doubles) (a b : Option ℕ)
        → IsAccounted c
        → IsAccounted (send_telemetry lib doubles of_double c a b)
    unfolding send_telemetry
    send_telemetry-IsAccounted c a b h = elim (Bool-cases (has_client c.client_fd)) [
      | inl k ↦ elim (Option-cases c.client_fd) [
        | inl e ↦ ground arith
        | inr (x, e) ↦
            ground (arith, send_frame-ledger x (telemetry lib doubles of_double c) a b c.trace)
      ]
      | inr k ↦ ground arith
    ]

    fly-IsAccounted :
        (c : FlightController lib doubles) (target : Double) (now : ℕ) (a b : Option ℕ)
        → IsAccounted c
        → IsAccounted (at_point lib doubles of_double flight c target now a b)
    unfolding at_point fly perform_climb
    fly-IsAccounted c target now a b h =
        let higher = add c.current_altitude ten in
        let up : FlightController lib doubles = record c {
          current_altitude = higher;
          shm = on_robot lib doubles (λ r. record r { z = higher }) c.shm;
        } in
        ground (arith, send_telemetry-IsAccounted up a b h)

    point-IsAccounted :
        (p : Point) (c : FlightController lib doubles) (target : Double) (now : ℕ) (a b : Option ℕ)
        → IsAccounted c
        → IsAccounted (at_point lib doubles of_double p c target now a b)
    unfolding at_point
    point-IsAccounted flight c target now a b v = fly-IsAccounted c target now a b v
    point-IsAccounted stamp c target now a b v = v
    point-IsAccounted move c target now a b v = v
    point-IsAccounted spray_test c target now a b v = v
    point-IsAccounted spray_add c target now a b v = v
    point-IsAccounted count c target now a b v = ground arith

    schedule-IsAccounted :
        (target : Double) (acts : List (Action lib doubles as_double of_double))
        (s s' : Threads lib doubles)
        → IsAccounted s.controller
        → schedule lib doubles as_double of_double s target acts ≡ done s'
        → IsAccounted s'.controller
    schedule-IsAccounted target =
        schedule_rule lib doubles as_double of_double IsAccounted target main-IsAccounted
          λ p c now a b _ v. point-IsAccounted p c target now a b v

    finished-IsAccounted :
        (c : FlightController lib doubles)
        → IsAccounted c
        → IsAccounted (finish lib doubles as_double of_double c)
    unfolding finish
    finished-IsAccounted c h = h

    pub after_wait-IsAccounted :
        (flag : Option Bool) (c : FlightController lib doubles) (target : Double)
        (acts : List (Action lib doubles as_double of_double))
        (r : Bool × FlightController lib doubles)
        → IsAccounted c
        → after_wait lib doubles as_double of_double flag c target acts ≡ done r
        → IsAccounted r.1
    unfolding after_wait
    after_wait-IsAccounted none c target acts r h e =
        subst (λ (q : Bool × FlightController lib doubles). IsAccounted q.1) (done-injective e) h
    after_wait-IsAccounted (some flag) c target acts r h e =
        let begun = threads lib doubles as_double of_double flag c in
        let (s, flown, back) =
          >>=-eq-done (schedule lib doubles as_double of_double begun target acts)
            (λ s. done (true, finish lib doubles as_double of_double s.controller)) e in
        subst (λ (q : Bool × FlightController lib doubles). IsAccounted q.1) (done-injective back)
          (finished-IsAccounted s.controller (schedule-IsAccounted target acts begun s h flown))

    pub either_way :
        (b : Bool) (m : Outcome (Bool × FlightController lib doubles))
        (ready : FlightController lib doubles) (r : Bool × FlightController lib doubles)
        → (m ≡ done r → IsAccounted r.1)
        → IsAccounted ready
        → (if b then m else done (false, ready)) ≡ done r
        → IsAccounted r.1
    either_way true m ready r f h e = f e
    either_way false m ready r f h e =
        subst (λ (q : Bool × FlightController lib doubles). IsAccounted q.1) (done-injective e) h

module _ (lib : JsonLib) (doubles : DoubleLib) (fd : ℕ) (positive : 0 < fd) where
  open lib use {Json}
  open doubles use {Double}

  -- What the object opens as its shared memory.
  abbrev pub mapped_by : String → StartEnv → ScopedShm
  mapped_by path env = (open_ new_shm path env.size false env.shm).0

  pub prepared-IsAccounted :
      (path : String) (speed : Double) (env : StartEnv)
      → IsAccounted lib doubles fd positive
          (mapped_by path env)
          (prepare lib doubles (new_controller lib doubles) path speed env).0
  unfolding prepare new_controller bind_and_listen new_server
  prepared-IsAccounted path speed env = ground arith

  pub prepared_alone :
      (path : String) (speed : Double) (env : StartEnv)
      → has_client (prepare lib doubles (new_controller lib doubles) path speed env).0.client_fd
        ≡ false
  unfolding prepare new_controller
  prepared_alone path speed env = ground arith
