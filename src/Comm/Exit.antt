-- ===== src/Comm/Exit.antt =====
-- What holds when the communication process ends.
use mathlib.Core.Path.{subst}
use x_pilot.Base.{
  Bool, String, ℕ, ◌≡◌, refl, false, Option, some, none, List, ◌∷◌, ◌++◌, map, All, done, ◌>>=◌,
  >>=-eq-done, done-injective, arith,
}
use x_pilot.Platform.{JsonLib, SocketLib}
use x_pilot.Effects.{opens, closes}
use x_pilot.Signals.{Signal, rounds_made}
use x_pilot.Signals.Exit.{IsQuiet, Ends, rounds_before_exit}
use x_pilot.Config.{Config}
use x_pilot.Tcp.{new_client, set_target, close, drop_client}
use x_pilot.Tcp.Descriptors.{run-IsBalanced}
use x_pilot.Comm.{Comm, start, clean_up}
use x_pilot.Comm.Rounds.{Round, main_loop}
use x_pilot.Comm.Refinement.{main_loop_refines}
use x_pilot.Comm.Epoll.{watches, unwatches, main_loop-KeepsEpoll}
use x_pilot.Comm.Main.{
  comm_signal_handler, Exit, by_loader, returned, destroyed, MainEnv, watched, after_epoll,
  comm_main,
}

module _ (fd : ℕ) where
  -- Each descriptor of the TCP connection, and that of epoll, is closed as often as it was opened.
  abbrev AreClosed : Comm → Type 0
  AreClosed c =
      (closes fd c.tcp.trace ≡ opens fd c.tcp.trace) × (unwatches fd c.polls ≡ watches fd c.polls)

  abbrev pub IsReleased : Exit → Type 0
  IsReleased by_loader = Unit
  IsReleased (returned code c) = AreClosed c

  started-IsReleased :
      (lib : JsonLib) (ip : String) (port : ℕ) (socket : Option ℕ) (ok : Bool)
      → AreClosed (destroyed (start ip port socket ok))
  unfolding destroyed start drop_client close set_target new_client
  started-IsReleased lib ip port socket ok = (refl, refl)

  ended-IsReleased :
      (lib : JsonLib) (sock : SocketLib) (ip : String) (port : ℕ) (socket : Option ℕ) (ok : Bool)
      (rs : List (Round lib sock)) (e : ℕ) (d : Comm)
      → main_loop lib sock (watched e (start ip port socket ok)) rs ≡ done d
      → AreClosed (destroyed (clean_up lib e d))
  unfolding destroyed clean_up drop_client close start
  ended-IsReleased lib sock ip port socket ok rs e d h =
      let (es, r) = main_loop_refines lib sock rs (watched e (start ip port socket ok)) d h in
      ground (
        arith,
        run-IsBalanced fd lib ip port es d.tcp r,
        main_loop-KeepsEpoll fd lib sock rs (watched e (start ip port socket ok)) d h,
      )

  after_epoll-IsReleased :
      (lib : JsonLib) (sock : SocketLib) (ip : String) (port : ℕ) (socket : Option ℕ) (ok : Bool)
      (b : Option ℕ) (rs : List (Round lib sock)) (x : Exit)
      → after_epoll lib sock b (start ip port socket ok) rs ≡ done x
      → IsReleased x
  unfolding after_epoll
  after_epoll-IsReleased lib sock ip port socket ok (some e) rs x h =
      let (d, loop, rest) =
        >>=-eq-done (main_loop lib sock (watched e (start ip port socket ok)) rs)
          (λ d. done (returned 0 (destroyed (clean_up lib e d)))) h in
      subst IsReleased (done-injective rest)
        (ended-IsReleased lib sock ip port socket ok rs e d loop)
  after_epoll-IsReleased lib sock ip port socket ok none rs x h =
      subst IsReleased (done-injective h) (started-IsReleased lib ip port socket ok)

  -- However the communication process ends without an exception, each descriptor that it got for the TCP
  -- connection or from epoll has been closed as often as it was got.
  pub comm_main-IsReleased :
      (lib : JsonLib) (sock : SocketLib) (cfg : Option Config) (env : MainEnv lib sock) (x : Exit)
      → comm_main lib sock cfg env ≡ done x
      → IsReleased x
  unfolding comm_main
  comm_main-IsReleased lib sock none env x h = subst IsReleased (done-injective h) tt
  comm_main-IsReleased lib sock (some cfg) env x h =
      after_epoll-IsReleased lib sock cfg.server_ip cfg.server_port env.socket env.connect_ok
        env.epoll (rounds_made comm_signal_handler false env.arrivals) x h

-- The loop makes every round before the first SIGINT or SIGTERM, whatever SIGPIPEs arrive, then cleans up
-- and returns 0, and looks at nothing that comes later: its end is that of the loop over those rounds.
pub comm_main_stops :
    (lib : JsonLib) (sock : SocketLib) (cfg : Config) (env : MainEnv lib sock)
    (before after : List (List Signal × Round lib sock)) (ss : List Signal) (r : Round lib sock)
    (e : ℕ)
    → env.epoll ≡ some e
    → env.arrivals ≡ before ++ (ss, r) ∷ after
    → All (λ q. IsQuiet q.0) before
    → Ends ss
    → comm_main lib sock (some cfg) env ≡ (
        main_loop lib sock
          (watched e (start cfg.server_ip cfg.server_port env.socket env.connect_ok))
          (map (λ q. q.1) before)
        >>= λ d. done (returned 0 (destroyed (clean_up lib e d))))
unfolding comm_main after_epoll comm_signal_handler
comm_main_stops lib sock cfg env before after ss r e ok arrive quiet ends =
    rw (ok, arrive, rounds_before_exit comm_signal_handler (λ b. refl) before ss r after quiet ends)
      refl
