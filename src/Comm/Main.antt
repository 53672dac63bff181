-- ===== src/Comm/Main.antt =====
-- `main` of src/comm_main.cpp from its start to its end, the destructors of the two clients included.
use x_pilot.Base.{◌∷◌, ℕ, Bool, true, false, Option, none, some, List, Outcome, done, ◌>>=◌}
use x_pilot.Platform.{JsonLib, SocketLib}
use x_pilot.Signals.{Signal, rounds_made}
use x_pilot.Config.{Config}
use x_pilot.Tcp.{drop_client}
use x_pilot.Ipc.{drop_ipc_client}
use x_pilot.Comm.{Comm, start, clean_up, watching}
use x_pilot.Comm.Rounds.{Round, main_loop}

unfoldable pub comm_signal_handler : Bool → Bool
comm_signal_handler flag = true

-- How the process ends: by `std::exit` in the loader of the configuration, or with a value of `main`, and
-- what the two clients have done by then.
pub data Exit : Type 0 where
  by_loader : Exit
  returned : ℕ → Comm → Exit

-- The destructors, in their order.
unfoldable pub destroyed : Comm → Comm
destroyed c =
    let ipc = drop_ipc_client c.ipc in
    let tcp = drop_client c.tcp in record c { ipc = ipc; tcp = tcp }

-- What `connectToServer` and `epoll_create1` meet, and the rounds, each with the signals that arrive before
-- it.
pub record MainEnv (lib : JsonLib) (sock : SocketLib) : Type 0 where
  pub socket : Option ℕ
  pub connect_ok : Bool
  pub epoll : Option ℕ
  pub arrivals : List (List Signal × Round lib sock)

abbrev pub watched : ℕ → Comm → Comm
watched epoll_fd c = record c { polls = watching epoll_fd ∷ c.polls }

module _ (lib : JsonLib) (sock : SocketLib) where
  -- From `epoll_create1` on.
  unfoldable pub after_epoll : Option ℕ → Comm → List (Round lib sock) → Outcome Exit
  after_epoll (some epoll_fd) c rounds = main_loop lib sock (watched epoll_fd c) rounds >>= λ d.
      done (returned 0 (destroyed (clean_up lib epoll_fd d)))
  after_epoll none c rounds = done (returned 1 (destroyed c))

  unfoldable pub comm_main : Option Config → MainEnv lib sock → Outcome Exit
  unfolding comm_signal_handler
  comm_main none env = done by_loader
  comm_main (some cfg) env =
      after_epoll env.epoll (start cfg.server_ip cfg.server_port env.socket env.connect_ok)
        (rounds_made comm_signal_handler false env.arrivals)
