-- ===== src/Comm/Trace.antt =====
-- `main` of the communication process as a run of the abstract machine of its TCP connection.
use x_pilot.Base.{String, ℕ}
use x_pilot.Config.{Config}
use x_pilot.Tcp.Machine.{Link, Trace, seen_of, Shows}
use x_pilot.Comm.{Comm}
use x_pilot.Comm.Main.{Exit, by_loader, returned}

-- What was seen of the process is a trace of the machine, which ends in the state that the client is in.
abbrev pub IsTraced : String → ℕ → Exit → Type 0
IsTraced ip port by_loader = Unit
IsTraced ip port (returned code c) =
    (l : Link) × Trace ip port (seen_of c.tcp.trace) l × Shows c.tcp l
