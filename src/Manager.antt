-- ===== src/Manager.antt =====
-- src/manager_main.cpp: the parent of the other processes. It starts them, starts one that died again,
-- and ends them all. What `fork`, `waitpid` and the clocks answer are arguments; `none` is their
-- failure. The forked child, which replaces itself by `execlp`, is another process and not part of
-- this state. Time is in seconds and does not run backwards. LOG_* and std::cout lines are left out.
pub mod Ledger
pub mod Restarts
pub mod Others
pub mod Policy
pub mod Shutdown
pub mod Run
mod Examples
use text.Mathlib.Text.{◌==◌ as str_eq}
use x_pilot.Signals
use x_pilot.Config.{Config}
use x_pilot.Base.{
  not, ℕ, ◌+◌, ◌-◌, Bool, true, false, ◌&&◌, Option, none, some, List, [], ◌∷◌, ◌++◌, String, ltb,
  leb, ◌==◌, if◌then◌else◌,
}

pub record ProcessInfo : Type 0 where
  pub pid : ℕ
  pub name : String
  pub path : String
  pub restart_count : ℕ
  pub last_restart_time : ℕ

pub data Signal : Type 0 where
  sigterm sigkill : Signal

-- What the manager does, as data: its own start recorded in metrics.log; a process forked, with its path; a signal sent; a dead process
-- collected by `waitpid`; a crash recorded in metrics.log, with its exit status; seconds slept.
pub data Order : Type 0 where
  announced : ℕ → Order
  forked : ℕ → String → Order
  signalled : Signal → ℕ → Order
  reaped : ℕ → Order
  crashed : String → ℕ → Order
  gave_up : String → Order
  slept : ℕ → Order

-- `orders` is newest first.
pub record Manager : Type 0 where
  pub children : List ProcessInfo
  pub orders : List Order

-- The start of `main`, with the answer of `getpid`.
unfoldable pub new_manager : ℕ → Manager
new_manager pid = record { children = []; orders = announced pid ∷ [] }

-- `start_process`, with the answer of `fork`.
unfoldable pub start_process : Manager → ProcessInfo → Option ℕ → Manager
start_process m info none = m
start_process m info (some pid) = record {
  children = m.children ++ (record info { pid = pid } ∷ []);
  orders = forked pid info.path ∷ m.orders;
}

abbrev pub new_process : String → String → ProcessInfo
new_process name path = record {
  pid = 0;
  name = name;
  path = path;
  restart_count = 0;
  last_restart_time = 0;
}

-- The answers of the three calls of `fork`.
pub record Forks : Type 0 where
  pub control : Option ℕ
  pub comm : Option ℕ
  pub view : Option ℕ

paused : Manager → ℕ → Manager
paused m n = record m { orders = slept n ∷ m.orders }

unfoldable pub start_all : Manager → Config → Forks → Manager
unfolding start_process paused
start_all m cfg forks =
    let one =
      start_process m (new_process "control_process" cfg.control_process_path) forks.control in
    let two =
      start_process (paused one 2) (new_process "comm_process" cfg.comm_process_path) forks.comm in
    if not (str_eq cfg.view_process_path "")
    then start_process two (new_process "view_process" cfg.view_process_path) forks.view
    else two

-- The first entry with this pid, and the list without it.
unfoldable pub take_child : ℕ → List ProcessInfo → Option ProcessInfo × List ProcessInfo
take_child pid [] = (none, [])
take_child pid (p ∷ ps) =
    let rest = take_child pid ps in if p.pid == pid then (some p, ps) else (rest.0, p ∷ rest.1)

-- What one round of the monitoring loop finds: nothing, or a dead process with its exit status, the
-- time, and what `fork` will answer.
pub data MonitorEvent : Type 0 where
  all_alive : MonitorEvent
  died : ℕ → ℕ → ℕ → Option ℕ → MonitorEvent

abbrev pub restarted : ProcessInfo → ℕ → ProcessInfo
restarted p now = record p { restart_count = p.restart_count + 1; last_restart_time = now }

unfoldable pub restart : Manager → ProcessInfo → ℕ → ℕ → Option ℕ → Manager
unfolding start_process paused
restart m p status now fork =
    let noted = record m { orders = crashed p.name status ∷ m.orders } in
    if ltb (now - p.last_restart_time) 10 && leb 3 p.restart_count
    then record noted { orders = gave_up p.name ∷ noted.orders }
    else start_process (paused noted 3) (restarted p now) fork

-- A dead process is off the list.
abbrev pub collect : Manager → ℕ → Manager
collect m pid = record { children = (take_child pid m.children).1; orders = reaped pid ∷ m.orders }

unfoldable pub monitor_step : Manager → MonitorEvent → Manager
unfolding take_child restart paused
monitor_step m all_alive = paused m 1
monitor_step m (died pid status now fork) =
    let dead = (take_child pid m.children).0 in
    let found = collect m pid in
    elim dead [ none ↦ paused found 1 | some p ↦ paused (restart found p status now fork) 1 ]

-- The monitoring loop until `g_should_exit` is set.
unfoldable pub monitor : Manager → List MonitorEvent → Manager
monitor m [] = m
monitor m (e ∷ es) = monitor (monitor_step m e) es

-- `kill` on every child, in order.
unfoldable pub signal_all : Signal → List ProcessInfo → List Order → List Order
signal_all s [] t = t
signal_all s (p ∷ ps) t = signal_all s ps (signalled s p.pid ∷ t)

-- A round of the wait for the children's end: the deadline is over, or what `waitpid` answers.
pub data WaitRound : Type 0 where
  late : WaitRound
  exited : ℕ → WaitRound
  none_yet : WaitRound
  no_children : WaitRound

-- The wait, which ends at the latest when the rounds do.
unfoldable pub wait_all : Manager → List WaitRound → Manager
wait_all m [] = m
wait_all m (late ∷ rs) = m
wait_all m (no_children ∷ rs) = m
wait_all m (none_yet ∷ rs) = elim m.children [ [] ↦ m | p ∷ ps ↦ wait_all m rs ]
wait_all m (exited pid ∷ rs) = elim m.children [ [] ↦ m | p ∷ ps ↦ wait_all (collect m pid) rs ]

-- The last loop: it collects until `waitpid` has nothing at once.
unfoldable pub collect_killed : List (Option ℕ) → List Order → List Order
collect_killed [] t = t
collect_killed (none ∷ rs) t = t
collect_killed (some pid ∷ rs) t = collect_killed rs (reaped pid ∷ t)

unfoldable pub shut_down : Manager → List WaitRound → List (Option ℕ) → Manager
unfolding signal_all wait_all collect_killed
shut_down m rounds last =
    let waited = wait_all (record m { orders = signal_all sigterm m.children m.orders }) rounds in
    record waited {
      orders = collect_killed last (signal_all sigkill waited.children waited.orders);
    }

unfoldable pub signal_handler : Bool → Bool
signal_handler flag = true

-- `main`: the number of the process, its configuration, the answers of `fork`, what the rounds of monitoring
-- meet with the signals that arrive before each, the rounds of the wait, and the answers of the last
-- `waitpid` calls. `none` is the end by the loader of the configuration.
unfoldable pub run_manager :
    ℕ
    → Option Config
    → Forks
    → List (List Signals.Signal × MonitorEvent)
    → List WaitRound
    → List (Option ℕ)
    → Option Manager
unfolding new_manager start_all monitor shut_down signal_handler
run_manager pid none forks arrivals rounds last = none
run_manager pid (some cfg) forks arrivals rounds last =
    let started = start_all (new_manager pid) cfg forks in
    some
      (shut_down (monitor started (Signals.rounds_made signal_handler false arrivals)) rounds last)
