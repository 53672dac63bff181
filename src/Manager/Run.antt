-- ===== src/Manager/Run.antt =====
-- `main` of the manager from its start to its end.
use mathlib.Core.Path.{subst}
use x_pilot.Base.{
  ℕ, ◌≡◌, inl, inr, sym, Bool, false, Bool-cases, Option, none, some, List, [], ◌∷◌, ◌==◌,
  if◌then◌else◌,
}
use x_pilot.Signals
use x_pilot.Config.{Config}
use x_pilot.Manager.{
  ProcessInfo, sigterm, sigkill, Order, signalled, reaped, Manager, new_manager, Forks, start_all,
  collect, MonitorEvent, monitor, signal_all, WaitRound, wait_all, collect_killed, shut_down,
  signal_handler, run_manager,
}
use x_pilot.Manager.Ledger.{pids, alive, without, IsLedger, pids-take_child, monitor-IsLedger}
use x_pilot.Manager.Shutdown.{
  Has, here, there, signal_all-tells, wait_all-keeps, alive-signal_all, waited-IsLedger,
}

-- The process got SIGTERM, and SIGKILL after it.
pub data IsKilled (x : ℕ) : List Order → Type 0 where
  last_killed :
      {t : List Order} → Has (signalled sigterm x) t → IsKilled x (signalled sigkill x ∷ t)
  before : (o : Order) {t : List Order} → IsKilled x t → IsKilled x (o ∷ t)

-- Every child on the list was told to end.
abbrev AreTold : Manager → Type 0
AreTold m = (x : ℕ) → Has x (pids m.children) → Has (signalled sigterm x) m.orders

one_more : (x z : ℕ) (zs l : List ℕ) → (Has x l → Has x zs) → Has x (z ∷ l) → Has x (z ∷ zs)
one_more x _ zs l f (here _) = here zs
one_more x z zs l f (there _ k) = there z (f k)

in_without : (x y : ℕ) (l : List ℕ) → Has x (without y l) → Has x l
in_without x y [] h = h
in_without x y (z ∷ zs) h =
    let back = in_without x y zs in
    elim (Bool-cases (z == y)) [
      | inl e ↦ there z (subst (λ (b : Bool). Has x (if b then zs else z ∷ without y zs)) e h)
      | inr e ↦
          one_more x z zs (without y zs) back
            (subst (λ (b : Bool). Has x (if b then zs else z ∷ without y zs)) e h)
    ]

collect-AreTold : (m : Manager) (pid : ℕ) → AreTold m → AreTold (collect m pid)
collect-AreTold m pid h x k =
    there (reaped pid)
      (h x (in_without x pid (pids m.children) (subst (Has x) (pids-take_child pid m.children) k)))

signal_all-IsKilled :
    (x : ℕ) (ps : List ProcessInfo) (t : List Order)
    → Has x (pids ps)
    → Has (signalled sigterm x) t
    → IsKilled x (signal_all sigkill ps t)
unfolding signal_all
signal_all-IsKilled x [] t h told = elim h [ ]
signal_all-IsKilled x (p ∷ ps) t (there _ h) told =
    signal_all-IsKilled x ps (signalled sigkill p.pid ∷ t) h (there (signalled sigkill p.pid) told)
signal_all-IsKilled _ (p ∷ ps) t (here _) told = stays ps _ (last_killed told)
  where
    stays :
        (qs : List ProcessInfo) (u : List Order)
        → IsKilled p.pid u
        → IsKilled p.pid (signal_all sigkill qs u)
    stays [] u k = k
    stays (q ∷ qs) u k = stays qs (signalled sigkill q.pid ∷ u) (before (signalled sigkill q.pid) k)

collect_killed-IsKilled :
    (x : ℕ) (l : List (Option ℕ)) (t : List Order) → IsKilled x t → IsKilled x (collect_killed l t)
unfolding collect_killed
collect_killed-IsKilled x [] t k = k
collect_killed-IsKilled x (none ∷ l) t k = k
collect_killed-IsKilled x (some pid ∷ l) t k =
    collect_killed-IsKilled x l (reaped pid ∷ t) (before (reaped pid) k)

alive-collect_killed :
    (x : ℕ) (l : List (Option ℕ)) (t : List Order)
    → Has x (alive (collect_killed l t))
    → Has x (alive t)
unfolding collect_killed
alive-collect_killed x [] t h = h
alive-collect_killed x (none ∷ l) t h = h
alive-collect_killed x (some pid ∷ l) t h =
    in_without x pid (alive t) (alive-collect_killed x l (reaped pid ∷ t) h)

shut_down-IsKilled :
    (m : Manager) (rounds : List WaitRound) (last : List (Option ℕ)) (x : ℕ)
    → IsLedger m
    → Has x (alive (shut_down m rounds last).orders)
    → IsKilled x (shut_down m rounds last).orders
unfolding shut_down
shut_down-IsKilled m rounds last x known h =
    let told : Manager = record m { orders = signal_all sigterm m.children m.orders } in
    let waited = wait_all told rounds in
    let asked = signal_all sigkill waited.children waited.orders in
    let left : Has x (pids waited.children) = subst (Has x) (sym (waited-IsLedger m rounds known)) (
      subst (Has x) (alive-signal_all sigkill waited.children waited.orders)
        (alive-collect_killed x last asked h)) in
    let ended : AreTold waited =
      wait_all-keeps AreTold collect-AreTold rounds told
        (λ y k. signal_all-tells sigterm y m.children m.orders k) in
    collect_killed-IsKilled x last asked
      (signal_all-IsKilled x waited.children waited.orders left (ended x left))

-- Whatever dies, whatever `fork` and `waitpid` answer and whatever signals come: a process that the manager
-- has forked and not collected when it returns was told to end by SIGTERM, and then by SIGKILL.
pub run_manager_ends_all :
    (pid : ℕ) (cfg : Option Config) (forks : Forks)
    (arrivals : List (List Signals.Signal × MonitorEvent)) (rounds : List WaitRound)
    (last : List (Option ℕ)) (m : Manager) (x : ℕ)
    → run_manager pid cfg forks arrivals rounds last ≡ some m
    → Has x (alive m.orders)
    → IsKilled x m.orders
unfolding run_manager
run_manager_ends_all pid none forks arrivals rounds last m x e h = cc
run_manager_ends_all pid (some cfg) forks arrivals rounds last m x e h =
    let run = Signals.rounds_made signal_handler false arrivals in
    let watched = monitor (start_all (new_manager pid) cfg forks) run in
    let same : shut_down watched rounds last ≡ m = cc in
    subst (λ (n : Manager). IsKilled x n.orders) same
      (shut_down-IsKilled watched rounds last x (monitor-IsLedger pid cfg forks run)
        (subst (λ (n : Manager). Has x (alive n.orders)) (sym same) h))
