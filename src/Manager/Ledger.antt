-- ===== src/Manager/Ledger.antt =====
-- The list of children against what the kernel was told.
use x_pilot.Base.{
  ℕ, ◌≡◌, inl, inr, Option-cases, refl, sym, ap, ◌∙◌, Option, none, some, List, [], ◌∷◌, ◌++◌, ◌==◌,
  if◌then◌else◌, arith,
}
use mathlib.Core.Path.{subst}
use x_pilot.Config.{Config}
use x_pilot.Manager.{
  ProcessInfo, Order, announced, forked, signalled, reaped, crashed, gave_up, slept, Manager,
  new_manager, start_process, Forks, start_all, take_child, MonitorEvent, all_alive, died,
  monitor_step, monitor, restart, restarted, collect,
}

-- The list without its first entry of this value.
abbrev pub without : ℕ → List ℕ → List ℕ
without x [] = []
without x (y ∷ ys) = if y == x then ys else y ∷ without x ys

-- The processes that were forked and not collected, the eldest first.
abbrev pub alive : List Order → List ℕ
alive [] = []
alive (announced pid ∷ t) = alive t
alive (forked pid path ∷ t) = alive t ++ (pid ∷ [])
alive (reaped pid ∷ t) = without pid (alive t)
alive (signalled s pid ∷ t) = alive t
alive (crashed n s ∷ t) = alive t
alive (gave_up n ∷ t) = alive t
alive (slept n ∷ t) = alive t

abbrev pub pids : List ProcessInfo → List ℕ
pids [] = []
pids (p ∷ ps) = p.pid ∷ pids ps

-- The manager knows exactly the processes that run as its children.
abbrev pub IsLedger : Manager → Type 0
IsLedger m = pids m.children ≡ alive m.orders

pids-append :
    (ps : List ProcessInfo) (p : ProcessInfo) → pids (ps ++ (p ∷ [])) ≡ pids ps ++ (p.pid ∷ [])
pids-append [] p = refl
pids-append (q ∷ ps) p = ap (◌∷◌ q.pid) (pids-append ps p)

pub pids-take_child :
    (pid : ℕ) (ps : List ProcessInfo) → pids (take_child pid ps).1 ≡ without pid (pids ps)
unfolding take_child
pids-take_child pid [] = refl
pids-take_child pid (p ∷ ps) = ground (arith, pids-take_child pid ps)

start_process-IsLedger :
    (m : Manager) (p : ProcessInfo) (fork : Option ℕ)
    → IsLedger m
    → IsLedger (start_process m p fork)
unfolding start_process
start_process-IsLedger m p none h = h
start_process-IsLedger m p (some pid) h =
    pids-append m.children (record p { pid = pid }) ∙ ap (λ l. l ++ (pid ∷ [])) h

start_all-IsLedger :
    (pid : ℕ) (cfg : Config) (forks : Forks) → IsLedger (start_all (new_manager pid) cfg forks)
unfolding start_all start_process new_manager
start_all-IsLedger pid cfg forks = ground arith

pub collect-IsLedger : (m : Manager) (pid : ℕ) → IsLedger m → IsLedger (collect m pid)
collect-IsLedger m pid h = pids-take_child pid m.children ∙ ap (without pid) h

restart-IsLedger :
    (m : Manager) (p : ProcessInfo) (status now : ℕ) (fork : Option ℕ)
    → IsLedger m
    → IsLedger (restart m p status now fork)
unfolding restart
restart-IsLedger m p status now fork h =
    let noted : Manager = record m { orders = slept 3 ∷ crashed p.name status ∷ m.orders } in
    ground (arith, start_process-IsLedger noted (restarted p now) fork h)

pub monitor-keeps :
    (P : Manager → Type 0)
    → ((m : Manager) (e : MonitorEvent) → P m → P (monitor_step m e))
    → (es : List MonitorEvent) (m : Manager) → P m
    → P (monitor m es)
unfolding monitor
monitor-keeps P step [] m p = p
monitor-keeps P step (e ∷ es) m p = monitor-keeps P step es (monitor_step m e) (step m e p)

died-unknown :
    (m : Manager) (pid status now : ℕ) (fork : Option ℕ)
    → (take_child pid m.children).0 ≡ none
    → monitor_step m (died pid status now fork)
      ≡ record (collect m pid) { orders = slept 1 ∷ (collect m pid).orders }
unfolding monitor_step
died-unknown m pid status now fork e = ground arith

pub died-known :
    (m : Manager) (pid status now : ℕ) (fork : Option ℕ) (p : ProcessInfo)
    → (take_child pid m.children).0 ≡ some p
    → monitor_step m (died pid status now fork)
      ≡ record (restart (collect m pid) p status now fork) {
        orders = slept 1 ∷ (restart (collect m pid) p status now fork).orders;
      }
unfolding monitor_step
died-known m pid status now fork p e = ground arith

-- What collecting and restarting keep, and what does not depend on the pauses, every round keeps.
pub monitor_step-keeps :
    (P : Manager → Type 0)
    → ((m : Manager) (n : ℕ) → P m → P (record m { orders = slept n ∷ m.orders }))
    → ((m : Manager) (pid : ℕ) → P m → P (collect m pid))
    → ((m : Manager) (pid : ℕ) (p : ProcessInfo) (status now : ℕ) (fork : Option ℕ)
        → P m
        → (take_child pid m.children).0 ≡ some p
        → P (restart (collect m pid) p status now fork))
    → (m : Manager) (e : MonitorEvent) → P m
    → P (monitor_step m e)
unfolding monitor_step
monitor_step-keeps P pause drop again m all_alive h = pause m 1 h
monitor_step-keeps P pause drop again m (died pid status now fork) h =
    elim (Option-cases (take_child pid m.children).0) [
      | inl e ↦
          subst P (sym (died-unknown m pid status now fork e))
            (pause (collect m pid) 1 (drop m pid h))
      | inr (p, e) ↦
          subst P (sym (died-known m pid status now fork p e)) (
            pause (restart (collect m pid) p status now fork) 1 (again m pid p status now fork h e))
    ]

monitor_step-IsLedger : (m : Manager) (e : MonitorEvent) → IsLedger m → IsLedger (monitor_step m e)
monitor_step-IsLedger =
    monitor_step-keeps IsLedger (λ m n h. h) collect-IsLedger
      λ m pid p status now fork h e.
        restart-IsLedger (collect m pid) p status now fork (collect-IsLedger m pid h)

-- Whatever dies, whatever `fork` answers: the list of children holds exactly the processes that were
-- forked and not collected, in the order of their start.
pub monitor-IsLedger :
    (pid : ℕ) (cfg : Config) (forks : Forks) (events : List MonitorEvent)
    → IsLedger (monitor (start_all (new_manager pid) cfg forks) events)
monitor-IsLedger pid cfg forks events =
    monitor-keeps IsLedger monitor_step-IsLedger events (start_all (new_manager pid) cfg forks)
      (start_all-IsLedger pid cfg forks)
