-- ===== src/Manager/Restarts.antt =====
-- Which processes are started again.
use x_pilot.Base.{
  ℕ, suc, ◌-◌, ◌<◌, ◌≤◌, ◌≡◌, ◌≢◌, ◌⊎◌, refl, sym, Option, none, some, List, [], ◌∷◌, ◌++◌, String,
  All, arith,
}
use x_pilot.Manager.{
  ProcessInfo, Manager, start_process, take_child, MonitorEvent, all_alive, died, monitor_step,
  monitor, restart, restarted, collect,
}
use x_pilot.Manager.Ledger.{monitor-keeps, monitor_step-keeps}

-- No child has this name.
abbrev pub IsGone : String → Manager → Type 0
IsGone name m = All (λ p. p.name ≢ name) m.children

All-add :
    (name : String) (ps : List ProcessInfo) (p : ProcessInfo)
    → p.name ≢ name
    → All (λ q. q.name ≢ name) ps
    → All (λ q. q.name ≢ name) (ps ++ (p ∷ []))
All-add name [] p n h = (n, tt)
All-add name (q ∷ ps) p n (k, h) = (k, All-add name ps p n h)

All-others :
    (name : String) (pid : ℕ) (ps : List ProcessInfo)
    → All (λ q. q.name ≢ name) ps
    → All (λ q. q.name ≢ name) (take_child pid ps).1
unfolding take_child
All-others name pid [] h = tt
All-others name pid (p ∷ ps) (k, h) = ground (arith, All-others name pid ps h)

All-found :
    (name : String) (pid : ℕ) (ps : List ProcessInfo) (p : ProcessInfo)
    → All (λ q. q.name ≢ name) ps
    → (take_child pid ps).0 ≡ some p
    → p.name ≢ name
unfolding take_child
All-found name pid [] p h e = cc
All-found name pid (q ∷ ps) p (k, h) e = ground (arith, All-found name pid ps p h)

restart-IsGone :
    (name : String) (m : Manager) (p : ProcessInfo) (status now : ℕ) (fork : Option ℕ)
    → p.name ≢ name
    → IsGone name m
    → IsGone name (restart m p status now fork)
unfolding restart start_process
restart-IsGone name m p status now none n h = ground arith
restart-IsGone name m p status now (some pid) n h =
    ground (arith, All-add name m.children (record (restarted p now) { pid = pid }) n h)

monitor_step-IsGone :
    (name : String) (m : Manager) (e : MonitorEvent)
    → IsGone name m
    → IsGone name (monitor_step m e)
monitor_step-IsGone name =
    monitor_step-keeps (IsGone name) (λ m n h. h) (λ m pid. All-others name pid m.children)
      λ m pid p status now fork h e.
        restart-IsGone name (collect m pid) p status now fork (All-found name pid m.children p h e)
          (All-others name pid m.children h)

-- A program that is no longer among the children is never started again, whatever happens to the others.
pub monitor-IsGone :
    (name : String) (m : Manager) (es : List MonitorEvent)
    → IsGone name m
    → IsGone name (monitor m es)
monitor-IsGone name m es h = monitor-keeps (IsGone name) (monitor_step-IsGone name) es m h

-- A history in which the only child dies again and again: with this pid, this many restarts and this
-- time of the last one at its start, and the list of children at its end. Every `fork` succeeds.
pub data History : ℕ → ℕ → ℕ → List MonitorEvent → Option ℕ → Type 0 where
  over : (pid count last : ℕ) → History pid count last [] (some count)
  lives :
      {pid count last : ℕ} {es : List MonitorEvent} {o : Option ℕ}
      → History pid count last es o
      → History pid count last (all_alive ∷ es) o
  again :
      {pid count last : ℕ} {es : List MonitorEvent} {o : Option ℕ} (status now next : ℕ)
      → (10 ≤ now - last) ⊎ (count < 3)
      → History next (suc count) now es o
      → History pid count last (died pid status now (some next) ∷ es) o
  for_good :
      {pid count last : ℕ} (status now : ℕ) (next : Option ℕ) (es : List MonitorEvent)
      → now - last < 10
      → 3 ≤ count
      → History pid count last (died pid status now next ∷ es) none

-- The list of children at the end of a history: one child that was started again this often, or none.
abbrev pub Left : String → Option ℕ → Manager → Type 0
Left name none m = m.children ≡ []
Left name (some n) m =
    (p : ProcessInfo) × (m.children ≡ p ∷ []) × (p.name ≡ name) × (p.restart_count ≡ n)

alone-again :
    (m : Manager) (p : ProcessInfo) (status now next : ℕ)
    → m.children ≡ p ∷ []
    → (10 ≤ now - p.last_restart_time) ⊎ (p.restart_count < 3)
    → (monitor_step m (died p.pid status now (some next))).children
      ≡ record (restarted p now) { pid = next } ∷ []
unfolding monitor_step take_child restart start_process
alone-again m p status now next e l = ground arith

alone-for_good :
    (m : Manager) (p : ProcessInfo) (status now : ℕ) (next : Option ℕ)
    → m.children ≡ p ∷ []
    → now - p.last_restart_time < 10
    → 3 ≤ p.restart_count
    → (monitor_step m (died p.pid status now next)).children ≡ []
unfolding monitor_step take_child restart start_process
alone-for_good m p status now next e l k = ground arith

nobody_step : (m : Manager) (e : MonitorEvent) → m.children ≡ [] → (monitor_step m e).children ≡ []
unfolding monitor_step take_child
nobody_step m all_alive h = h
nobody_step m (died pid status now fork) h = ground arith

still :
    (m : Manager) (p : ProcessInfo)
    → m.children ≡ p ∷ []
    → (monitor_step m all_alive).children ≡ p ∷ []
unfolding monitor_step
still m p e = e

nobody : (es : List MonitorEvent) (m : Manager) → m.children ≡ [] → (monitor m es).children ≡ []
nobody es m h = monitor-keeps (λ m. m.children ≡ []) nobody_step es m h

History-runs :
    (name : String) (pid count last : ℕ) (es : List MonitorEvent) (o : Option ℕ) (m : Manager)
    (p : ProcessInfo)
    → m.children ≡ p ∷ []
    → p.name ≡ name
    → p.pid ≡ pid
    → p.restart_count ≡ count
    → p.last_restart_time ≡ last
    → History pid count last es o
    → Left name o (monitor m es)
unfolding monitor
History-runs name _ _ _ _ _ m p e n i c l (over pid count last) = (p, e, n, c)
History-runs name pid count last _ o m p e n i c l (lives h) =
    History-runs name pid count last _ o (monitor_step m all_alive) p (still m p e) n i c l h
History-runs name pid count last _ o m p e n i c l (again status now next d h) =
    let one = alone-again m p status now next e (rw (l, c) d) in
    History-runs name next (suc count) now _ o (monitor_step m (died pid status now (some next)))
      (record (restarted p now) { pid = next }) (rw (sym i) one) n refl (omega arith) refl h
History-runs name pid count last _ _ m p e n i c l (for_good status now next es d k) =
    nobody es (monitor_step m (died pid status now next))
      (rw (sym i) (alone-for_good m p status now next e (rw l d) (rw c k)))

-- An only child that dies again and again is started again while each life lasts ten seconds or it was
-- started again less than three times, and then has the number of its restarts counted; the first
-- shorter life after three restarts, however long ago these were, is the last, for all later events.
pub restart_policy :
    (m : Manager) (p : ProcessInfo) (es : List MonitorEvent) (o : Option ℕ)
    → m.children ≡ p ∷ []
    → History p.pid p.restart_count p.last_restart_time es o
    → Left p.name o (monitor m es)
restart_policy m p es o e h =
    History-runs p.name p.pid p.restart_count p.last_restart_time es o m p e refl refl refl refl h
