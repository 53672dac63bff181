-- ===== src/Manager/Shutdown.antt =====
-- The end of the manager and of its children.
use x_pilot.Base.{ℕ, ◌≡◌, refl, sym, ◌∙◌, Option, none, some, List, [], ◌∷◌}
use x_pilot.Manager.{
  ProcessInfo, Signal, sigterm, sigkill, Order, signalled, reaped, Manager, collect, signal_all,
  WaitRound, late, exited, none_yet, no_children, wait_all, collect_killed, shut_down,
}
use x_pilot.Manager.Ledger.{pids, alive, IsLedger, collect-IsLedger}

-- The value is on the list.
pub data Has {ℓ} {A : Type ℓ} (x : A) : List A → Type ℓ where
  here : (xs : List A) → Has x (x ∷ xs)
  there : (y : A) {xs : List A} → Has x xs → Has x (y ∷ xs)

pub signal_all-Has :
    (s : Signal) (ps : List ProcessInfo) (t : List Order) (o : Order)
    → Has o t
    → Has o (signal_all s ps t)
unfolding signal_all
signal_all-Has s [] t o h = h
signal_all-Has s (p ∷ ps) t o h =
    signal_all-Has s ps (signalled s p.pid ∷ t) o (there (signalled s p.pid) h)

pub signal_all-tells :
    (s : Signal) (x : ℕ) (ps : List ProcessInfo) (t : List Order)
    → Has x (pids ps)
    → Has (signalled s x) (signal_all s ps t)
unfolding signal_all
signal_all-tells s x [] t h = elim h [ ]
signal_all-tells s _ (p ∷ ps) t (here _) =
    signal_all-Has s ps (signalled s p.pid ∷ t) (signalled s p.pid) (here t)
signal_all-tells s x (p ∷ ps) t (there _ h) = signal_all-tells s x ps (signalled s p.pid ∷ t) h

pub collect_killed-Has :
    (l : List (Option ℕ)) (t : List Order) (o : Order) → Has o t → Has o (collect_killed l t)
unfolding collect_killed
collect_killed-Has [] t o h = h
collect_killed-Has (none ∷ l) t o h = h
collect_killed-Has (some pid ∷ l) t o h =
    collect_killed-Has l (reaped pid ∷ t) o (there (reaped pid) h)

either :
    (P : Manager → Type 0) (ps : List ProcessInfo) {m m' : Manager}
    → P m
    → P m'
    → P (elim ps [ [] ↦ m | p ∷ qs ↦ m' ])
either P [] h h' = h
either P (p ∷ ps) h h' = h'

-- What every collection keeps, the whole wait keeps.
pub wait_all-keeps :
    (P : Manager → Type 0)
    → ((m : Manager) (pid : ℕ) → P m → P (collect m pid))
    → (rs : List WaitRound) (m : Manager) → P m
    → P (wait_all m rs)
unfolding wait_all
wait_all-keeps P keep [] m h = h
wait_all-keeps P keep (late ∷ rs) m h = h
wait_all-keeps P keep (no_children ∷ rs) m h = h
wait_all-keeps P keep (none_yet ∷ rs) m h = either P m.children h (wait_all-keeps P keep rs m h)
wait_all-keeps P keep (exited pid ∷ rs) m h =
    either P m.children h (wait_all-keeps P keep rs (collect m pid) (keep m pid h))

pub alive-signal_all :
    (s : Signal) (ps : List ProcessInfo) (t : List Order) → alive (signal_all s ps t) ≡ alive t
unfolding signal_all
alive-signal_all s [] t = refl
alive-signal_all s (p ∷ ps) t = alive-signal_all s ps (signalled s p.pid ∷ t)

pub waited-IsLedger :
    (m : Manager) (rounds : List WaitRound)
    → IsLedger m
    → IsLedger (wait_all (record m { orders = signal_all sigterm m.children m.orders }) rounds)
waited-IsLedger m rounds h =
    wait_all-keeps IsLedger collect-IsLedger rounds
      (record m { orders = signal_all sigterm m.children m.orders })
      (h ∙ sym (alive-signal_all sigterm m.children m.orders))

-- The last loop does not wait: where the list of children was right and `waitpid` has nothing at the first
-- call of that loop, every child that had to be killed is left uncollected when the manager returns.
pub killed_are_left :
    (m : Manager) (rounds : List WaitRound) (last : List (Option ℕ))
    → IsLedger m
    → alive (shut_down m rounds (none ∷ last)).orders
      ≡ pids (shut_down m rounds (none ∷ last)).children
unfolding shut_down collect_killed
killed_are_left m rounds last h =
    let waited = wait_all (record m { orders = signal_all sigterm m.children m.orders }) rounds in
    alive-signal_all sigkill waited.children waited.orders ∙ sym (waited-IsLedger m rounds h)
