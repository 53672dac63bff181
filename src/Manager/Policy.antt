-- ===== src/Manager/Policy.antt =====
-- What becomes of one child among others.
use x_pilot.Base.{
  ℕ, ◌+◌, ◌-◌, ◌<◌, ◌≤◌, ◌≡◌, ◌≢◌, ◌⊎◌, refl, sym, Option, none, some, List, [], ◌∷◌, ◌++◌, All,
  arith,
}
use x_pilot.Manager.{
  ProcessInfo, Manager, start_process, take_child, MonitorEvent, died, monitor_step, monitor,
  restart, restarted,
}
use x_pilot.Manager.Restarts.{IsGone, monitor-IsGone}
use x_pilot.Manager.Others.{Differs, Among, here, there, IsElsewhere, own_found, elsewhere-Among}

-- The life of a child on a list that the manager `m` has, from its number, the number of its restarts and the
-- time of the last one: what happens to it and to the others, and how often it was started again at the
-- end, or that it is gone. A new process has a number that no child has.
pub data Life : Manager → ℕ → ℕ → ℕ → List MonitorEvent → Option ℕ → Type 0 where
  over : (m : Manager) (pid count last : ℕ) → Life m pid count last [] (some count)
  elsewhere :
      {m : Manager} {pid count last : ℕ} {e : MonitorEvent} {es : List MonitorEvent} {o : Option ℕ}
      → IsElsewhere pid e
      → Life (monitor_step m e) pid count last es o
      → Life m pid count last (e ∷ es) o
  again :
      {m : Manager} {pid count last : ℕ} {es : List MonitorEvent} {o : Option ℕ}
      (status now next : ℕ)
      → (10 ≤ now - last) ⊎ (count < 3)
      → All (λ q. q.pid ≢ next) (take_child pid m.children).1
      → Life (monitor_step m (died pid status now (some next))) next (count + 1) now es o
      → Life m pid count last (died pid status now (some next) ∷ es) o
  not_forked :
      {m : Manager} {pid count last : ℕ} (status now : ℕ) (es : List MonitorEvent)
      → (10 ≤ now - last) ⊎ (count < 3)
      → Life m pid count last (died pid status now none ∷ es) none
  for_good :
      {m : Manager} {pid count last : ℕ} (status now : ℕ) (next : Option ℕ) (es : List MonitorEvent)
      → now - last < 10
      → 3 ≤ count
      → Life m pid count last (died pid status now next ∷ es) none

-- At the end the child is there, with its name and its program, and was started again this often; or no
-- child has its name.
abbrev pub Remains : ProcessInfo → Option ℕ → Manager → Type 0
Remains p none m = IsGone p.name m
Remains p (some n) m =
    (q : ProcessInfo) × Among q m.children
    × (q.name ≡ p.name)
    × (q.path ≡ p.path)
    × (q.restart_count ≡ n)

again_children :
    (m : Manager) (p : ProcessInfo) (status now next : ℕ)
    → Among p m.children
    → (10 ≤ now - p.last_restart_time) ⊎ (p.restart_count < 3)
    → (monitor_step m (died p.pid status now (some next))).children
      ≡ (take_child p.pid m.children).1 ++ (record (restarted p now) { pid = next } ∷ [])
unfolding monitor_step restart start_process
again_children m p status now next a l = let o = own_found p m.children a in ground arith

for_good_children :
    (m : Manager) (p : ProcessInfo) (status now : ℕ) (next : Option ℕ)
    → Among p m.children
    → now - p.last_restart_time < 10
    → 3 ≤ p.restart_count
    → (monitor_step m (died p.pid status now next)).children ≡ (take_child p.pid m.children).1
unfolding monitor_step restart
for_good_children m p status now next a l k = let o = own_found p m.children a in ground arith

not_forked_children :
    (m : Manager) (p : ProcessInfo) (status now : ℕ)
    → Among p m.children
    → (10 ≤ now - p.last_restart_time) ⊎ (p.restart_count < 3)
    → (monitor_step m (died p.pid status now none)).children ≡ (take_child p.pid m.children).1
unfolding monitor_step restart start_process
not_forked_children m p status now a l = let o = own_found p m.children a in ground arith

last-Among :
    (p : ProcessInfo) (ps : List ProcessInfo) → All (Differs p) ps → Among p (ps ++ (p ∷ []))
last-Among p [] h = here tt
last-Among p (q ∷ ps) (h, hs) = there h (last-Among p ps hs)

renewed-Differs :
    (p : ProcessInfo) (now next : ℕ) (ps : List ProcessInfo)
    → All (Differs p) ps
    → All (λ q. q.pid ≢ next) ps
    → All (Differs (record (restarted p now) { pid = next })) ps
renewed-Differs p now next [] h n = tt
renewed-Differs p now next (q ∷ ps) (h, hs) (n, ns) =
    ((n, h.1), renewed-Differs p now next ps hs ns)

names_differ :
    (p : ProcessInfo) (ps : List ProcessInfo) → All (Differs p) ps → All (λ q. q.name ≢ p.name) ps
names_differ p [] h = tt
names_differ p (q ∷ ps) (h, hs) = (h.1, names_differ p ps hs)

taken-IsGone :
    (m m' : Manager) (p : ProcessInfo) (es : List MonitorEvent)
    → Among p m.children
    → m'.children ≡ (take_child p.pid m.children).1
    → IsGone p.name (monitor m' es)
taken-IsGone m m' p es a e =
    let gone : IsGone p.name m' =
      rw e (names_differ p (take_child p.pid m.children).1 (own_found p m.children a).1) in
    monitor-IsGone p.name m' es gone

Life-Remains :
    (m : Manager) (p : ProcessInfo) (pid count last : ℕ) (es : List MonitorEvent) (o : Option ℕ)
    → p.pid ≡ pid
    → p.restart_count ≡ count
    → p.last_restart_time ≡ last
    → Among p m.children
    → Life m pid count last es o
    → Remains p o (monitor m es)
unfolding monitor
Life-Remains m p _ _ _ _ _ i c l a (over _ _ _ _) = (p, a, refl, refl, c)
Life-Remains m p pid count last _ o i c l a (elsewhere {e} {es} x w) =
    Life-Remains (monitor_step m e) p pid count last es o i c l (elsewhere-Among p m e (rw i x) a) w
Life-Remains m p pid count last _ o i c l a (again {es} status now next d fresh w) =
    let p' : ProcessInfo = record (restarted p now) { pid = next } in
    let rest = (take_child p.pid m.children).1 in
    let others = renewed-Differs p now next rest (own_found p m.children a).1 (rw i fresh) in
    let born : (monitor_step m (died pid status now (some next))).children ≡ rest ++ (p' ∷ []) =
      rw (sym i) (again_children m p status now next a (rw (l, c) d)) in
    let a' : Among p' (monitor_step m (died pid status now (some next))).children =
      rw born (last-Among p' rest others) in
    Life-Remains (monitor_step m (died pid status now (some next))) p' next (count + 1) now es o
      refl (omega arith) refl a' w
Life-Remains m p pid count last _ _ i c l a (not_forked status now es d) =
    taken-IsGone m (monitor_step m (died pid status now none)) p es a
      (rw (sym i) (not_forked_children m p status now a (rw (l, c) d)))
Life-Remains m p pid count last _ _ i c l a (for_good status now next es d k) =
    taken-IsGone m (monitor_step m (died pid status now next)) p es a
      (rw (sym i) (for_good_children m p status now next a (rw l d) (rw c k)))

-- A child among others, whose number and name are its own, is started again whenever it dies after a life
-- of ten seconds or was started again less than three times, and `fork` succeeds. It then has its program, the
-- number of its restarts counted and the time of the last one noted, by which its next life is measured, whatever
-- happens to the others in between. The first shorter life after three restarts, however long ago these were, is its
-- last, and so is one after which `fork` fails: no process of its name is started for all later events.
pub restart_policy_each :
    (m : Manager) (p : ProcessInfo) (es : List MonitorEvent) (o : Option ℕ)
    → Among p m.children
    → Life m p.pid p.restart_count p.last_restart_time es o
    → Remains p o (monitor m es)
restart_policy_each m p es o a w =
    Life-Remains m p p.pid p.restart_count p.last_restart_time es o refl refl refl a w
