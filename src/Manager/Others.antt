-- ===== src/Manager/Others.antt =====
-- A child among the others on the list of the manager, and events that are not about it.
use x_pilot.Base.{
  ℕ, ◌≡◌, ◌≢◌, inl, inr, sym, ap, Option, Option-cases, none, some, List, [], ◌∷◌, ◌++◌, All, arith,
}
use native.Mathlib.Decide.{ℕ_discrete}
use x_pilot.Manager.{
  ProcessInfo, Manager, start_process, take_child, MonitorEvent, all_alive, died, monitor_step,
  restart, restarted, collect,
}

-- Another process and another program.
abbrev pub Differs : ProcessInfo → ProcessInfo → Type 0
Differs p q = (q.pid ≢ p.pid) × (q.name ≢ p.name)

-- The child is on the list, and no other has its number or its name.
pub data Among (p : ProcessInfo) : List ProcessInfo → Type 0 where
  here : {ps : List ProcessInfo} → All (Differs p) ps → Among p (p ∷ ps)
  there : {q : ProcessInfo} {ps : List ProcessInfo} → Differs p q → Among p ps → Among p (q ∷ ps)

-- Nothing happens to the child with this number: it is still there, or another process dies, for which `fork` gives a
-- number of its own.
pub data IsElsewhere (pid : ℕ) : MonitorEvent → Type 0 where
  still_alive : IsElsewhere pid all_alive
  other :
      {x status now : ℕ} {fork : Option ℕ}
      → x ≢ pid
      → fork ≢ some pid
      → IsElsewhere pid (died x status now fork)

module _ (p : ProcessInfo) where
  All-append :
      (ps : List ProcessInfo) (q : ProcessInfo)
      → All (Differs p) ps
      → Differs p q
      → All (Differs p) (ps ++ (q ∷ []))
  All-append [] q h d = (d, tt)
  All-append (x ∷ ps) q (h, hs) d = (h, All-append ps q hs d)

  Among-append :
      (ps : List ProcessInfo) (q : ProcessInfo)
      → Among p ps
      → Differs p q
      → Among p (ps ++ (q ∷ []))
  Among-append _ q (here {ps} h) d = here (All-append ps q h d)
  Among-append _ q (there {ps = ps} e a) d = there e (Among-append ps q a d)

  All-without :
      (x : ℕ) (ps : List ProcessInfo) → All (Differs p) ps → All (Differs p) (take_child x ps).1
  unfolding take_child
  All-without x [] h = tt
  All-without x (q ∷ ps) (h, hs) = ground (arith, All-without x ps hs)

  -- The first entry of a list has the number, or not.
  head-Among :
      (x : ℕ) (q : ProcessInfo) (ps : List ProcessInfo)
      → q.pid ≢ x
      → Among p (q ∷ (take_child x ps).1)
      → Among p (take_child x (q ∷ ps)).1
  unfolding take_child
  head-Among x q ps n a =
      let e : (take_child x (q ∷ ps)).1 ≡ q ∷ (take_child x ps).1 = ground arith in rw e a

  gone-Among :
      (x : ℕ) (q : ProcessInfo) (ps : List ProcessInfo)
      → q.pid ≡ x
      → Among p ps
      → Among p (take_child x (q ∷ ps)).1
  unfolding take_child
  gone-Among x q ps n a = let e : (take_child x (q ∷ ps)).1 ≡ ps = ground arith in rw e a

  Among-without :
      (x : ℕ) (ps : List ProcessInfo) → x ≢ p.pid → Among p ps → Among p (take_child x ps).1
  Among-without x _ n (here {ps} h) = head-Among x p ps (λ e. n (sym e)) (here (All-without x ps h))
  Among-without x _ n (there {q} {ps} d a) = elim (ℕ_discrete q.pid x) [
    | yes e ↦ gone-Among x q ps e a
    | no e ↦ head-Among x q ps e (there d (Among-without x ps n a))
  ]

  found-Differs :
      (x : ℕ) (ps : List ProcessInfo) (q : ProcessInfo)
      → All (Differs p) ps
      → (take_child x ps).0 ≡ some q
      → q.name ≢ p.name
  unfolding take_child
  found-Differs x [] q h e = cc
  found-Differs x (y ∷ ps) q (h, hs) e = ground (arith, found-Differs x ps q hs)

  other_found :
      (x : ℕ) (ps : List ProcessInfo) (q : ProcessInfo)
      → x ≢ p.pid
      → Among p ps
      → (take_child x ps).0 ≡ some q
      → q.name ≢ p.name
  unfolding take_child
  other_found x _ q n (here {ps} h) e = ground (arith, found-Differs x ps q h)
  other_found x _ q n (there {q = y} {ps} d a) e = ground (arith, other_found x ps q n a)

  pub own_found :
      (ps : List ProcessInfo)
      → Among p ps
      → ((take_child p.pid ps).0 ≡ some p) × All (Differs p) (take_child p.pid ps).1
  unfolding take_child
  own_found _ (here {ps} h) = ground arith
  own_found _ (there {q} {ps} d a) = ground (arith, own_found ps a)

  restart-Among :
      (m : Manager) (q : ProcessInfo) (status now : ℕ) (fork : Option ℕ)
      → q.name ≢ p.name
      → fork ≢ some p.pid
      → Among p m.children
      → Among p (restart m q status now fork).children
  unfolding restart start_process
  restart-Among m q status now none n f a =
      let e : (restart m q status now none).children ≡ m.children = ground arith in rw e a
  restart-Among m q status now (some pid) n f a =
      let new : ProcessInfo = record (restarted q now) { pid = pid } in
      let more = Among-append m.children new a ((λ e. f (ap some e)), n) in ground (arith, more)

  pub elsewhere-Among :
      (m : Manager) (e : MonitorEvent)
      → IsElsewhere p.pid e
      → Among p m.children
      → Among p (monitor_step m e).children
  unfolding monitor_step
  elsewhere-Among m _ still_alive a = a
  elsewhere-Among m _ (other {x} {status} {now} {fork} n f) a =
      elim (Option-cases (take_child x m.children).0) [
        | inl e ↦ let rest = Among-without x m.children n a in ground (arith, rest)
        | inr (q, e) ↦
            let rest = Among-without x m.children n a in
            let kept =
              restart-Among (collect m x) q status now fork (other_found x m.children q n a e) f
                rest in
            ground (arith, kept)
      ]
