-- ===== src/Signals/Exit.antt =====
-- When a loop stops.
use x_pilot.Base.{◌≡◌, refl, ap, Bool, true, false, List, [], ◌∷◌, ◌++◌, map, All}
use x_pilot.Signals.{Signal, sigint, sigterm, sigpipe, deliver, deliver_all, rounds_made}

-- Signals that the processes ignore, and lists of signals with one that they do not.
abbrev pub IsQuiet : List Signal → Type 0
IsQuiet ss = All (λ s. s ≡ sigpipe) ss

pub data Ends : List Signal → Type 0 where
  by_int : (ss : List Signal) → Ends (sigint ∷ ss)
  by_term : (ss : List Signal) → Ends (sigterm ∷ ss)
  later : (s : Signal) {ss : List Signal} → Ends ss → Ends (s ∷ ss)

module _ (handler : Bool → Bool) (sets : (b : Bool) → handler b ≡ true) where
  quiet_keeps : (ss : List Signal) → IsQuiet ss → deliver_all handler false ss ≡ false
  unfolding deliver_all deliver
  quiet_keeps [] q = refl
  quiet_keeps (sigpipe ∷ ss) q = quiet_keeps ss q.1
  quiet_keeps (sigint ∷ ss) (e, q) = cc
  quiet_keeps (sigterm ∷ ss) (e, q) = cc

  set_stays : (ss : List Signal) → deliver_all handler true ss ≡ true
  unfolding deliver_all deliver
  set_stays [] = refl
  set_stays (sigpipe ∷ ss) = set_stays ss
  set_stays (sigint ∷ ss) = rw (sets true) (set_stays ss)
  set_stays (sigterm ∷ ss) = rw (sets true) (set_stays ss)

  end_sets : (b : Bool) (ss : List Signal) → Ends ss → deliver_all handler b ss ≡ true
  unfolding deliver_all deliver
  end_sets b _ (by_int ss) = rw (sets b) (set_stays ss)
  end_sets b _ (by_term ss) = rw (sets b) (set_stays ss)
  end_sets b _ (later s {ss = ss} e) = end_sets (deliver handler b s) ss e

  -- A loop makes every round before the first SIGINT or SIGTERM, whatever SIGPIPEs come, and none after it.
  pub rounds_before_exit {ℓ} :
      {A : Type ℓ} (before : List (List Signal × A)) (ss : List Signal) (a : A)
      (after : List (List Signal × A))
      → All (λ r. IsQuiet r.0) before
      → Ends ss
      → rounds_made handler false (before ++ (ss, a) ∷ after) ≡ map (λ r. r.1) before
  unfolding rounds_made
  rounds_before_exit [] ss a after q e = rw (end_sets false ss e) refl
  rounds_before_exit ((arrived, b) ∷ before) ss a after (q, qs) e =
      rw (quiet_keeps arrived q) (ap (◌∷◌ b) (rounds_before_exit before ss a after qs e))
