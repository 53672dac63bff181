-- ===== src/Comm/Loop.antt =====
-- A rule for the loop of the communication process.
use mathlib.Core.Path.{subst}
use x_pilot.Base.{◌≡◌, inl, inr, List, [], ◌∷◌, done, >>=-eq-done, done-injective, arith}
use x_pilot.Platform.{JsonLib, SocketLib}
use x_pilot.Comm.Cases.{wait_cases, by_kind}
use x_pilot.Comm.{Comm}
use x_pilot.Comm.Events.{Event, tcp_event, ipc_event, handle, handle_all}
use x_pilot.Comm.Rounds.{Round, before_wait, main_loop}

module _ (lib : JsonLib) (sock : SocketLib) where
  -- A relation that goes on from step to step, and that each part of a round respects.
  pub record IsRespected (P : Comm → Comm → Type 0) : Type 0 where
    pub same : (c : Comm) → P c c
    pub both : (a b c : Comm) → P a b → P b c → P a c
    pub wait : (c : Comm) (r : Round lib sock) → P c (before_wait lib sock c r)
    pub tcp : (c c' : Comm) (e : Event lib sock) → tcp_event lib sock c e ≡ done c' → P c c'
    pub ipc : (c : Comm) (e : Event lib sock) → P c (ipc_event lib sock c e)

module _ (lib : JsonLib) (sock : SocketLib) (P : Comm → Comm → Type 0)
    (respected : IsRespected lib sock P) where
  open respected use {same, both, wait, tcp, ipc}

  pub handle-keeps : (c c' : Comm) (e : Event lib sock) → handle lib sock c e ≡ done c' → P c c'
  handle-keeps c c' e h = by_kind lib sock (P c) c c' e (λ k. tcp c c' e) (ipc c e) (same c) h

  pub handle_all-keeps :
      (es : List (Event lib sock)) (c c' : Comm) → handle_all lib sock c es ≡ done c' → P c c'
  unfolding handle_all
  handle_all-keeps [] c c' h = subst (P c) (done-injective h) (same c)
  handle_all-keeps (e ∷ es) c c' h =
      let (d, first, later) = >>=-eq-done (handle lib sock c e) (λ d. handle_all lib sock d es) h in
      both c d c' (handle-keeps c d e first) (handle_all-keeps es d c' later)

  -- What comes after the wait of a round, where the later rounds respect the relation.
  rest-keeps :
      (rs : List (Round lib sock)) (r : Round lib sock) (c c' : Comm)
      → ((b : Comm) → main_loop lib sock b rs ≡ done c' → P b c')
      → main_loop lib sock c (r ∷ rs) ≡ done c'
      → P (before_wait lib sock c r) c'
  unfolding main_loop
  rest-keeps rs r c c' later h =
      let b = before_wait lib sock c r in
      elim (wait_cases lib sock r.wait) [
        | inl k ↦ let q : b ≡ c' = ground arith in subst (P b) q (same b)
        | inr (inl k) ↦ later b (ground arith)
        | inr (inr (es, k)) ↦
            let (d, first, next) =
              >>=-eq-done (handle_all lib sock b es) (λ d. main_loop lib sock d rs)
                (ground arith) in
            both b d c' (handle_all-keeps es b d first) (later d next)
      ]

  pub main_loop-keeps :
      (rs : List (Round lib sock)) (c c' : Comm) → main_loop lib sock c rs ≡ done c' → P c c'
  unfolding main_loop
  main_loop-keeps [] c c' h = subst (P c) (done-injective h) (same c)
  main_loop-keeps (r ∷ rs) c c' h =
      both c (before_wait lib sock c r) c' (wait c r)
        (rest-keeps rs r c c' (λ b. main_loop-keeps rs b c') h)

  pub after_wait-keeps :
      (rs : List (Round lib sock)) (r : Round lib sock) (c c' : Comm)
      → main_loop lib sock c (r ∷ rs) ≡ done c'
      → P (before_wait lib sock c r) c'
  after_wait-keeps rs r c c' = rest-keeps rs r c c' (λ b. main_loop-keeps rs b c')
