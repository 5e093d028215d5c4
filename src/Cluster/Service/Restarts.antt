-- ===== src/Cluster/Service/Restarts.antt =====
-- Starting the cluster service again.
use ironfish.Base.{
  true, false, Option, none, some, List, [], ◌∷◌, ◌++◌, ◌≡◌, refl, arith, ◌∙◌, Bool-cases, inl, inr,
}
use ironfish.Core.Error.{Error, Result, ok, err}
use ironfish.Cluster.Discovery.{DiscoveryManager, World}
use ironfish.Cluster.Service.Lifecycle.{
  ClusterService, Task, discovery_loop, gossip_receiver, gossip_sync_loop, announcement_loop,
  listener, peer_sync, monitor, announced, bound, start, withdrawn, stop,
}

-- The tasks of a service that has started.
abbrev pub all_tasks : List Task
all_tasks =
    listener ∷ peer_sync ∷ monitor ∷ discovery_loop ∷ gossip_receiver ∷ gossip_sync_loop
    ∷ announcement_loop ∷ []

announced-running :
    (r : Result (Unit {0}) × DiscoveryManager) (s : ClusterService)
    → (announced r s).1.running ≡ s.running
unfolding announced
announced-running (err e, d) s = refl
announced-running (ok u, d) s = refl

announced-tasks :
    (r : Result (Unit {0}) × DiscoveryManager) (s : ClusterService)
    → (announced r s).0 ≡ ok tt
    → (announced r s).1.tasks
      ≡ s.tasks ++ (discovery_loop ∷ gossip_receiver ∷ gossip_sync_loop ∷ announcement_loop ∷ [])
unfolding announced
announced-tasks (err e, d) s h = ground (arith, h)
announced-tasks (ok u, d) s h = refl

bound-running :
    (w : World) (bind : Option Error) (s : ClusterService) → (bound w bind s).1.running ≡ s.running
unfolding bound
bound-running w (some e) s = refl
bound-running w none s = announced-running _ _

bound-tasks :
    (w : World) (bind : Option Error) (s : ClusterService)
    → s.tasks ≡ []
    → (bound w bind s).0 ≡ ok tt
    → (bound w bind s).1.tasks ≡ all_tasks
unfolding bound
bound-tasks w (some e) s t h = ground (arith, h)
bound-tasks w none s t h = announced-tasks _ _ h ∙ rw t refl

withdrawn-running :
    (r : Result (Unit {0}) × DiscoveryManager) (s : ClusterService)
    → ((withdrawn r s).1.tasks ≡ s.tasks)
      × ((withdrawn r s).0 ≡ ok tt → (withdrawn r s).1.running ≡ false)
      × ((e : Error) → (withdrawn r s).0 ≡ err e → (withdrawn r s).1.running ≡ s.running)
unfolding withdrawn
withdrawn-running (err e, d) s = ground arith
withdrawn-running (ok u, d) s = ground arith

-- A service that is not running and has no tasks runs all its tasks once `start` succeeds, and
-- after a `stop` that succeeds it has none and `start` can bring them back: it is again not
-- running.
start-stop :
    (w w' : World) (bind : Option Error) (s : ClusterService)
    → s.running ≡ false
    → s.tasks ≡ []
    → let (r, s₁) = start w bind s in
      let (r', s₂) = stop w' s₁ in
      (r ≡ ok tt → (s₁.running ≡ true) × (s₁.tasks ≡ all_tasks))
      × (s₂.tasks ≡ [])
      × (r' ≡ ok tt → s₂.running ≡ false)
unfolding start stop
start-stop w w' bind s off none_yet = rw off (
  λ h. (bound-running w bind _, bound-tasks w bind _ none_yet h),
  (withdrawn-running _ _).0,
  (withdrawn-running _ _).1,
)

start_running :
    (w : World) (bind : Option Error) (s : ClusterService)
    → s.running ≡ true
    → start w bind s ≡ (ok tt, s)
unfolding start
start_running w bind s on = rw on refl

start-running :
    (w : World) (bind : Option Error) (s : ClusterService) → (start w bind s).1.running ≡ true
unfolding start
start-running w bind s = elim (Bool-cases s.running) [
  | inl on ↦ rw on refl
  | inr off ↦ rw off (bound-running w bind _)
]

start_unbound :
    (w : World) (s : ClusterService) (e : Error)
    → s.running ≡ false
    → start w (some e) s ≡ (err e, record s { running = true })
unfolding start bound
start_unbound w s e off = rw off refl

-- When the gossip port of a service that is not running cannot be bound, `start` reports the error
-- and spawns nothing, and yet any later `start` reports success and does nothing. The same after a
-- `stop` of a running service that reports an error: the tasks are gone, and a later `start`
-- reports success and does nothing.
pub start_after_failure :
    (w later : World) (bind : Option Error) (s : ClusterService) (e : Error)
    → let (r, s₁) = start w (some e) s in
      let (r', s₂) = stop w s in
      (s.running ≡ false → (r ≡ err e) × (s₁.tasks ≡ s.tasks) × (start later bind s₁ ≡ (ok tt, s₁)))
      × (s.running ≡ true → r' ≡ err e → (s₂.tasks ≡ []) × (start later bind s₂ ≡ (ok tt, s₂)))
unfolding stop
start_after_failure w later bind s e = (
  λ off. rw (start_unbound w s e off) (refl, refl, start_running later bind _ refl),
  λ on h.
      ((withdrawn-running _ _).0, start_running later bind _ ((withdrawn-running _ _).2 e h ∙ on)),
)
