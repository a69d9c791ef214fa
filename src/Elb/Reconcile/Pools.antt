-- ===== src/Elb/Reconcile/Pools.antt =====
-- What reconcile sends for the pool of one port.
use cloud_provider_opentelek.Base.{refl, List, Option, none, some}
use cloud_provider_opentelek.Text.{Text}
use cloud_provider_opentelek.Config.{is_empty}
use cloud_provider_opentelek.Kube.{Service, ServicePort, Node}
use cloud_provider_opentelek.Settings.{ServiceSettings}
use cloud_provider_opentelek.Cloud.{
  World, WaitLaws, State, Call, Result, ok, err, panic, Listener, Pool, PoolUpdate, PoolOpts,
}
use cloud_provider_opentelek.Cloud.Exec.Sends.{
  Extends, same, Sends, Sends-pure, Sends-throw, Sends-lift, Sends-if, Sends-attempt, Sends-bind,
  Sends-or_wrap, Sends-modify, sends_rules,
}
use cloud_provider_opentelek.Elb.Wait.Sent.{mutate-Sends}
use cloud_provider_opentelek.Elb.Pools.{
  pool_differs, desired_persistence, captured_pool, assign_pool, update_pool, create_pool,
  pool_updated, reconcile_pool, new_pool, ensure_pool, deref,
}
use cloud_provider_opentelek.Elb.Reconcile.Permits.{Reconciling}

module _ {w : World} (laws : WaitLaws w) (lb_id name : Text) (settings : ServiceSettings)
    (service : Service) (nodes : List Node) (listener : Listener) (port : ServicePort) where
  abbrev R : List Call → Call → Type 0
  R = Reconciling w lb_id name service nodes

  captured-Sends : (s : State) → Sends R captured_pool s
  unfolding captured_pool
  captured-Sends s = record { trace = go s.pool }
    where
      go : (p : Option Pool) → Extends R s.calls (deref p s).1.calls
      go none = same
      go (some p) = same

  assign-Sends : (r : Result Pool) (s : State) → Sends R (assign_pool w r) s
  unfolding assign_pool
  assign-Sends (ok p) s = Sends-modify s _ refl
  assign-Sends (err e) s = Sends-bind s _ _ (Sends-modify s _ refl) (λ _ t _. Sends-throw t e)
  assign-Sends panic s = Sends-lift s panic

  update-Sends : (opts : PoolUpdate) (s : State) → Sends R (update_pool w opts) s
  unfolding update_pool
  update-Sends opts s =
      Sends-bind s _ _ (captured-Sends s)
        (λ pool t _. Sends-bind t _ _ (search sends_rules) (λ reply u _. assign-Sends reply u))

  create-Sends : (opts : PoolOpts) (s : State) → Sends R (create_pool w opts) s
  unfolding create_pool
  create-Sends opts s = Sends-bind s _ _ (search sends_rules) (λ reply u _. assign-Sends reply u)

  updated-Sends : (r : Result (Unit {0})) (s : State) → Sends R (pool_updated w r) s
  unfolding pool_updated
  updated-Sends (ok _) s = captured-Sends s
  updated-Sends (err e) s = Sends-bind s _ _ (captured-Sends s) (λ pool t _. Sends-throw t _)
  updated-Sends panic s = Sends-lift s panic

  pub reconcile_pool-Sends :
      (pool : Pool) (s : State)
      → Sends R (reconcile_pool w lb_id listener name settings service port pool) s
  unfolding reconcile_pool
  reconcile_pool-Sends pool s =
      Sends-if s (pool_differs settings (desired_persistence service) pool) _ _
        (λ _. Sends-bind s _ _ (Sends-modify s _ refl) (λ _ t _.
          Sends-bind t _ _
            (Sends-attempt t _ (mutate-Sends laws lb_id (λ h. tt) _ t (λ u e. update-Sends _ u)))
            (λ done u _. updated-Sends done u)))
        (λ _. Sends-pure s pool)

  new_pool-Sends : (s : State) → Sends R (new_pool w lb_id listener name settings service port) s
  unfolding new_pool
  new_pool-Sends s = Sends-bind s _ _ (Sends-modify s _ refl) (λ _ t _.
      Sends-bind t _ _
        (Sends-or_wrap t _ _ (mutate-Sends laws lb_id (λ h. tt) _ t (λ u e. create-Sends _ u)))
        (λ _ u _. captured-Sends u))

  pub ensure_pool-Sends :
      (s : State) → Sends R (ensure_pool w lb_id listener name settings service port) s
  unfolding ensure_pool
  ensure_pool-Sends s =
      Sends-if s (is_empty listener.default_pool_id) _ _ (λ _. new_pool-Sends s)
        (λ _. Sends-bind s _ _ (search sends_rules) (λ pool t _. reconcile_pool-Sends pool t))
