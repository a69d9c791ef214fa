-- ===== src/Elb/Wait/Sent.antt =====
-- The calls of the waits and retries: those of the retried action, and reads of the load balancer.
use cloud_provider_opentelek.Base.{List}
use cloud_provider_opentelek.Text.{Text}
use cloud_provider_opentelek.Cloud.{
  World, WaitLaws, State, M, send, attempt, lift, Call, LoadBalancer,
}
use cloud_provider_opentelek.Cloud.Exec.Sends.{
  Sends, Always, Sends-lift, Sends-send, Sends-attempt, Sends-bind, Sends-poll, Sends-backoff,
  sends_rules,
}
use cloud_provider_opentelek.Elb.Wait.{
  active_status, settled, retry_test, active_test, wait_for_active, retry_on_conflict, mutate,
}

module _ {F : List Call → Call → Type 0} where
  active_status-Sends :
      (lb_id : Text) (b : LoadBalancer) (s : State) → Sends F (active_status lb_id b) s
  unfolding active_status
  active_status-Sends lb_id b s = search sends_rules

  retry_test-Always : (fn : M Unit) (s : State) → Always F fn s → Always F (retry_test fn) s
  unfolding retry_test
  retry_test-Always fn s k s' e =
      Sends-bind s' (attempt fn) (λ r. lift (settled r)) (Sends-attempt s' fn (k s' e))
        (λ r s'' _. Sends-lift s'' (settled r))

  module _ {w : World} (laws : WaitLaws w) where
    pub retry_on_conflict-Sends :
        (fn : M Unit) (s : State) → Always F fn s → Sends F (retry_on_conflict w fn) s
    unfolding retry_on_conflict
    retry_on_conflict-Sends fn s k =
        Sends-backoff laws 2000 150 6 (retry_test fn) s (retry_test-Always fn s k)

    module _ (lb_id : Text) (reads : (h : List Call) → F h (Call.get_balancer lb_id)) where
      active_test-Sends : (s : State) → Sends F (active_test w lb_id) s
      unfolding active_test
      active_test-Sends s =
          Sends-bind s (send w (Call.get_balancer lb_id)) (active_status lb_id)
            (Sends-send s w (Call.get_balancer lb_id) (reads s.calls))
            (λ b s' _. active_status-Sends lb_id b s')

      pub wait_for_active-Sends : (s : State) → Sends F (wait_for_active w lb_id) s
      unfolding wait_for_active
      wait_for_active-Sends s =
          Sends-poll laws 3000 300000 (active_test w lb_id) s (λ s' _. active_test-Sends s')

      pub mutate-Sends : (fn : M Unit) (s : State) → Always F fn s → Sends F (mutate w lb_id fn) s
      unfolding mutate
      mutate-Sends fn s k =
          Sends-bind s (retry_on_conflict w fn) (λ _. wait_for_active w lb_id)
            (retry_on_conflict-Sends fn s k) (λ _ s' _. wait_for_active-Sends s')
