-- ===== src/Elb/Wait.antt =====
-- Waiting and retrying in pkg/elb/elb.go: waitForActive, retryOnConflict, mutate.
pub mod Sent
pub mod Active
pub mod Last
pub mod Kept
use cloud_provider_opentelek.Base.{ℕ, Bool, true, false, if◌then◌else◌, ◌==◌}
use cloud_provider_opentelek.Text.{Text, codes, text_eq}
use cloud_provider_opentelek.Cloud.{
  World, M, send, attempt, lift, pure, throw, ◌>>=◌, ◌>>◌, fail, in_error_state, Call, Result, ok,
  err, panic, is_conflict, LoadBalancer,
}

abbrev pub status_active : Text
status_active = codes "ACTIVE"

abbrev pub status_error : Text
status_error = codes "ERROR"

-- Milliseconds.
abbrev pub active_poll_interval : ℕ
active_poll_interval = 3000

abbrev pub active_poll_timeout : ℕ
active_poll_timeout = 300000

unfoldable pub active_status : Text → LoadBalancer → M Bool
active_status lb_id balancer =
    if balancer.provisioning_status == status_active
    then pure true
    else if balancer.provisioning_status == status_error
    then throw (fail (in_error_state lb_id))
    else pure false

-- `fn` has returned: `true` ends the loop, `false` tries again.
unfoldable pub settled : Result (Unit {0}) → Result Bool
settled (ok _) = ok true
settled (err e) = if is_conflict e then ok false else err e
settled panic = panic

unfoldable pub retry_test : M Unit → M Bool
unfolding settled
retry_test fn = do r ← attempt fn; lift (settled r)

module _ (w : World) where
  unfoldable pub active_test : Text → M Bool
  active_test lb_id = do balancer ← send w (Call.get_balancer lb_id); active_status lb_id balancer

  unfoldable pub wait_for_active : Text → M Unit
  wait_for_active lb_id = w.poll active_poll_interval active_poll_timeout (active_test lb_id)

  -- Two seconds, growing by a factor of 1.5, six attempts.
  unfoldable pub retry_on_conflict : M Unit → M Unit
  retry_on_conflict fn = w.backoff 2000 150 6 (retry_test fn)

  unfoldable pub mutate : Text → M Unit → M Unit
  mutate lb_id fn = do retry_on_conflict fn; wait_for_active lb_id
