-- ===== src/Cloud/Errors.antt =====
-- Errors as values. An SDK error carries the status that the code asks for; an error that the
-- package makes carries the place that makes it, with the values in its message.
use cloud_provider_opentelek.Base.{ℕ, Bool, true, false}
use cloud_provider_opentelek.Base.Int.{ℤ}
use cloud_provider_opentelek.Text.{Text}

-- One constructor for each call of `fmt.Errorf` in pkg/elb.
pub data Reason : Type 0 where
  elb_client network_client : Reason
  no_ports no_nodes no_subnet no_zones balancer_not_found : Text → Text → Reason
  referenced_not_found get_balancer delete_balancer in_error_state : Text → Reason
  get_after_reconcile create_balancer list_balancers : Reason
  listener_not_found : Text → ℕ → Text → Text → Reason
  pool_of_listener_not_found get_listener update_listener delete_listener list_listeners :
      Text → Reason
  create_listener : ℕ → Reason
  unsupported_protocol : Text → ℕ → Reason
  release_eip : Text → Text → Reason
  get_pool update_pool create_pool delete_pool : Text → Reason
  no_node_port no_addresses list_members delete_member : Text → Reason
  add_member remove_member : Text → Text → Reason
  no_node_address : Text → Reason
  create_monitor get_monitor update_monitor delete_monitor recreate_monitor : Text → Reason
  get_ip_group update_ip_group delete_ip_group disable_ip_group create_ip_group : Text → Reason
  foreign_ip_group attach_ip_group : Text → Text → Reason
  invalid_value : Text → Text → Reason
  negative_value : ℤ → Text → Reason
  exclusive_annotations : Text → Text → Reason

-- `wrap` is `fmt.Errorf` with `%w`, `fail` is `fmt.Errorf` without it. `interrupted` is what the
-- wait package returns when time, the attempts or the context run out.
pub data Error : Type 0 where
  http_400 http_404 http_409 resource_not_found other_sdk_error interrupted : Error
  fail : Reason → Error
  wrap : Reason → Error → Error

-- `panic` is a dereference of a nil pointer. Nothing in the package recovers from it.
pub data Result {ℓ} (A : Type ℓ) : Type ℓ where
  ok : A → Result A
  err : Error → Result A
  panic : Result A

-- `errors.As` looks through what `%w` wraps.
unfoldable pub is_not_found : Error → Bool
is_not_found http_404 = true
is_not_found resource_not_found = true
is_not_found (wrap _ e) = is_not_found e
is_not_found _ = false

unfoldable pub is_conflict : Error → Bool
is_conflict http_409 = true
is_conflict (wrap _ e) = is_conflict e
is_conflict _ = false

unfoldable pub is_bad_request : Error → Bool
is_bad_request http_400 = true
is_bad_request (wrap _ e) = is_bad_request e
is_bad_request _ = false
