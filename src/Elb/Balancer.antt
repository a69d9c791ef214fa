-- ===== src/Elb/Balancer.antt =====
-- The interface cloudprovider.LoadBalancer as pkg/elb/elb.go implements it: GetLoadBalancer,
-- EnsureLoadBalancer, UpdateLoadBalancer and EnsureLoadBalancerDeleted.
pub mod Found
pub mod Permits
pub mod Deletion
pub mod Ensuring
pub mod Updating
pub mod Reading
pub mod Guards
pub mod Cleared
pub mod Converged
pub mod Told
pub mod Updated
use cloud_provider_opentelek.Base.{
  Bool, not, ◌&&◌, ◌||◌, List, [], ◌∷◌, Option, none, some, if◌then◌else◌, ◌==◌,
}
use cloud_provider_opentelek.Base.Int.{pos, ltb_ℤ}
use cloud_provider_opentelek.Text.{Text, text_eq}
use cloud_provider_opentelek.Maps.{Dict, lookup}
use cloud_provider_opentelek.Kube.{Service, ServicePort, Node, protocol_tcp, protocol_udp}
use cloud_provider_opentelek.Config.{LoadBalancerOpts, is_empty}
use cloud_provider_opentelek.Settings.{ServiceSettings, settings_for_service}
use cloud_provider_opentelek.Cloud.{
  World, M, send, pure, throw, lift, or_wrap, or_gone, ◌>>=◌, ◌>>◌, Reason, Call, fail, Listener,
  LoadBalancer,
}
use cloud_provider_opentelek.Elb.Names.{load_balancer_name, is_owned, port_key, listeners_by_key}
use cloud_provider_opentelek.Elb.Wait.{retry_on_conflict, wait_for_active}
use cloud_provider_opentelek.Elb.Nodes.{lb_status}
use cloud_provider_opentelek.Elb.Listeners.{list_listeners, delete_listener}
use cloud_provider_opentelek.Elb.Pools.{find_pool_for_listener}
use cloud_provider_opentelek.Elb.Members.{reconcile_members}
use cloud_provider_opentelek.Elb.Reconcile.{reconcile}
use cloud_provider_opentelek.Elb.LoadBalancers.{
  is_shared, status_of, elb_client, find_load_balancer, create_load_balancer, release_eips, is_nil,
}

-- `validatePorts`: the first port with another protocol than TCP and UDP.
unfoldable pub invalid_port : List ServicePort → Option ServicePort
invalid_port [] = none
invalid_port (port ∷ ports) =
    if port.protocol == protocol_tcp || port.protocol == protocol_udp
    then invalid_port ports
    else some port

abbrev pub rejected : Option ServicePort → M Unit
rejected none = pure tt
rejected (some port) = throw (fail (Reason.unsupported_protocol port.protocol port.port))

unfoldable pub validate_ports : Service → M Unit
validate_ports service = rejected (invalid_port service.ports)

module _ (w : World) where
  module _ (opts : LoadBalancerOpts) (cluster : Text) (service : Service) where
    abbrev name : Text
    name = load_balancer_name cluster service

    -- `none` is the answer that there is no load balancer.
    unfoldable pub get_load_balancer : M (Option (List Text))
    get_load_balancer = do
      settings ← lift (settings_for_service opts service)
      elb_client w
      found ← find_load_balancer w settings name
      pure (status_of found)

    unfoldable pub obtain : ServiceSettings → Option LoadBalancer → M LoadBalancer
    obtain settings (some balancer) = pure balancer
    obtain settings none =
        if is_empty settings.load_balancer_id
        then create_load_balancer w settings name service
        else throw (fail (Reason.referenced_not_found settings.load_balancer_id))

    unfoldable pub converge : List Node → ServiceSettings → M (List Text)
    converge nodes settings = do
      elb_client w
      found ← find_load_balancer w settings name
      balancer ← obtain settings found
      wait_for_active w balancer.id
      reconcile w balancer name settings service nodes
      fresh ← or_wrap Reason.get_after_reconcile (send w (Call.get_balancer balancer.id))
      pure (lb_status fresh)

    unfoldable pub ensure_load_balancer : List Node → M (List Text)
    ensure_load_balancer nodes =
        if is_nil service.ports
        then throw (fail (Reason.no_ports service.namespace service.name))
        else do
          validate_ports service
          if is_nil nodes
              then throw (fail (Reason.no_nodes service.namespace service.name))
              else do settings ← lift (settings_for_service opts service); converge nodes settings

    unfoldable pub update_pool_of :
        LoadBalancer → List Node → ServicePort → Option Listener → M Unit
    update_pool_of balancer nodes port none =
        throw
          (fail (Reason.listener_not_found port.protocol port.port service.namespace service.name))
    update_pool_of balancer nodes port (some listener) = do
      found ← find_pool_for_listener w listener.id
      elim found [
        | none ↦ throw (fail (Reason.pool_of_listener_not_found listener.id))
        | some pool ↦ reconcile_members w balancer pool.id port.node_port nodes
      ]

    unfoldable pub update_ports :
        LoadBalancer → List Node → Dict Listener → List ServicePort → M Unit
    update_ports balancer nodes by_key [] = pure tt
    update_ports balancer nodes by_key (port ∷ ports) = do
      update_pool_of balancer nodes port (lookup (port_key port) by_key)
      update_ports balancer nodes by_key ports

    unfoldable pub update_found : List Node → Option LoadBalancer → M Unit
    update_found nodes none =
        throw (fail (Reason.balancer_not_found service.namespace service.name))
    update_found nodes (some balancer) = do
      existing ← list_listeners w balancer.id
      update_ports balancer nodes (listeners_by_key existing) service.ports

    unfoldable pub update_load_balancer : List Node → M Unit
    update_load_balancer nodes = do
      settings ← lift (settings_for_service opts service)
      elb_client w
      found ← find_load_balancer w settings name
      update_found nodes found

    -- `shared && !strings.HasPrefix(…)`: on a shared load balancer other listeners are kept.
    unfoldable pub delete_listeners : LoadBalancer → Bool → List Listener → M Unit
    delete_listeners balancer shared [] = pure tt
    delete_listeners balancer shared (listener ∷ listeners) = do
      if shared && not (is_owned name listener.name)
          then pure tt
          else delete_listener w balancer.id name listener
      delete_listeners balancer shared listeners

    unfoldable pub delete_owned_balancer : ServiceSettings → LoadBalancer → M Unit
    delete_owned_balancer settings balancer = do
      or_gone (Reason.delete_balancer balancer.id)
          (retry_on_conflict w (send w (Call.delete_balancer balancer.id)))
      if ltb_ℤ (pos 0) settings.eip_bandwidth && not settings.eip_keep
          then release_eips w balancer.public_ips
          else pure tt

    unfoldable pub delete_found : ServiceSettings → Option LoadBalancer → M Unit
    delete_found settings none = pure tt
    delete_found settings (some balancer) = do
      existing ← list_listeners w balancer.id
      delete_listeners balancer (is_shared settings) existing
      if is_shared settings then pure tt else delete_owned_balancer settings balancer

    unfoldable pub ensure_load_balancer_deleted : M Unit
    ensure_load_balancer_deleted = do
      settings ← lift (settings_for_service opts service)
      elb_client w
      found ← find_load_balancer w settings name
      delete_found settings found
