-- ===== src/Elb/Reconcile.antt =====
-- reconcile of pkg/elb/elb.go.
pub mod Permits
pub mod Ports
pub mod Pools
pub mod Sent
pub mod Served
use cloud_provider_opentelek.Base.{
  Bool, not, ◌&&◌, List, [], ◌∷◌, map, Option, none, some, if◌then◌else◌,
}
use cloud_provider_opentelek.Base.Int.{pos, ltb_ℤ}
use cloud_provider_opentelek.Text.{Text}
use cloud_provider_opentelek.Maps.{Dict, lookup, contains}
use cloud_provider_opentelek.Kube.{Service, ServicePort, Node}
use cloud_provider_opentelek.Settings.{ServiceSettings}
use cloud_provider_opentelek.Cloud.{World, M, pure, ◌>>=◌, ◌>>◌, Listener, LoadBalancer}
use cloud_provider_opentelek.Elb.Names.{is_owned, port_key, listener_key, listeners_by_key}
use cloud_provider_opentelek.Elb.Listeners.{
  list_listeners, create_listener, update_idle_timeout, delete_listener,
}
use cloud_provider_opentelek.Elb.IpGroups.{reconcile_ip_group}
use cloud_provider_opentelek.Elb.Pools.{ensure_pool}
use cloud_provider_opentelek.Elb.Members.{reconcile_members}
use cloud_provider_opentelek.Elb.Monitors.{reconcile_monitor}

-- `wanted`: the keys of the Service's ports.
abbrev pub wanted_keys : Service → List Text
wanted_keys service = map port_key service.ports

-- A listener that the Service owns and no port asks for.
unfoldable pub is_stale : Text → List Text → Listener → Bool
is_stale name wanted listener =
    is_owned name listener.name && not (contains wanted (listener_key listener))

module _ (w : World) (balancer : LoadBalancer) (name : Text) (settings : ServiceSettings)
    (service : Service) (nodes : List Node) where
  unfoldable pub ensure_listener : ServicePort → Option Listener → M Listener
  ensure_listener port none = create_listener w balancer.id name settings port
  ensure_listener port (some listener) =
      if ltb_ℤ (pos 0) settings.idle_timeout
      then (do update_idle_timeout w balancer.id settings listener; pure listener)
      else pure listener

  -- The body of the loop over the ports.
  unfoldable pub reconcile_port : Dict Listener → ServicePort → M Unit
  reconcile_port by_key port = do
    listener ← ensure_listener port (lookup (port_key port) by_key)
    reconcile_ip_group w balancer.id listener name service port
    pool ← ensure_pool w balancer.id listener name settings service port
    reconcile_members w balancer pool.id port.node_port nodes
    reconcile_monitor w balancer.id pool name settings port service

  unfoldable pub reconcile_ports : Dict Listener → List ServicePort → M Unit
  reconcile_ports by_key [] = pure tt
  reconcile_ports by_key (port ∷ ports) = do
    reconcile_port by_key port
    reconcile_ports by_key ports

  unfoldable pub delete_stale : List Text → List Listener → M Unit
  delete_stale wanted [] = pure tt
  delete_stale wanted (listener ∷ listeners) = do
    if is_stale name wanted listener then delete_listener w balancer.id name listener else pure tt
    delete_stale wanted listeners

  unfoldable pub reconcile : M Unit
  reconcile = do
    existing ← list_listeners w balancer.id
    reconcile_ports (listeners_by_key existing) service.ports
    delete_stale (wanted_keys service) existing
