-- ===== src/Elb/Reconcile/Permits.antt =====
-- What reconcile may send.
use cloud_provider_opentelek.Base.{map, false, ◌≡◌, true, List, none, In, ◌⊎◌, inl, inr}
use cloud_provider_opentelek.Text.{Text}
use cloud_provider_opentelek.Maps.{lookup, contains}
use cloud_provider_opentelek.Kube.{Service, ServicePort, Node}
use cloud_provider_opentelek.Cloud.{World, Call, ok, Listener, IpGroup, Pool}
use cloud_provider_opentelek.Settings.{ServiceSettings}
use cloud_provider_opentelek.Elb.Monitors.{Probe}
use cloud_provider_opentelek.Elb.Monitors.Sent.{Probing}
use cloud_provider_opentelek.Cloud.Exec.Answers.{Answered}
use cloud_provider_opentelek.Elb.Names.{
  is_owned, listener_key, resource_name, port_key, listeners_by_key,
}
use cloud_provider_opentelek.Elb.Listeners.Permits.{Teardown}
use cloud_provider_opentelek.Elb.Members.Sent.{Syncing}

-- A listener of the Service that no port asks for any more.
abbrev pub Stale : Text → Service → Listener → Type 0
Stale name service l =
    (is_owned name l.name ≡ true) × (contains (map port_key service.ports) (listener_key l) ≡ false)

module _ (w : World) (lb_id name : Text) (service : Service) (nodes : List Node) where
  -- The member belongs to the sync of the pool of a port.
  abbrev pub SyncsPort : List Call → Call → Type 0
  SyncsPort h c =
      (port : ServicePort) × In port service.ports
      × (pool_id : Text) × Syncing w lb_id pool_id port.node_port nodes h c

  -- Load balancers and EIPs are left alone. A listener is created for a port of the Service for which the
  -- cloud has listed none; listeners and pools are deleted where the listener is a stale one of the Service;
  -- members come and go with the nodes, or with a stale listener; an IP group is created and changed under
  -- the name that belongs to a port, and deleted where its name has the prefix of the Service.
  abbrev pub Reconciling : List Call → Call → Type 0
  Reconciling h Call.elb_service = ⊥
  Reconciling h Call.network_service = ⊥
  Reconciling h (Call.list_balancers _) = ⊥
  Reconciling h (Call.create_balancer _) = ⊥
  Reconciling h (Call.delete_balancer _) = ⊥
  Reconciling h (Call.delete_eip _) = ⊥
  Reconciling h (Call.create_listener o) =
      (port : ServicePort) × In port service.ports
      × (all : List Listener) × Answered w (Call.list_listeners lb_id) (ok all) h
      × (lookup (port_key port) (listeners_by_key all) ≡ none)
      × (o.load_balancer_id ≡ lb_id)
      × (o.name ≡ resource_name name port)
      × (o.protocol ≡ port.protocol)
      × (o.protocol_port ≡ port.port)
  Reconciling h (Call.delete_listener id) =
      Teardown w lb_id name (Stale name service) h (Call.delete_listener id)
  Reconciling h (Call.delete_pool id) =
      Teardown w lb_id name (Stale name service) h (Call.delete_pool id)
  Reconciling h (Call.delete_ip_group id) =
      Teardown w lb_id name (Stale name service) h (Call.delete_ip_group id)
  Reconciling h (Call.create_member id o) = SyncsPort h (Call.create_member id o)
  Reconciling h (Call.delete_member id m) =
      SyncsPort h (Call.delete_member id m)
      ⊎ Teardown w lb_id name (Stale name service) h (Call.delete_member id m)
  Reconciling h (Call.create_ip_group o) =
      (port : ServicePort) × In port service.ports × (o.name ≡ resource_name name port)
  Reconciling h (Call.update_ip_group id ips) =
      (port : ServicePort) × In port service.ports
      × (read : Text) × (g : IpGroup) × Answered w (Call.get_ip_group read) g h
      × (g.id ≡ id)
      × (g.name ≡ resource_name name port)
  Reconciling h _ = Unit

  pub Teardown-Reconciling :
      (h : List Call) (c : Call) → Teardown w lb_id name (Stale name service) h c → Reconciling h c
  Teardown-Reconciling h Call.elb_service t = t
  Teardown-Reconciling h Call.network_service t = t
  Teardown-Reconciling h (Call.list_balancers _) t = t
  Teardown-Reconciling h (Call.create_balancer _) t = t
  Teardown-Reconciling h (Call.delete_balancer _) t = t
  Teardown-Reconciling h (Call.delete_eip _) t = t
  Teardown-Reconciling h (Call.create_listener _) t = absurd t
  Teardown-Reconciling h (Call.delete_listener _) t = t
  Teardown-Reconciling h (Call.delete_pool _) t = t
  Teardown-Reconciling h (Call.delete_ip_group _) t = t
  Teardown-Reconciling h (Call.create_member _ _) t = absurd t
  Teardown-Reconciling h (Call.delete_member _ _) t = inr t
  Teardown-Reconciling h (Call.create_ip_group _) t = absurd t
  Teardown-Reconciling h (Call.update_ip_group _ _) t = absurd t
  Teardown-Reconciling h _ t = tt

  pub Syncing-Reconciling :
      (port : ServicePort) (pool_id : Text) (h : List Call) (c : Call)
      → In port service.ports
      → Syncing w lb_id pool_id port.node_port nodes h c
      → Reconciling h c
  Syncing-Reconciling port pool_id h (Call.create_member id o) i t = (port, i, pool_id, t)
  Syncing-Reconciling port pool_id h (Call.delete_member id m) i t = inl (port, i, pool_id, t)
  Syncing-Reconciling port pool_id h (Call.get_balancer _) i t = tt
  Syncing-Reconciling port pool_id h (Call.list_members _) i t = tt
  Syncing-Reconciling port pool_id h _ i t = absurd t

  pub Probing-Reconciling :
      (pool : Pool) (settings : ServiceSettings) (probe : Probe) (h : List Call) (c : Call)
      → Probing w pool settings probe lb_id h c
      → Reconciling h c
  Probing-Reconciling pool settings probe h (Call.get_balancer _) t = tt
  Probing-Reconciling pool settings probe h (Call.get_monitor _) t = tt
  Probing-Reconciling pool settings probe h (Call.create_monitor _) t = tt
  Probing-Reconciling pool settings probe h (Call.delete_monitor _) t = tt
  Probing-Reconciling pool settings probe h (Call.update_monitor _ _) t = tt
  Probing-Reconciling pool settings probe h _ t = absurd t
