-- ===== src/Elb/Reconcile/Served.antt =====
-- What a successful reconcile has brought about.
pub mod Ports
pub mod Whole
use cloud_provider_opentelek.Base.{◌≡◌, true, List, In, ◌↔◌}
use cloud_provider_opentelek.Base.Int.{pos, ltb_ℤ}
use cloud_provider_opentelek.Text.{Text}
use cloud_provider_opentelek.Kube.{Service, ServicePort, Node}
use cloud_provider_opentelek.Settings.{ServiceSettings}
use cloud_provider_opentelek.Cloud.{
  World, Call, ok, Listener, ListenerUpdate, Pool, LoadBalancer, Member,
}
use cloud_provider_opentelek.Cloud.Exec.Ends.{Lasts, Any}
use cloud_provider_opentelek.Cloud.Exec.Done.{Done, Done-Lasts}
use cloud_provider_opentelek.Cloud.Exec.Answers.{Answered, Answered-Extends}
use cloud_provider_opentelek.Elb.Names.{port_key, listener_key}
use cloud_provider_opentelek.Elb.Listeners.{listener_opts}
use cloud_provider_opentelek.Elb.Listeners.Cleared.{Cleared, Cleared-Lasts}
use cloud_provider_opentelek.Elb.IpGroups.{normalize_ranges}
use cloud_provider_opentelek.Elb.IpGroups.Restricted.{Guarded, Guarded-Lasts}
use cloud_provider_opentelek.Elb.Pools.Ensured.{Ensured, Ensured-Lasts}
use cloud_provider_opentelek.Elb.Monitors.Settled.{Settled, Settled-Lasts}
use cloud_provider_opentelek.Elb.Reconcile.Permits.{Stale}
use cloud_provider_opentelek.Cloud.Exec.Sends.{Extends, Extends-trans}
use cloud_provider_opentelek.Elb.Members.Known.{Known}
use cloud_provider_opentelek.Elb.Members.Present.{key_of}
use cloud_provider_opentelek.Elb.Members.Tables.{IsTarget}

module _ (w : World) (balancer : LoadBalancer) (name : Text) (settings : ServiceSettings)
    (service : Service) (nodes : List Node) where
  -- A listener with the key of the port: the cloud has listed it, and where the Service sets an idle timeout, has
  -- answered the update of it; or the cloud has created it.
  pub data ListenerOf (port : ServicePort) (l : Listener) (h : List Call) : Type 0 where
    listed :
        (all : List Listener)
        → Answered w (Call.list_listeners balancer.id) (ok all) h
        → In l all
        → listener_key l ≡ port_key port
        → (ltb_ℤ (pos 0) settings.idle_timeout ≡ true
            → Done w
                (Call.update_listener l.id
                  (ListenerUpdate.keep_alive_timeout settings.idle_timeout))
                h)
        → ListenerOf port l h
    created :
        Answered w (Call.create_listener (listener_opts w balancer.id name settings port)) l h
        → ListenerOf port l h

  -- By the answers of the cloud the pool has a member with an address and port exactly where a node has them.
  abbrev pub ExactMembers : ServicePort → Pool → List Call → Type 0
  ExactMembers port pool t =
      (key : Text)
      → ((x : Member) × Known w pool.id x t × (key_of x ≡ key))
        ↔ ((node : Node) × (address : Text) × IsTarget port.node_port nodes key node address)

  -- So it was at some point of the calls since `start`.
  abbrev pub Synced : List Call → ServicePort → Pool → List Call → Type 0
  Synced start port pool h =
      (t : List Call) × Extends Any start t × Extends Any t h × ExactMembers port pool t

  -- The port has a listener, with the access list that reconcileIPGroup leaves, and the listener a pool, whose members
  -- were those of the nodes, and which has the monitor of the Service.
  pub record Served (start : List Call) (port : ServicePort) (h : List Call) : Type 0 where
    pub listener : Listener
    pub origin : ListenerOf port listener h
    pub guarded :
        Guarded w balancer.id listener name service port
          (normalize_ranges service.load_balancer_source_ranges)
          h
    pub pool : Pool
    pub ensured : Ensured w listener name settings service port pool h
    pub members : Synced start port pool h
    pub monitor : Settled w balancer.id pool name settings port service h

  -- Each port is served, and each listed listener of the Service that no port asks for is gone, with what belongs to it.
  pub record Reconciled (start : List Call) (h : List Call) : Type 0 where
    pub all : List Listener
    pub listed : Answered w (Call.list_listeners balancer.id) (ok all) h
    pub served : (port : ServicePort) → In port service.ports → Served start port h
    pub cleared : (l : Listener) → In l all → Stale name service l → Cleared w name l h

  pub ListenerOf-Lasts : (port : ServicePort) (l : Listener) → Lasts (ListenerOf port l)
  ListenerOf-Lasts port l h h' e (listed all answered i same_key set) =
      listed all (Answered-Extends _ _ e answered) i same_key (λ on.
        Done-Lasts w
          (Call.update_listener l.id (ListenerUpdate.keep_alive_timeout settings.idle_timeout)) h h'
          e (set on))
  ListenerOf-Lasts port l h h' e (created answered) = created (Answered-Extends _ _ e answered)

  pub Synced-Lasts :
      (start : List Call) (port : ServicePort) (pool : Pool) → Lasts (Synced start port pool)
  Synced-Lasts start port pool h h' e x =
      let (t, since, until, exact) = x in (t, since, Extends-trans until e, exact)

  pub Served-Lasts : (start : List Call) (port : ServicePort) → Lasts (Served start port)
  Served-Lasts start port h h' e x = record {
    listener = x.listener;
    origin = ListenerOf-Lasts port x.listener h h' e x.origin;
    guarded =
        Guarded-Lasts w balancer.id x.listener name service port
          (normalize_ranges service.load_balancer_source_ranges) h h' e x.guarded;
    pool = x.pool;
    ensured = Ensured-Lasts w x.listener name settings service port x.pool h h' e x.ensured;
    members = Synced-Lasts start port x.pool h h' e x.members;
    monitor = Settled-Lasts w balancer.id x.pool name settings port service h h' e x.monitor;
  }

  pub Reconciled-Lasts : (start : List Call) → Lasts (Reconciled start)
  Reconciled-Lasts start h h' e x = record {
    all = x.all;
    listed = Answered-Extends _ _ e x.listed;
    served = λ port i. Served-Lasts start port h h' e (x.served port i);
    cleared = λ l i stale. Cleared-Lasts w name l h h' e (x.cleared l i stale);
  }
