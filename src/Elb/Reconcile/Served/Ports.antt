-- ===== src/Elb/Reconcile/Served/Ports.antt =====
-- The body of the loop over the ports serves the port.
use cloud_provider_opentelek.Base.{◌≡◌, refl, List, Option, none, some, In, arith, subst}
use cloud_provider_opentelek.Base.Int.{pos, ltb_ℤ}
use cloud_provider_opentelek.Text.{Text}
use cloud_provider_opentelek.Maps.{lookup}
use cloud_provider_opentelek.Kube.{Service, ServicePort, Node}
use cloud_provider_opentelek.Settings.{ServiceSettings}
use cloud_provider_opentelek.Cloud.{
  World, WaitLaws, OrderLaws, State, Reason, Call, ok, Listener, ListenerUpdate, Pool, LoadBalancer,
  send, ignore,
}
use cloud_provider_opentelek.Cloud.Exec.Ends.{
  Ends, Ends-mono, Ends-frame, Ends-pure, Ends-or_wrap, Ends-if, Ends-bind, Ends-bind_since, Any,
  Any-trace,
}
use cloud_provider_opentelek.Cloud.Exec.Done.{Done, Done-Lasts, ignored-Done}
use cloud_provider_opentelek.Cloud.Exec.Gone.{Answered-Lasts}
use cloud_provider_opentelek.Cloud.Exec.Answers.{Answered}
use cloud_provider_opentelek.Elb.Names.{port_key, listeners_by_key}
use cloud_provider_opentelek.Elb.Names.Keys.{found_is_listed}
use cloud_provider_opentelek.Elb.Wait.Last.{Ends-mutate}
use cloud_provider_opentelek.Elb.Listeners.{update_idle_timeout}
use cloud_provider_opentelek.Elb.Listeners.Created.{create_listener-Answered}
use cloud_provider_opentelek.Elb.IpGroups.{reconcile_ip_group, normalize_ranges}
use cloud_provider_opentelek.Elb.IpGroups.Restricted.{Guarded, Guarded-Lasts}
use cloud_provider_opentelek.Elb.IpGroups.Restricted.Whole.{reconcile_ip_group-Guarded}
use cloud_provider_opentelek.Elb.Pools.{ensure_pool}
use cloud_provider_opentelek.Elb.Pools.Ensured.{Ensured, Ensured-Lasts}
use cloud_provider_opentelek.Elb.Pools.Ensured.Whole.{ensure_pool-Ensured}
use cloud_provider_opentelek.Elb.Members.{reconcile_members}
use cloud_provider_opentelek.Elb.Members.Sent.{reconcile_members-Sends}
use cloud_provider_opentelek.Elb.Monitors.Settled.{Settled, reconcile_monitor-Settled}
use cloud_provider_opentelek.Elb.Reconcile.{ensure_listener, reconcile_port}
use cloud_provider_opentelek.Elb.Reconcile.Pools.{reconcile_pool-Sends, ensure_pool-Sends}
use cloud_provider_opentelek.Elb.Reconcile.Sent.{create_listener-Sends}
use cloud_provider_opentelek.Elb.Reconcile.Served.{
  ListenerOf, listed, created, ListenerOf-Lasts, Synced, Synced-Lasts, Served,
}
use cloud_provider_opentelek.Cloud.Exec.Sends.{same, Extends, Extends-trans}
use cloud_provider_opentelek.Elb.Members.Known.Exact.{reconcile_members-exact}
use cloud_provider_opentelek.Elb.Members.Known.{MemberLaws}

module _ {w : World} (laws : WaitLaws w) (orders : OrderLaws w)
    (members : (pool_id : Text) → MemberLaws w pool_id) (balancer : LoadBalancer) (name : Text)
    (settings : ServiceSettings) (service : Service) (nodes : List Node) where
  abbrev Origin : ServicePort → Listener → List Call → Type 0
  Origin = ListenerOf w balancer name settings service nodes

  module _ (start : List Call) (all : List Listener) (port : ServicePort)
      (is_port : In port service.ports) where
    abbrev Lists : List Call → Type 0
    Lists = Answered w (Call.list_listeners balancer.id) (ok all)

    listener-Ends :
        (found : Option Listener) (s : State)
        → lookup (port_key port) (listeners_by_key all) ≡ found
        → Lists s.calls
        → Ends (Origin port) (ensure_listener w balancer name settings service nodes port found) s
    unfolding ensure_listener update_idle_timeout
    listener-Ends none s e answered = record {
      trace = Any-trace (
          create_listener-Sends laws balancer name settings service nodes all port s is_port e
            answered);
      goal = λ l s' run.
          created (create_listener-Answered laws balancer.id name settings port s s' l run);
    }
    listener-Ends (some l) s e answered =
        let (i, same_key) = found_is_listed (port_key port) all l e in
        let c : Call =
          Call.update_listener l.id (ListenerUpdate.keep_alive_timeout settings.idle_timeout) in
        Ends-if _ s (ltb_ℤ (pos 0) settings.idle_timeout) _ _
          (λ _.
            Ends-bind (Origin port) s _ _
              (Ends-frame (Answered-Lasts w (Call.list_listeners balancer.id) (ok all)) answered (
                Ends-or_wrap (λ _ h. Done w c h) s (Reason.update_listener l.id) _
                  (Ends-mutate laws balancer.id s (ignore (send w c)) (Done-Lasts w c)
                    (ignored-Done w c))))
              (λ _ t _ both.
                Ends-pure (Origin port) t l (listed all both.0 i same_key (λ _. both.1))))
          (λ off.
            Ends-pure (Origin port) s l
              (listed all answered i same_key (λ on. absurd (ground arith))))

    pool-Ends :
        (l : Listener) (s : State)
        → Ends
            (Ensured w l name settings service port)
            (ensure_pool w balancer.id l name settings service port)
            s
    pool-Ends l s = record {
      trace = Any-trace (ensure_pool-Sends laws balancer.id name settings service nodes l port s);
      goal = λ p s' run.
          ensure_pool-Ensured laws balancer.id l name settings service port s s' p
            (λ q t.
              Any-trace
                (reconcile_pool-Sends laws balancer.id name settings service nodes l port q t))
            run;
    }

    members-Ends :
        (pool : Pool) (s : State)
        → Extends Any start s.calls
        → Ends
            (λ _ h. Synced w balancer name settings service nodes start port pool h)
            (reconcile_members w balancer pool.id port.node_port nodes)
            s
    members-Ends pool s begun =
        let sent : Extends Any s.calls
            (reconcile_members w balancer pool.id port.node_port nodes s).1.calls =
          Any-trace (reconcile_members-Sends laws balancer pool.id port.node_port nodes s) in
        record {
          trace = sent;
          goal = λ _ s' run. (
            s'.calls,
            Extends-trans begun (subst (λ x. Extends Any s.calls x.1.calls) run sent),
            same,
            reconcile_members-exact laws orders (members pool.id) balancer port.node_port nodes s s'
                run,
          );
        }

    pub reconcile_port-Served :
        (s : State)
        → Extends Any start s.calls
        → Lists s.calls
        → Ends
            (λ _ h. Served w balancer name settings service nodes start port h)
            (reconcile_port w balancer name settings service nodes (listeners_by_key all) port)
            s
    unfolding reconcile_port
    reconcile_port-Served s begun answered =
        let ranges : List Text = normalize_ranges service.load_balancer_source_ranges in
        Ends-bind_since _ s begun
          (ensure_listener w balancer name settings service nodes port
            (lookup (port_key port) (listeners_by_key all)))
          _ (listener-Ends (lookup (port_key port) (listeners_by_key all)) s refl answered)
          (λ l s1 begun1 origin.
            Ends-mono
              (λ _ h x. record {
                listener = l;
                origin = x.0;
                guarded = x.1.0;
                pool = x.1.1.0;
                ensured = x.1.1.1.0;
                members = x.1.1.1.1.0;
                monitor = x.1.1.1.1.1;
              })
              (Ends-frame (ListenerOf-Lasts w balancer name settings service nodes port l) origin (
                Ends-bind_since
                  (λ _ h.
                    Guarded w balancer.id l name service port ranges h
                    × ((p : Pool) × (Ensured w l name settings service port p h
                          × (Synced w balancer name settings service nodes start port p h
                              × Settled w balancer.id p name settings port service h))))
                  s1 begun1 (reconcile_ip_group w balancer.id l name service port) _
                  (reconcile_ip_group-Guarded laws balancer.id l name service port s1)
                  (λ _ s2 begun2 guarded.
                    Ends-frame (Guarded-Lasts w balancer.id l name service port ranges) guarded (
                      Ends-bind_since _ s2 begun2
                        (ensure_pool w balancer.id l name settings service port) _ (pool-Ends l s2)
                        (λ p s3 begun3 ensured.
                          Ends-mono (λ _ h x. (p, x))
                            (Ends-frame (Ensured-Lasts w l name settings service port p) ensured (
                              Ends-bind _ s3
                                (reconcile_members w balancer p.id port.node_port nodes) _
                                (members-Ends p s3 begun3)
                                (λ _ s4 _ members.
                                  Ends-frame
                                    (Synced-Lasts w balancer name settings service nodes start port
                                      p)
                                    members
                                    (reconcile_monitor-Settled laws balancer.id p name settings port
                                      service s4))))))))))
