-- ===== src/Elb/Balancer/Updating.antt =====
-- What UpdateLoadBalancer may send, and that it sends nothing else.
use cloud_provider_opentelek.Base.{◌≡◌, refl, List, [], ◌∷◌, Option, none, some, In, first, later}
use cloud_provider_opentelek.Text.{Text}
use cloud_provider_opentelek.Maps.{lookup}
use cloud_provider_opentelek.Config.{LoadBalancerOpts}
use cloud_provider_opentelek.Kube.{Service, ServicePort, Node}
use cloud_provider_opentelek.Settings.{ServiceSettings, settings_for_service}
use cloud_provider_opentelek.Cloud.{
  fail, World, WaitLaws, State, M, Reason, Call, Result, ok, err, panic, LoadBalancer, Listener,
  Pool, send, throw, or_wrap,
}
use cloud_provider_opentelek.Cloud.Exec.Sends.{
  Sends, Sends-mono, Sends-pure, Sends-throw, Sends-send, Sends-bind, Sends-or_wrap, sends_rules,
}
use cloud_provider_opentelek.Cloud.Exec.Answers.{Answered, Answered-Extends, bind-lift_ok}
use cloud_provider_opentelek.Elb.Names.{
  load_balancer_name, port_key, listener_key, listeners_by_key,
}
use cloud_provider_opentelek.Elb.Names.Keys.{found_is_listed}
use cloud_provider_opentelek.Elb.LoadBalancers.{find_load_balancer}
use cloud_provider_opentelek.Elb.Listeners.{list_listeners}
use cloud_provider_opentelek.Elb.Listeners.Permits.{
  Listed, Listed-Extends, PoolOf, PoolOf-Extends, list_listeners-Answered, find_pool-PoolOf,
}
use cloud_provider_opentelek.Elb.Pools.{find_pool_for_listener, pool_or_none}
use cloud_provider_opentelek.Elb.Members.{reconcile_members}
use cloud_provider_opentelek.Elb.Members.Sent.{Syncing, reconcile_members-Sends}
use cloud_provider_opentelek.Elb.Balancer.{
  update_pool_of, update_ports, update_found, update_load_balancer,
}
use cloud_provider_opentelek.Elb.Balancer.Found.{Found, Found-Extends, find_load_balancer-Found}
use cloud_provider_opentelek.Elb.Balancer.Reading.{Reading, find_load_balancer-Sends}

module _ (w : World) (settings : ServiceSettings) (name : Text) (service : Service)
    (nodes : List Node) where
  -- Reads, and the sync of the members of the pool of a listener that the cloud has listed for the load
  -- balancer of the Service under the key of one of its ports.
  pub data Updating (h : List Call) : Call → Type 0 where
    reads : (c : Call) → Reading name h c → Updating h c
    lists : (id : Text) → Updating h (Call.list_listeners id)
    reads_listener : (id : Text) → Updating h (Call.get_listener id)
    reads_pool : (id : Text) → Updating h (Call.get_pool id)
    syncs :
        (c : Call) (b : LoadBalancer) (port : ServicePort) (l : Listener) (p : Pool)
        → Found w settings name b h
        → In port service.ports
        → Listed w b.id l h
        → listener_key l ≡ port_key port
        → PoolOf w l.id p h
        → Syncing w b.id p.id port.node_port nodes h c
        → Updating h c

module _ {w : World} (laws : WaitLaws w) (settings : ServiceSettings) (opts : LoadBalancerOpts)
    (cluster : Text) (service : Service) (nodes : List Node) where
  abbrev name : Text
  name = load_balancer_name cluster service

  abbrev F : List Call → Call → Type 0
  F = Updating w settings name service nodes

  pool_or_none-Sends : (id : Text) (r : Result Pool) (s : State) → Sends F (pool_or_none w id r) s
  pool_or_none-Sends id (ok pool) s = search sends_rules
  pool_or_none-Sends id (err e) s = search sends_rules
  pool_or_none-Sends id panic s = search sends_rules

  find_pool-Sends : (id : Text) (s : State) → Sends F (find_pool_for_listener w id) s
  unfolding find_pool_for_listener
  find_pool-Sends id s =
      search (sends_rules, pool_or_none-Sends, Updating.reads_listener, Updating.reads_pool) depth
        12

  module _ (b : LoadBalancer) where
    sync-Sends :
        (port : ServicePort) (l : Listener) (p : Pool) (s : State)
        → Found w settings name b s.calls
        → In port service.ports
        → Listed w b.id l s.calls
        → listener_key l ≡ port_key port
        → PoolOf w l.id p s.calls
        → Sends F (reconcile_members w b p.id port.node_port nodes) s
    sync-Sends port l p s found i listed key pooled =
        Sends-mono
          (λ h c e q.
            syncs c b port l p (Found-Extends e found) i (Listed-Extends w e listed) key
              (PoolOf-Extends w e pooled) q)
          (reconcile_members-Sends laws b p.id port.node_port nodes s)

    with_pool-Sends :
        (port : ServicePort) (l : Listener) (pool : Option Pool) (s : State)
        → Found w settings name b s.calls
        → In port service.ports
        → Listed w b.id l s.calls
        → listener_key l ≡ port_key port
        → ((p : Pool) → pool ≡ some p → PoolOf w l.id p s.calls)
        → Sends F
            (elim pool as (λ _. M Unit) [
              | none ↦ throw (fail (Reason.pool_of_listener_not_found l.id))
              | some p ↦ reconcile_members w b p.id port.node_port nodes
            ])
            s
    with_pool-Sends port l none s found i listed key pooled = Sends-throw s _
    with_pool-Sends port l (some p) s found i listed key pooled =
        sync-Sends port l p s found i listed key (pooled p refl)

    update_pool_of-Sends :
        (all : List Listener) (port : ServicePort) (o : Option Listener) (s : State)
        → lookup (port_key port) (listeners_by_key all) ≡ o
        → Found w settings name b s.calls
        → In port service.ports
        → Answered w (Call.list_listeners b.id) (ok all) s.calls
        → Sends F (update_pool_of w opts cluster service b nodes port o) s
    unfolding update_pool_of
    update_pool_of-Sends all port none s e found i listed = Sends-throw s _
    update_pool_of-Sends all port (some l) s e found i listed =
        let (member, key) = found_is_listed (port_key port) all l e in
        Sends-bind s (find_pool_for_listener w l.id) _ (find_pool-Sends l.id s) (λ pool t r.
          with_pool-Sends port l pool t (Found-Extends r.trace found) i
            (Listed-Extends w r.trace (record { all = all; answered = listed; member = member }))
            key (λ p is_p. find_pool-PoolOf w l.id s t p (rw is_p at r.result)))

    update_ports-Sends :
        (all : List Listener) (ports : List ServicePort) (s : State)
        → ((port : ServicePort) → In port ports → In port service.ports)
        → Found w settings name b s.calls
        → Answered w (Call.list_listeners b.id) (ok all) s.calls
        → Sends F (update_ports w opts cluster service b nodes (listeners_by_key all) ports) s
    unfolding update_ports
    update_ports-Sends all [] s inside found listed = Sends-pure s tt
    update_ports-Sends all (port ∷ ports) s inside found listed =
        Sends-bind s _ _ (update_pool_of-Sends all port _ s refl found (inside port first) listed)
          (λ _ t r.
            update_ports-Sends all ports t (λ p i. inside p (later port i))
              (Found-Extends r.trace found) (Answered-Extends _ _ r.trace listed))

  lists-Sends : (id : Text) (s : State) → Sends F (list_listeners w id) s
  unfolding list_listeners
  lists-Sends id s = search (sends_rules, Updating.lists) depth 12

  update_found-Sends :
      (found : Option LoadBalancer) (s : State)
      → ((b : LoadBalancer) → found ≡ some b → Found w settings name b s.calls)
      → Sends F (update_found w opts cluster service nodes found) s
  unfolding update_found
  update_found-Sends none s origin = Sends-throw s _
  update_found-Sends (some b) s origin =
      Sends-bind s (list_listeners w b.id) _ (lists-Sends b.id s) (λ all t r.
        update_ports-Sends b all service.ports t (λ p i. i) (Found-Extends r.trace (origin b refl))
          (list_listeners-Answered w b.id s t all r.result))

  -- With annotations that parse, UpdateLoadBalancer sends, whatever the cloud answers and wherever it fails,
  -- only what `Updating` permits: reads, and the sync of the members of a pool whose listener the cloud
  -- listed for the load balancer that was found, under the key of a port.
  pub update_load_balancer-Sends :
      (s : State)
      → settings_for_service opts service ≡ ok settings
      → Sends F (update_load_balancer w opts cluster service nodes) s
  unfolding update_load_balancer
  update_load_balancer-Sends s e =
      rw (e, bind-lift_ok)
        (Sends-bind s (or_wrap Reason.elb_client (send w Call.elb_service)) _
          (Sends-or_wrap s _ _ (Sends-send s w Call.elb_service (reads Call.elb_service tt)))
          (λ _ s1 _.
            Sends-bind s1 (find_load_balancer w settings name) _
              (Sends-mono (λ h c _ p. reads c p) (find_load_balancer-Sends w name settings s1))
              (λ found s2 r2. update_found-Sends found s2 (λ b is_b.
                find_load_balancer-Found w settings name s1 s2 b (rw is_b at r2.result)))))
