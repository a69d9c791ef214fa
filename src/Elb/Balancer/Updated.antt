-- ===== src/Elb/Balancer/Updated.antt =====
-- What a successful UpdateLoadBalancer has brought about.
use cloud_provider_opentelek.Base.{
  ◌≡◌, refl, List, [], ◌∷◌, Option, none, some, In, first, later, subst,
}
use cloud_provider_opentelek.Text.{Text}
use cloud_provider_opentelek.Maps.{lookup}
use cloud_provider_opentelek.Config.{LoadBalancerOpts}
use cloud_provider_opentelek.Kube.{Service, ServicePort, Node}
use cloud_provider_opentelek.Settings.{ServiceSettings, settings_for_service}
use cloud_provider_opentelek.Cloud.{
  fail, World, WaitLaws, OrderLaws, State, M, Reason, Call, ok, LoadBalancer, Listener, Pool, send,
  lift, throw,
}
use cloud_provider_opentelek.Cloud.Exec.Ends.{
  Any-trace, Lasts, Lasts-both, Ends, Ends-mono, Ends-frame, Ends-pure, Ends-throw, Ends-lift,
  Ends-or_wrap, Ends-bind_since, Any,
}
use cloud_provider_opentelek.Cloud.Exec.Gone.{Answered-Lasts, Ends-send_answer}
use cloud_provider_opentelek.Cloud.Exec.Answers.{Answered}
use cloud_provider_opentelek.Elb.Names.{
  load_balancer_name, port_key, listener_key, listeners_by_key,
}
use cloud_provider_opentelek.Elb.Names.Keys.{found_is_listed}
use cloud_provider_opentelek.Elb.Pools.{find_pool_for_listener}
use cloud_provider_opentelek.Elb.Members.{reconcile_members}
use cloud_provider_opentelek.Elb.Members.Sent.{reconcile_members-Sends}
use cloud_provider_opentelek.Elb.LoadBalancers.{elb_client, find_load_balancer}
use cloud_provider_opentelek.Elb.Listeners.{list_listeners}
use cloud_provider_opentelek.Elb.Listeners.Permits.{PoolOf}
use cloud_provider_opentelek.Elb.Listeners.Cleared.{PoolOf-Lasts}
use cloud_provider_opentelek.Elb.Listeners.Cleared.Pools.{
  FoundPool, find_pool-Ends, list_listeners-Ends,
}
use cloud_provider_opentelek.Elb.Reconcile.Served.{Synced, Synced-Lasts}
use cloud_provider_opentelek.Elb.Balancer.{
  update_pool_of, update_ports, update_found, update_load_balancer,
}
use cloud_provider_opentelek.Elb.Balancer.Found.{Found, Found-Extends}
use cloud_provider_opentelek.Elb.Balancer.Cleared.Search.{Looked, find_load_balancer-Ends}
use cloud_provider_opentelek.Elb.Members.Known.{MemberLaws}
use cloud_provider_opentelek.Cloud.Exec.Sends.{same, Extends, Extends-trans}
use cloud_provider_opentelek.Elb.Members.Known.Exact.{reconcile_members-exact}

module _ (w : World) (settings : ServiceSettings) (name : Text) (service : Service)
    (nodes : List Node) where
  -- One of the listeners has the key of the port and a pool whose members were exactly those of the nodes.
  pub record PortUpdated (start : List Call) (balancer : LoadBalancer) (all : List Listener)
      (port : ServicePort) (h : List Call) : Type 0 where
    pub listener : Listener
    pub among : In listener all
    pub same_key : listener_key listener ≡ port_key port
    pub pool : Pool
    pub pool_read : PoolOf w listener.id pool h
    pub members : Synced w balancer name settings service nodes start port pool h

  -- The load balancer was found, and what it should do is done for each port.
  pub record Updated (start : List Call) (h : List Call) : Type 0 where
    pub balancer : LoadBalancer
    pub found : Found w settings name balancer h
    pub all : List Listener
    pub listed : Answered w (Call.list_listeners balancer.id) (ok all) h
    pub ports : (port : ServicePort) → In port service.ports → PortUpdated start balancer all port h

  PortUpdated-Lasts :
      (start : List Call) (b : LoadBalancer) (all : List Listener) (port : ServicePort)
      → Lasts (PortUpdated start b all port)
  PortUpdated-Lasts start b all port h h' e x = record {
    listener = x.listener;
    among = x.among;
    same_key = x.same_key;
    pool = x.pool;
    pool_read = PoolOf-Lasts w x.listener.id x.pool h h' e x.pool_read;
    members = Synced-Lasts w b name settings service nodes start port x.pool h h' e x.members;
  }

module _ {w : World} (laws : WaitLaws w) (orders : OrderLaws w)
    (members : (pool_id : Text) → MemberLaws w pool_id) (opts : LoadBalancerOpts) (cluster : Text)
    (service : Service) (nodes : List Node) where
  abbrev name : Text
  name = load_balancer_name cluster service

  module _ (settings : ServiceSettings) (start : List Call) where
    abbrev IsUpdated : LoadBalancer → List Listener → ServicePort → List Call → Type 0
    IsUpdated = PortUpdated w settings name service nodes start

    with_pool-Ends :
        (b : LoadBalancer) (all : List Listener) (port : ServicePort) (l : Listener)
        (found : Option Pool) (s : State)
        → Extends Any start s.calls
        → In l all
        → listener_key l ≡ port_key port
        → FoundPool w l.id found s.calls
        → Ends
            (λ _ h. IsUpdated b all port h)
            (elim found as (λ _. M (Unit {0})) [
              | none ↦ throw (fail (Reason.pool_of_listener_not_found l.id))
              | some pool ↦ reconcile_members w b pool.id port.node_port nodes
            ])
            s
    with_pool-Ends b all port l none s begun i k x = Ends-throw _ s _
    with_pool-Ends b all port l (some pool) s begun i k x =
        let sent : Extends Any s.calls
            (reconcile_members w b pool.id port.node_port nodes s).1.calls =
          Any-trace (reconcile_members-Sends laws b pool.id port.node_port nodes s) in
        Ends-mono
          (λ _ h both. record {
            listener = l;
            among = i;
            same_key = k;
            pool = pool;
            pool_read = both.0;
            members = both.1;
          })
          (Ends-frame (PoolOf-Lasts w l.id pool) x (record {
            trace = sent;
            goal = λ _ s' run. (
              s'.calls,
              Extends-trans begun (subst (λ x. Extends Any s.calls x.1.calls) run sent),
              same,
              reconcile_members-exact laws orders (members pool.id) b port.node_port nodes s s' run,
            );
          }))

    update_pool-Ends :
        (b : LoadBalancer) (all : List Listener) (port : ServicePort) (o : Option Listener)
        (s : State)
        → Extends Any start s.calls
        → lookup (port_key port) (listeners_by_key all) ≡ o
        → Ends
            (λ _ h. IsUpdated b all port h)
            (update_pool_of w opts cluster service b nodes port o)
            s
    unfolding update_pool_of
    update_pool-Ends b all port none s begun e = Ends-throw _ s _
    update_pool-Ends b all port (some l) s begun e =
        let (i, k) = found_is_listed (port_key port) all l e in
        Ends-bind_since _ s begun (find_pool_for_listener w l.id) _ (find_pool-Ends w l.id s)
          (λ found t begun1 x. with_pool-Ends b all port l found t begun1 i k x)

    abbrev AllUpdated : LoadBalancer → List Listener → List ServicePort → List Call → Type 0
    AllUpdated b all ports h = (port : ServicePort) → In port ports → IsUpdated b all port h

    one_more :
        (b : LoadBalancer) (all : List Listener) (port : ServicePort) (ports : List ServicePort)
        (h : List Call)
        → IsUpdated b all port h
        → AllUpdated b all ports h
        → AllUpdated b all (port ∷ ports) h
    one_more b all port ports h x others _ first = x
    one_more b all port ports h x others p (later _ i) = others p i

    update_ports-Ends :
        (b : LoadBalancer) (all : List Listener) (ports : List ServicePort) (s : State)
        → Extends Any start s.calls
        → Ends
            (λ _ h. AllUpdated b all ports h)
            (update_ports w opts cluster service b nodes (listeners_by_key all) ports)
            s
    unfolding update_ports
    update_ports-Ends b all [] s begun = Ends-pure _ s tt (λ port i. elim i [ ])
    update_ports-Ends b all (port ∷ ports) s begun =
        Ends-bind_since _ s begun
          (update_pool_of w opts cluster service b nodes port
            (lookup (port_key port) (listeners_by_key all)))
          _
          (update_pool-Ends b all port (lookup (port_key port) (listeners_by_key all)) s begun refl)
          (λ _ t begun1 x.
            Ends-mono (λ _ h both. one_more b all port ports h both.0 both.1)
              (Ends-frame (PortUpdated-Lasts w settings name service nodes start b all port) x
                (update_ports-Ends b all ports t begun1)))

    Found-Lasts : (b : LoadBalancer) → Lasts (Found w settings name b)
    Found-Lasts b h h' e x = Found-Extends e x

    update_found-Ends :
        (found : Option LoadBalancer) (s : State)
        → Extends Any start s.calls
        → Looked w settings name found s.calls
        → Ends
            (λ _ h. Updated w settings name service nodes start h)
            (update_found w opts cluster service nodes found)
            s
    unfolding update_found
    update_found-Ends none s begun x = Ends-throw _ s _
    update_found-Ends (some b) s begun x =
        Ends-bind_since _ s begun (list_listeners w b.id) _
          (Ends-frame (Found-Lasts b) x (list_listeners-Ends w b.id s))
          (λ all t begun1 read.
            Ends-mono
              (λ _ h y. record {
                balancer = b;
                found = y.0.0;
                all = all;
                listed = y.0.1;
                ports = y.1;
              })
              (Ends-frame
                (Lasts-both (Found-Lasts b) (Answered-Lasts w (Call.list_listeners b.id) (ok all)))
                read (update_ports-Ends b all service.ports t begun1)))

  update-Ends :
      {start : List Call} (s : State)
      → Extends Any start s.calls
      → Ends
          (λ _ h.
            (settings : ServiceSettings) × (settings_for_service opts service ≡ ok settings)
            × Updated w settings name service nodes start h)
          (update_load_balancer w opts cluster service nodes)
          s
  unfolding update_load_balancer
  update-Ends {start} s begun =
      Ends-bind_since _ s begun (lift (settings_for_service opts service)) _
        (Ends-lift (λ settings h. settings_for_service opts service ≡ ok settings) s
          (settings_for_service opts service) (λ settings e. e))
        (λ settings s1 begun1 parses.
          Ends-mono (λ _ h x. (settings, parses, x))
            (Ends-bind_since (λ _ h. Updated w settings name service nodes start h) s1 begun1
              (elb_client w) _
              (Ends-or_wrap _ s1 Reason.elb_client (send w Call.elb_service)
                (Ends-send_answer w Call.elb_service s1))
              (λ _ s2 begun2 _.
                Ends-bind_since _ s2 begun2 (find_load_balancer w settings name) _
                  (find_load_balancer-Ends w settings name s2)
                  (λ found s3 begun3 looked.
                    update_found-Ends settings start found s3 begun3 looked))))

  -- After UpdateLoadBalancer succeeds, the load balancer of the Service was found, and for each port a listed
  -- listener has the key of the port, and a pool whose members were at one point of the run, by the answers of
  -- the cloud, exactly the addresses of the nodes with the node port. Waits are attempts of their test (`laws`),
  -- a range over a map visits each key (`orders`), and a member is created as asked for, keeps its address and
  -- port, and has no double in a listing (`members`).
  pub update_load_balancer-Updated :
      (s s' : State)
      → update_load_balancer w opts cluster service nodes s ≡ (ok tt, s')
      → (settings : ServiceSettings) × (settings_for_service opts service ≡ ok settings)
        × Updated w settings name service nodes s.calls s'.calls
  update_load_balancer-Updated s s' e = (update-Ends s same).goal tt s' e
