-- ===== src/Elb/Reconcile/Served/Whole.antt =====
-- reconcile as a whole.
use cloud_provider_opentelek.Base.{◌≡◌, false, List, [], ◌∷◌, In, first, later, arith}
use cloud_provider_opentelek.Text.{Text}
use cloud_provider_opentelek.Kube.{Service, ServicePort, Node}
use cloud_provider_opentelek.Settings.{ServiceSettings}
use cloud_provider_opentelek.Cloud.{
  World, WaitLaws, OrderLaws, State, Call, ok, Listener, LoadBalancer,
}
use cloud_provider_opentelek.Cloud.Exec.Ends.{
  Lasts, Lasts-implies, Ends, Ends-mono, Ends-frame, Ends-pure, Ends-if, Ends-bind, Ends-bind_since,
  Any,
}
use cloud_provider_opentelek.Cloud.Exec.Sends.{Extends}
use cloud_provider_opentelek.Cloud.Exec.Gone.{Answered-Lasts}
use cloud_provider_opentelek.Cloud.Exec.Answers.{Answered}
use cloud_provider_opentelek.Elb.Names.{listeners_by_key}
use cloud_provider_opentelek.Elb.Listeners.{list_listeners}
use cloud_provider_opentelek.Elb.Listeners.Cleared.{Cleared, Cleared-Lasts}
use cloud_provider_opentelek.Elb.Listeners.Cleared.Pools.{list_listeners-Ends}
use cloud_provider_opentelek.Elb.Listeners.Cleared.Whole.{delete_listener-Cleared}
use cloud_provider_opentelek.Elb.Reconcile.{
  is_stale, wanted_keys, reconcile_port, reconcile_ports, delete_stale, reconcile,
}
use cloud_provider_opentelek.Elb.Reconcile.Permits.{Stale}
use cloud_provider_opentelek.Elb.Reconcile.Served.{Served, Served-Lasts, Reconciled}
use cloud_provider_opentelek.Elb.Reconcile.Served.Ports.{reconcile_port-Served}
use cloud_provider_opentelek.Elb.Members.Known.{MemberLaws}

module _ {w : World} (laws : WaitLaws w) (orders : OrderLaws w)
    (members : (pool_id : Text) → MemberLaws w pool_id) (balancer : LoadBalancer) (name : Text)
    (settings : ServiceSettings) (service : Service) (nodes : List Node) where
  abbrev IsServed : List Call → ServicePort → List Call → Type 0
  IsServed = Served w balancer name settings service nodes

  abbrev AllServed : List Call → List ServicePort → List Call → Type 0
  AllServed start ports h = (port : ServicePort) → In port ports → IsServed start port h

  one_more :
      {start : List Call} (port : ServicePort) (ports : List ServicePort) (h : List Call)
      → IsServed start port h
      → AllServed start ports h
      → AllServed start (port ∷ ports) h
  one_more port ports h served others _ first = served
  one_more port ports h served others x (later _ i) = others x i

  ports-Served :
      {start : List Call} (all : List Listener) (ports : List ServicePort) (s : State)
      → Extends Any start s.calls
      → ((port : ServicePort) → In port ports → In port service.ports)
      → Answered w (Call.list_listeners balancer.id) (ok all) s.calls
      → Ends
          (λ _ h. AllServed start ports h)
          (reconcile_ports w balancer name settings service nodes (listeners_by_key all) ports)
          s
  unfolding reconcile_ports
  ports-Served all [] s begun inside listed = Ends-pure _ s tt (λ port i. elim i [ ])
  ports-Served {start} all (port ∷ ports) s begun inside listed =
      let stays = Answered-Lasts w (Call.list_listeners balancer.id) (ok all) in
      Ends-bind_since _ s begun
        (reconcile_port w balancer name settings service nodes (listeners_by_key all) port) _
        (Ends-frame stays listed (
          reconcile_port-Served laws orders members balancer name settings service nodes start all
            port (inside port first) s begun listed))
        (λ _ t begun1 both.
          Ends-mono (λ _ h x. one_more port ports h x.0 x.1)
            (Ends-frame (Served-Lasts w balancer name settings service nodes start port) both.1
              (ports-Served all ports t begun1 (λ p i. inside p (later port i)) both.0)))

  abbrev StaleCleared : List Listener → List Call → Type 0
  StaleCleared xs h = (l : Listener) → In l xs → Stale name service l → Cleared w name l h

  one_less :
      (l : Listener) (xs : List Listener) (h : List Call)
      → (Stale name service l → Cleared w name l h)
      → StaleCleared xs h
      → StaleCleared (l ∷ xs) h
  one_less l xs h gone others _ first stale = gone stale
  one_less l xs h gone others x (later _ i) stale = others x i stale

  not-Stale :
      (l : Listener) → is_stale name (wanted_keys service) l ≡ false → ¬ Stale name service l
  unfolding is_stale
  not-Stale l no_stale (owned, unwanted) = ground arith

  stale-Cleared :
      (xs : List Listener) (s : State)
      → Ends
          (λ _ h. StaleCleared xs h)
          (delete_stale w balancer name settings service nodes (wanted_keys service) xs)
          s
  unfolding delete_stale
  stale-Cleared [] s = Ends-pure _ s tt (λ l i. elim i [ ])
  stale-Cleared (l ∷ xs) s =
      Ends-bind _ s _ _
        (Ends-if (λ _ h. Stale name service l → Cleared w name l h) s
          (is_stale name (wanted_keys service) l) _ _
          (λ _. Ends-mono (λ _ h x _. x) (delete_listener-Cleared laws balancer.id name l s))
          (λ current. Ends-pure _ s tt (λ stale. absurd (not-Stale l current stale))))
        (λ _ t _ gone.
          Ends-mono (λ _ h x. one_less l xs h x.0 x.1)
            (Ends-frame (Lasts-implies (Cleared-Lasts w name l)) gone (stale-Cleared xs t)))

  AllServed-Lasts : (start : List Call) (ports : List ServicePort) → Lasts (AllServed start ports)
  AllServed-Lasts start ports h h' e all port i =
      Served-Lasts w balancer name settings service nodes start port h h' e (all port i)

  pub reconcile-Reconciled :
      {start : List Call} (s : State)
      → Extends Any start s.calls
      → Ends
          (λ _ h. Reconciled w balancer name settings service nodes start h)
          (reconcile w balancer name settings service nodes)
          s
  unfolding reconcile
  reconcile-Reconciled {start} s begun =
      Ends-bind_since _ s begun (list_listeners w balancer.id) _
        (list_listeners-Ends w balancer.id s)
        (λ all s1 begun1 listed.
          Ends-mono (λ _ h x. record { all = all; listed = x.0; served = x.1.0; cleared = x.1.1 })
            (Ends-frame (Answered-Lasts w (Call.list_listeners balancer.id) (ok all)) listed (
              Ends-bind (λ _ h. AllServed start service.ports h × StaleCleared all h) s1
                (reconcile_ports w balancer name settings service nodes (listeners_by_key all)
                  service.ports)
                _ (ports-Served all service.ports s1 begun1 (λ p i. i) listed)
                (λ _ s2 _ served.
                  Ends-frame (AllServed-Lasts start service.ports) served (stale-Cleared all s2)))))
