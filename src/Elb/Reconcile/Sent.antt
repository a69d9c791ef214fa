-- ===== src/Elb/Reconcile/Sent.antt =====
-- reconcile sends what it may, and nothing else.
use cloud_provider_opentelek.Base.{
  ◌≡◌, refl, true, List, [], ◌∷◌, Option, none, some, In, first, later, arith,
}
use cloud_provider_opentelek.Base.Int.{pos, ltb_ℤ}
use cloud_provider_opentelek.Text.{Text}
use cloud_provider_opentelek.Maps.{lookup}
use cloud_provider_opentelek.Kube.{Service, ServicePort, Node}
use cloud_provider_opentelek.Settings.{ServiceSettings}
use cloud_provider_opentelek.Cloud.{
  World, WaitLaws, State, Call, Result, ok, err, panic, Listener, LoadBalancer, send,
}
use cloud_provider_opentelek.Cloud.Exec.Sends.{
  Extends, same, Extends-trans, Sends, Sends-mono, Sends-pure, Sends-throw, Sends-lift, Sends-if,
  Sends-send, Sends-attempt, Sends-bind, Sends-or_wrap, Sends-modify, sends_rules,
}
use cloud_provider_opentelek.Cloud.Exec.Answers.{Answered, Answered-Extends}
use cloud_provider_opentelek.Elb.Names.{port_key, listeners_by_key}
use cloud_provider_opentelek.Elb.Wait.Sent.{mutate-Sends}
use cloud_provider_opentelek.Elb.Members.Sent.{reconcile_members-Sends}
use cloud_provider_opentelek.Elb.Monitors.{desired_probe}
use cloud_provider_opentelek.Elb.Monitors.Sent.{reconcile_monitor-Sends}
use cloud_provider_opentelek.Elb.Listeners.{
  list_listeners, listener_opts, create_listener, captured_listener, assign_listener,
  update_idle_timeout, deref,
}
use cloud_provider_opentelek.Elb.Listeners.Permits.{list_listeners-Answered}
use cloud_provider_opentelek.Elb.Listeners.Teardown.{delete_listener-Sends}
use cloud_provider_opentelek.Elb.Reconcile.{
  is_stale, wanted_keys, ensure_listener, reconcile_port, reconcile_ports, delete_stale, reconcile,
}
use cloud_provider_opentelek.Elb.Reconcile.Permits.{
  Stale, Reconciling, Teardown-Reconciling, Syncing-Reconciling, Probing-Reconciling,
}
use cloud_provider_opentelek.Elb.Reconcile.Ports.{reconcile_ip_group-Sends}
use cloud_provider_opentelek.Elb.Reconcile.Pools.{ensure_pool-Sends}

module _ {w : World} (laws : WaitLaws w) (balancer : LoadBalancer) (name : Text)
    (settings : ServiceSettings) (service : Service) (nodes : List Node) where
  abbrev R : List Call → Call → Type 0
  R = Reconciling w balancer.id name service nodes

  assign_listener-Sends : (r : Result Listener) (s : State) → Sends R (assign_listener r) s
  unfolding assign_listener
  assign_listener-Sends (ok l) s = Sends-modify s _ refl
  assign_listener-Sends (err e) s =
      Sends-bind s _ _ (Sends-modify s _ refl) (λ _ t _. Sends-throw t e)
  assign_listener-Sends panic s = Sends-lift s panic

  captured-Sends : (s : State) → Sends R captured_listener s
  unfolding captured_listener
  captured-Sends s = record { trace = go s.listener }
    where
      go : (l : Option Listener) → Extends R s.calls (deref l s).1.calls
      go none = same
      go (some l) = same

  module _ (all : List Listener) where
    abbrev Lists : List Call → Type 0
    Lists = Answered w (Call.list_listeners balancer.id) (ok all)

    pub create_listener-Sends :
        (port : ServicePort) (s : State)
        → In port service.ports
        → lookup (port_key port) (listeners_by_key all) ≡ none
        → Lists s.calls
        → Sends R (create_listener w balancer.id name settings port) s
    unfolding create_listener
    create_listener-Sends port s is_port missing listed =
        let c : Call = Call.create_listener (listener_opts w balancer.id name settings port) in
        Sends-bind s _ _ (Sends-modify s _ refl) (λ _ s1 r1.
          Sends-bind s1 _ _
            (Sends-or_wrap s1 _ _ (
              mutate-Sends laws balancer.id (λ h. tt) _ s1
                (λ t e.
                  let permitted : R t.calls c = (
                    port,
                    is_port,
                    all,
                    Answered-Extends _ _ (Extends-trans r1.trace e) listed,
                    missing,
                    refl,
                    refl,
                    refl,
                    refl,
                  ) in
                  Sends-bind t _ _ (Sends-attempt t (send w c) (Sends-send t w c permitted))
                    (λ reply u _. assign_listener-Sends reply u))))
            (λ _ s2 _. captured-Sends s2))

    pub ensure_listener-Sends :
        (port : ServicePort) (found : Option Listener) (s : State)
        → In port service.ports
        → lookup (port_key port) (listeners_by_key all) ≡ found
        → Lists s.calls
        → Sends R (ensure_listener w balancer name settings service nodes port found) s
    unfolding ensure_listener update_idle_timeout
    ensure_listener-Sends port none s is_port e listed =
        create_listener-Sends port s is_port e listed
    ensure_listener-Sends port (some l) s is_port e listed =
        Sends-if s (ltb_ℤ (pos 0) settings.idle_timeout) _ _
          (λ _.
            Sends-bind s _ _
              (Sends-or_wrap s _ _
                (mutate-Sends laws balancer.id (λ h. tt) _ s (λ t e. search sends_rules)))
              (λ _ t _. Sends-pure t l))
          (λ _. Sends-pure s l)

    reconcile_port-Sends :
        (port : ServicePort) (s : State)
        → In port service.ports
        → Lists s.calls
        → Sends R
            (reconcile_port w balancer name settings service nodes (listeners_by_key all) port)
            s
    unfolding reconcile_port
    reconcile_port-Sends port s is_port listed =
        Sends-bind s _ _ (ensure_listener-Sends port _ s is_port refl listed) (λ l s1 _.
          Sends-bind s1 _ _
            (reconcile_ip_group-Sends laws balancer.id name service nodes l port is_port s1)
            (λ _ s2 _.
              Sends-bind s2 _ _
                (ensure_pool-Sends laws balancer.id name settings service nodes l port s2)
                (λ pool s3 _.
                  Sends-bind s3 _ _
                    (Sends-mono
                      (λ h c _ p.
                        Syncing-Reconciling w balancer.id name service nodes port pool.id h c
                          is_port p)
                      (reconcile_members-Sends laws balancer pool.id port.node_port nodes s3))
                    (λ _ s4 _.
                      Sends-mono
                        (λ h c _ p.
                          Probing-Reconciling w balancer.id name service nodes pool settings
                            (desired_probe settings service port) h c p)
                        (reconcile_monitor-Sends laws pool name settings service port balancer.id
                          s4)))))

    reconcile_ports-Sends :
        (ports : List ServicePort) (s : State)
        → ((port : ServicePort) → In port ports → In port service.ports)
        → Lists s.calls
        → Sends R
            (reconcile_ports w balancer name settings service nodes (listeners_by_key all) ports)
            s
    unfolding reconcile_ports
    reconcile_ports-Sends [] s inside listed = Sends-pure s tt
    reconcile_ports-Sends (port ∷ ports) s inside listed =
        Sends-bind s _ _ (reconcile_port-Sends port s (inside port first) listed) (λ _ t r.
          reconcile_ports-Sends ports t (λ p i. inside p (later port i))
            (Answered-Extends _ _ r.trace listed))

    is_stale-Stale :
        (l : Listener) → is_stale name (wanted_keys service) l ≡ true → Stale name service l
    unfolding is_stale
    is_stale-Stale l stale = (ground arith, ground arith)

    delete_stale-Sends :
        (listeners : List Listener) (s : State)
        → ((l : Listener) → In l listeners → In l all)
        → Lists s.calls
        → Sends R
            (delete_stale w balancer name settings service nodes (wanted_keys service) listeners)
            s
    unfolding delete_stale
    delete_stale-Sends [] s inside listed = Sends-pure s tt
    delete_stale-Sends (l ∷ listeners) s inside listed =
        Sends-bind s _ _
          (Sends-if s (is_stale name (wanted_keys service) l) _ _
            (λ stale.
              Sends-mono (λ h c _ t. Teardown-Reconciling w balancer.id name service nodes h c t)
                (delete_listener-Sends laws balancer.id name (Stale name service) l s
                  (is_stale-Stale l stale)
                  (record { all = all; answered = listed; member = inside l first })))
            (λ _. Sends-pure s tt))
          (λ _ t r.
            delete_stale-Sends listeners t (λ x i. inside x (later l i))
              (Answered-Extends _ _ r.trace listed))

  lists-Sends : (s : State) → Sends R (list_listeners w balancer.id) s
  unfolding list_listeners
  lists-Sends s = Sends-bind s _ _ (search sends_rules) (λ pages t _. Sends-lift t pages)

  -- Whatever the cloud answers, and wherever it fails, reconcile sends only what `Reconciling` permits: a
  -- listener is created for a port for which the cloud listed none, listeners and pools are deleted where
  -- the listener is a stale one of the Service, members change as `Syncing` and `Teardown` permit, IP groups
  -- under a name of the Service; load balancers and EIPs are left alone.
  pub reconcile-Sends : (s : State) → Sends R (reconcile w balancer name settings service nodes) s
  unfolding reconcile
  reconcile-Sends s = Sends-bind s (list_listeners w balancer.id) _ (lists-Sends s) (λ all s1 r1.
      let listed = list_listeners-Answered w balancer.id s s1 all r1.result in
      Sends-bind s1 _ _ (reconcile_ports-Sends all service.ports s1 (λ p i. i) listed) (λ _ s2 r2.
        delete_stale-Sends all all s2 (λ l i. i) (Answered-Extends _ _ r2.trace listed)))
