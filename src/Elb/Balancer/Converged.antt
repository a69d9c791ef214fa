-- ===== src/Elb/Balancer/Converged.antt =====
-- What a successful EnsureLoadBalancer has brought about.
use cloud_provider_opentelek.Base.{◌≡◌, refl, true, List, Option, none, some, ◌∷◌}
use cloud_provider_opentelek.Text.{Text}
use cloud_provider_opentelek.Config.{LoadBalancerOpts, is_empty}
use cloud_provider_opentelek.Kube.{Service, ServicePort, Node}
use cloud_provider_opentelek.Settings.{ServiceSettings, settings_for_service, none_of}
use cloud_provider_opentelek.Cloud.{
  World, WaitLaws, OrderLaws, State, Reason, Call, ok, LoadBalancer, send, lift, or_wrap, ◌>>=◌,
  pure,
}
use cloud_provider_opentelek.Cloud.Exec.Ends.{
  Any, Lasts, Ends, Ends-mono, Ends-frame, Ends-pure, Ends-throw, Ends-lift, Ends-or_wrap, Ends-if,
  Ends-bind, Ends-bind_since, Any-trace, Ends-send,
}
use cloud_provider_opentelek.Cloud.Exec.Sends.{Extends, same}
use cloud_provider_opentelek.Cloud.Exec.Gone.{Ends-send_answer}
use cloud_provider_opentelek.Cloud.Exec.Answers.{Answered, Answered-Extends}
use cloud_provider_opentelek.Elb.Names.{load_balancer_name}
use cloud_provider_opentelek.Elb.Nodes.{lb_status}
use cloud_provider_opentelek.Elb.Wait.{wait_for_active}
use cloud_provider_opentelek.Elb.Wait.Sent.{wait_for_active-Sends}
use cloud_provider_opentelek.Elb.LoadBalancers.{
  is_nil, balancer_opts, elb_client, find_load_balancer, create_load_balancer,
}
use cloud_provider_opentelek.Elb.Reconcile.{reconcile}
use cloud_provider_opentelek.Elb.Reconcile.Served.{Reconciled}
use cloud_provider_opentelek.Elb.Reconcile.Served.Whole.{reconcile-Reconciled}
use cloud_provider_opentelek.Elb.Balancer.{
  invalid_port, rejected, validate_ports, obtain, converge, ensure_load_balancer,
}
use cloud_provider_opentelek.Elb.Balancer.Found.{Found, Found-Extends}
use cloud_provider_opentelek.Elb.Balancer.Cleared.{Absent, Absent-Lasts}
use cloud_provider_opentelek.Elb.Balancer.Cleared.Search.{Looked, find_load_balancer-Ends}
use cloud_provider_opentelek.Elb.Members.Known.{MemberLaws}

module _ (w : World) (settings : ServiceSettings) (name : Text) (service : Service) where
  -- The load balancer was found; or the cloud has shown that there is none, and created it.
  pub data Provided (b : LoadBalancer) (h : List Call) : Type 0 where
    found : Found w settings name b h → Provided b h
    created :
        is_empty settings.load_balancer_id ≡ true
        → Absent w settings name h
        → Answered w (Call.create_balancer (balancer_opts settings name service)) b h
        → Provided b h

  Provided-Lasts : (b : LoadBalancer) → Lasts (Provided b)
  Provided-Lasts b h h' e (found x) = found (Found-Extends e x)
  Provided-Lasts b h h' e (created own gone made) =
      created own (Absent-Lasts w settings name h h' e gone) (Answered-Extends _ _ e made)

  -- The load balancer serves each port, and the status is that of a read after all changes.
  pub record Converged (nodes : List Node) (start : List Call) (status : List Text) (h : List Call)
      : Type 0 where
    pub balancer : LoadBalancer
    pub provided : Provided balancer h
    pub before : List Call
    pub reconciled : Reconciled w balancer name settings service nodes start before
    pub fresh : LoadBalancer
    pub read : w.answer (Call.get_balancer balancer.id) before ≡ ok fresh
    pub last : h ≡ Call.get_balancer balancer.id ∷ before
    pub current : status ≡ lb_status fresh

module _ {w : World} (laws : WaitLaws w) (orders : OrderLaws w)
    (members : (pool_id : Text) → MemberLaws w pool_id) (opts : LoadBalancerOpts) (cluster : Text)
    (service : Service) (nodes : List Node) where
  abbrev name : Text
  name = load_balancer_name cluster service

  module _ (settings : ServiceSettings) where
    abbrev IsProvided : LoadBalancer → List Call → Type 0
    IsProvided = Provided w settings name service

    create-Ends :
        (s : State)
        → Ends
            (λ b h. Answered w (Call.create_balancer (balancer_opts settings name service)) b h)
            (create_load_balancer w settings name service)
            s
    unfolding create_load_balancer
    create-Ends s =
        let c : Call = Call.create_balancer (balancer_opts settings name service) in
        Ends-if _ s (is_empty settings.subnet_id) _ _ (λ _. Ends-throw _ s _)
          (λ _.
            Ends-if _ s (none_of settings.availability_zones) _ _ (λ _. Ends-throw _ s _)
              (λ _. Ends-or_wrap _ s Reason.create_balancer (send w c) (Ends-send_answer w c s)))

    obtain-Provided :
        (looked : Option LoadBalancer) (s : State)
        → Looked w settings name looked s.calls
        → Ends IsProvided (obtain w opts cluster service settings looked) s
    unfolding obtain
    obtain-Provided (some b) s x = Ends-pure _ s b (found x)
    obtain-Provided none s gone =
        Ends-if _ s (is_empty settings.load_balancer_id) _ _
          (λ own.
            Ends-mono (λ b h both. created own both.0 both.1)
              (Ends-frame (Absent-Lasts w settings name) gone (create-Ends s)))
          (λ _. Ends-throw _ s _)

    wait-Ends : (b : LoadBalancer) (s : State) → Ends (λ _ h. Unit {0}) (wait_for_active w b.id) s
    wait-Ends b s = record {
      trace = Any-trace (wait_for_active-Sends {F = Any} laws b.id (λ h. tt) s);
      goal = λ _ s' e. tt;
    }

    -- The read of the status comes last.
    abbrev ToldOf : List Call → LoadBalancer → List Text → List Call → Type 0
    ToldOf start b status h =
        (before : List Call) × Reconciled w b name settings service nodes start before
        × (fresh : LoadBalancer) × (w.answer (Call.get_balancer b.id) before ≡ ok fresh)
        × (h ≡ Call.get_balancer b.id ∷ before)
        × (status ≡ lb_status fresh)

    status-Ends :
        (start : List Call) (b : LoadBalancer) (s : State)
        → Reconciled w b name settings service nodes start s.calls
        → Ends
            (ToldOf start b)
            (do
              fresh ← or_wrap Reason.get_after_reconcile (send w (Call.get_balancer b.id))
              pure (lb_status fresh))
            s
    status-Ends start b s done =
        let c : Call = Call.get_balancer b.id in
        Ends-bind _ s (or_wrap Reason.get_after_reconcile (send w c)) _
          (Ends-or_wrap _ s Reason.get_after_reconcile (send w c) (
            Ends-send w c s (λ fresh h. (w.answer c s.calls ≡ ok fresh) × (h ≡ c ∷ s.calls))
              (λ fresh told. (told, refl))))
          (λ fresh t _ both.
            Ends-pure _ t (lb_status fresh) (s.calls, done, fresh, both.0, both.1, refl))

    converge-Converged :
        {start : List Call} (s : State)
        → Extends Any start s.calls
        → Ends
            (Converged w settings name service nodes start)
            (converge w opts cluster service nodes settings)
            s
    unfolding converge
    converge-Converged {start} s begun =
        Ends-bind_since _ s begun (elb_client w) _
          (Ends-or_wrap _ s Reason.elb_client (send w Call.elb_service)
            (Ends-send_answer w Call.elb_service s))
          (λ _ s1 begun1 _.
            Ends-bind_since _ s1 begun1 (find_load_balancer w settings name) _
              (find_load_balancer-Ends w settings name s1)
              (λ looked s2 begun2 x.
                Ends-bind_since _ s2 begun2 (obtain w opts cluster service settings looked) _
                  (obtain-Provided looked s2 x)
                  (λ b s3 begun3 provided.
                    Ends-mono
                      (λ status h y.
                        let (before, done, fresh, told, last, current) = y.1 in
                        record {
                          balancer = b;
                          provided = y.0;
                          before = before;
                          reconciled = done;
                          fresh = fresh;
                          read = told;
                          last = last;
                          current = current;
                        })
                      (Ends-frame (Provided-Lasts w settings name service b) provided (
                        Ends-bind_since (ToldOf start b) s3 begun3 (wait_for_active w b.id) _
                          (wait-Ends b s3)
                          (λ _ s4 begun4 _.
                            Ends-bind _ s4 (reconcile w b name settings service nodes) _
                              (reconcile-Reconciled laws orders members b name settings service
                                nodes s4 begun4)
                              (λ _ s5 _ done. status-Ends start b s5 done)))))))

  validate-Ends : (s : State) → Ends (λ _ h. Unit {0}) (validate_ports service) s
  unfolding validate_ports
  validate-Ends s = go (invalid_port service.ports)
    where
      go : (o : Option ServicePort) → Ends (λ _ h. Unit {0}) (rejected o) s
      go none = Ends-pure _ s tt tt
      go (some port) = Ends-throw _ s _

  ensure-Ends :
      {start : List Call} (s : State)
      → Extends Any start s.calls
      → Ends
          (λ status h.
            (settings : ServiceSettings) × (settings_for_service opts service ≡ ok settings)
            × Converged w settings name service nodes start status h)
          (ensure_load_balancer w opts cluster service nodes)
          s
  unfolding ensure_load_balancer
  ensure-Ends s begun =
      Ends-if _ s (is_nil service.ports) _ _ (λ _. Ends-throw _ s _)
        (λ _.
          Ends-bind_since _ s begun (validate_ports service) _ (validate-Ends s) (λ _ s1 begun1 _.
            Ends-if _ s1 (is_nil nodes) _ _ (λ _. Ends-throw _ s1 _)
              (λ _.
                Ends-bind_since _ s1 begun1 (lift (settings_for_service opts service)) _
                  (Ends-lift (λ settings h. settings_for_service opts service ≡ ok settings) s1
                    (settings_for_service opts service) (λ settings e. e))
                  (λ settings s2 begun2 parses.
                    Ends-mono (λ status h x. (settings, parses, x))
                      (converge-Converged settings s2 begun2)))))

  -- After EnsureLoadBalancer succeeds, the load balancer was found, or created once the cloud had shown that
  -- there is none. Each port has a listener with its key, listed or created; an access list as reconcileIPGroup
  -- leaves it (with source ranges an enabled IP group that ipListEqual found equal to them, or that was updated
  -- to or created with them; without any, a group under the name of the port is disabled or missing); a pool,
  -- read, updated or created, whose members were at one point of the run, by the answers of the cloud, exactly
  -- the addresses of the nodes with the node port; and the monitor of the Service. Each listener of one listing
  -- that has the prefix of the Service and that no port asks for is gone, with what belongs to it. The last call
  -- of all is a read of the load balancer, and the status is its answer. Waits are attempts of their test
  -- (`laws`), a range over a map visits each key (`orders`), and a member is created as asked for, keeps its
  -- address and port, and has no double in a listing (`members`).
  pub ensure_load_balancer-Converged :
      (s s' : State) (status : List Text)
      → ensure_load_balancer w opts cluster service nodes s ≡ (ok status, s')
      → (settings : ServiceSettings) × (settings_for_service opts service ≡ ok settings)
        × Converged w settings name service nodes s.calls status s'.calls
  ensure_load_balancer-Converged s s' status e = (ensure-Ends s same).goal status s' e
