-- ===== src/Elb/Balancer/Ensuring.antt =====
-- What EnsureLoadBalancer may send, and that it sends nothing else.
use cloud_provider_opentelek.Base.{
  ◌≡◌, refl, true, List, Option, none, some, arith, inl, inr, Bool-cases, subst,
}
use cloud_provider_opentelek.Text.{Text}
use cloud_provider_opentelek.Config.{LoadBalancerOpts, is_empty}
use cloud_provider_opentelek.Kube.{Service, Node}
use cloud_provider_opentelek.Settings.{ServiceSettings, settings_for_service, none_of}
use cloud_provider_opentelek.Cloud.{
  World, WaitLaws, State, Reason, Call, ok, LoadBalancer, send, pure, throw, or_wrap,
}
use cloud_provider_opentelek.Cloud.Exec.Sends.{
  Extends, same, Sends, Sends-mono, Sends-pure, Sends-throw, Sends-if, Sends-send, Sends-bind,
  Sends-or_wrap,
}
use cloud_provider_opentelek.Cloud.Exec.Answers.{Answered, Answered-Extends, or_wrap-send-Answered}
use cloud_provider_opentelek.Elb.Names.{load_balancer_name}
use cloud_provider_opentelek.Elb.Wait.{wait_for_active}
use cloud_provider_opentelek.Elb.Wait.Sent.{wait_for_active-Sends}
use cloud_provider_opentelek.Elb.LoadBalancers.{
  find_by_name, find_load_balancer, create_load_balancer, balancer_opts,
}
use cloud_provider_opentelek.Elb.Reconcile.{reconcile}
use cloud_provider_opentelek.Elb.Reconcile.Permits.{Reconciling}
use cloud_provider_opentelek.Elb.Reconcile.Sent.{reconcile-Sends}
use cloud_provider_opentelek.Elb.Balancer.{obtain, converge, ensure_load_balancer}
use cloud_provider_opentelek.Elb.Balancer.Found.{
  Found, Found-Extends, find_load_balancer-Found, find_load_balancer-none,
}
use cloud_provider_opentelek.Elb.Balancer.Reading.{Reading, find_load_balancer-Sends}
use cloud_provider_opentelek.Elb.Balancer.Guards.{ensure_load_balancer_checks}

module _ (w : World) (settings : ServiceSettings) (name : Text) (service : Service)
    (nodes : List Node) where
  -- The load balancer of the run: found, or created in it.
  pub data Obtained (b : LoadBalancer) (h : List Call) : Type 0 where
    found : Found w settings name b h → Obtained b h
    created :
        Answered w (Call.create_balancer (balancer_opts settings name service)) b h → Obtained b h

  -- Reads; the creation of a load balancer where the Service names none and the cloud lists none with its
  -- name; and the reconciliation of the one that was found or created.
  pub data Ensuring (h : List Call) : Call → Type 0 where
    reads : (c : Call) → Reading name h c → Ensuring h c
    creates :
        (items : List LoadBalancer)
        → is_empty settings.load_balancer_id ≡ true
        → Answered w (Call.list_balancers name) (ok items) h
        → find_by_name name items ≡ none
        → Ensuring h (Call.create_balancer (balancer_opts settings name service))
    reconciles :
        (c : Call) (b : LoadBalancer)
        → Obtained b h
        → Reconciling w b.id name service nodes h c
        → Ensuring h c

  pub Obtained-Extends :
      {F : List Call → Call → Type 0} {b : LoadBalancer} {h h' : List Call}
      → Extends F h h'
      → Obtained b h
      → Obtained b h'
  Obtained-Extends e (found f) = found (Found-Extends e f)
  Obtained-Extends e (created a) = created (Answered-Extends _ _ e a)

module _ {w : World} (laws : WaitLaws w) (settings : ServiceSettings) (opts : LoadBalancerOpts)
    (cluster : Text) (service : Service) (nodes : List Node) where
  abbrev name : Text
  name = load_balancer_name cluster service

  abbrev F : List Call → Call → Type 0
  F = Ensuring w settings name service nodes

  abbrev O : LoadBalancer → List Call → Type 0
  O = Obtained w settings name service nodes

  create-Sends :
      (items : List LoadBalancer) (s : State)
      → is_empty settings.load_balancer_id ≡ true
      → Answered w (Call.list_balancers name) (ok items) s.calls
      → find_by_name name items ≡ none
      → Sends F (create_load_balancer w settings name service) s
  unfolding create_load_balancer
  create-Sends items s own listed absent =
      Sends-if s (is_empty settings.subnet_id) _ _ (λ _. Sends-throw s _)
        (λ _.
          Sends-if s (none_of settings.availability_zones) _ _ (λ _. Sends-throw s _)
            (λ _. Sends-or_wrap s _ _ (
              Sends-send {F = F} s w (Call.create_balancer (balancer_opts settings name service))
                (creates items own listed absent))))

  created-Obtained :
      (s s' : State) (b : LoadBalancer)
      → create_load_balancer w settings name service s ≡ (ok b, s')
      → O b s'.calls
  unfolding create_load_balancer throw
  created-Obtained s s' b e = elim (Bool-cases (is_empty settings.subnet_id)) [
    | inl no_subnet ↦ absurd (ground arith)
    | inr subnet ↦ elim (Bool-cases (none_of settings.availability_zones)) [
      | inl no_zones ↦ absurd (ground arith)
      | inr zones ↦ created (
          or_wrap-send-Answered w (Call.create_balancer (balancer_opts settings name service))
            Reason.create_balancer s s' b (rw (subnet, zones) at e))
    ]
  ]

  obtain-Sends :
      (found_one : Option LoadBalancer) (s : State)
      → (found_one ≡ none
          → is_empty settings.load_balancer_id ≡ true
          → (items : List LoadBalancer) × Answered w (Call.list_balancers name) (ok items) s.calls
            × (find_by_name name items ≡ none))
      → Sends F (obtain w opts cluster service settings found_one) s
  unfolding obtain
  obtain-Sends (some b) s absent = Sends-pure s b
  obtain-Sends none s absent =
      Sends-if s (is_empty settings.load_balancer_id) _ _
        (λ own.
          let (items, listed, missing) = absent refl own in create-Sends items s own listed missing)
        (λ _. Sends-throw s _)

  obtain-Obtained :
      (found_one : Option LoadBalancer) (s s' : State) (b : LoadBalancer)
      → ((c : LoadBalancer) → found_one ≡ some c → O c s.calls)
      → obtain w opts cluster service settings found_one s ≡ (ok b, s')
      → O b s'.calls
  unfolding obtain pure throw
  obtain-Obtained (some c) s s' b known e =
      let same_state : s ≡ s' = ground arith in
      let same_balancer : c ≡ b = ground arith in
      subst (λ t. O b t.calls) same_state (known b (ground arith))
  obtain-Obtained none s s' b known e = elim (Bool-cases (is_empty settings.load_balancer_id)) [
    | inl own ↦ created-Obtained s s' b (rw own at e)
    | inr shared ↦ absurd (ground arith)
  ]

  shape-Sends :
      (b : LoadBalancer) (s : State)
      → O b s.calls
      → Sends F (reconcile w b name settings service nodes) s
  shape-Sends b s o =
      Sends-mono (λ h c e p. reconciles c b (Obtained-Extends w settings name service nodes e o) p)
        (reconcile-Sends laws b name settings service nodes s)

  converge-Sends : (s : State) → Sends F (converge w opts cluster service nodes settings) s
  unfolding converge
  converge-Sends s =
      Sends-bind s (or_wrap Reason.elb_client (send w Call.elb_service)) _
        (Sends-or_wrap s _ _ (Sends-send s w Call.elb_service (reads Call.elb_service tt)))
        (λ _ s1 r1.
          Sends-bind s1 (find_load_balancer w settings name) _
            (Sends-mono (λ h c _ p. reads c p) (find_load_balancer-Sends w name settings s1))
            (λ found_one s2 r2.
              Sends-bind s2 (obtain w opts cluster service settings found_one) _
                (obtain-Sends found_one s2 (λ nothing own.
                  find_load_balancer-none w settings name s1 s2 own (rw nothing at r2.result)))
                (λ b s3 r3.
                  let o : O b s3.calls =
                    obtain-Obtained found_one s2 s3 b
                      (λ c is_c.
                        found
                          (find_load_balancer-Found w settings name s1 s2 c (rw is_c at r2.result)))
                      r3.result in
                  Sends-bind s3 (wait_for_active w b.id) _
                    (wait_for_active-Sends laws b.id (λ h. reads (Call.get_balancer b.id) tt) s3)
                    (λ _ s4 r4.
                      Sends-bind s4 (reconcile w b name settings service nodes) _
                        (shape-Sends b s4
                          (Obtained-Extends w settings name service nodes r4.trace o))
                        (λ _ s5 _.
                          Sends-bind s5
                            (or_wrap Reason.get_after_reconcile (send w (Call.get_balancer b.id))) _
                            (Sends-or_wrap s5 _ _ (
                              Sends-send s5 w (Call.get_balancer b.id)
                                (reads (Call.get_balancer b.id) tt)))
                            (λ fresh s6 _. Sends-pure s6 _))))))

  -- With annotations that parse, EnsureLoadBalancer sends, whatever the cloud answers and wherever it fails,
  -- only what `Ensuring` permits: reads; the creation of a load balancer where the Service names none and
  -- the cloud listed none of its name; and what `Reconciling` permits on the one found or created.
  pub ensure_load_balancer-Sends :
      (s : State)
      → settings_for_service opts service ≡ ok settings
      → Sends F (ensure_load_balancer w opts cluster service nodes) s
  ensure_load_balancer-Sends s accepted =
      elim (ensure_load_balancer_checks w opts cluster service nodes s) [
        | inl (e, _, refuses) ↦ record { trace = rw refuses same }
        | inr (chosen, admitted, goes_on) ↦
            let same_settings : chosen ≡ settings = ground (arith, admitted.accepted) in
            record { trace = rw (goes_on, same_settings) (converge-Sends s).trace }
      ]
