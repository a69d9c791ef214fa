-- ===== src/Elb/Balancer/Told.antt =====
-- What GetLoadBalancer says of the load balancer of a Service.
use cloud_provider_opentelek.Base.{◌≡◌, List, Option, none, some}
use cloud_provider_opentelek.Text.{Text}
use cloud_provider_opentelek.Config.{LoadBalancerOpts}
use cloud_provider_opentelek.Kube.{Service}
use cloud_provider_opentelek.Settings.{ServiceSettings, settings_for_service}
use cloud_provider_opentelek.Cloud.{World, State, Reason, Call, ok, LoadBalancer, send, lift, pure}
use cloud_provider_opentelek.Cloud.Exec.Ends.{
  Ends, Ends-mono, Ends-pure, Ends-lift, Ends-or_wrap, Ends-bind,
}
use cloud_provider_opentelek.Cloud.Exec.Gone.{Ends-send_answer}
use cloud_provider_opentelek.Elb.Names.{load_balancer_name}
use cloud_provider_opentelek.Elb.Nodes.{lb_status}
use cloud_provider_opentelek.Elb.LoadBalancers.{elb_client, find_load_balancer, status_of}
use cloud_provider_opentelek.Elb.Balancer.{get_load_balancer}
use cloud_provider_opentelek.Elb.Balancer.Found.{Found}
use cloud_provider_opentelek.Elb.Balancer.Cleared.{Absent}
use cloud_provider_opentelek.Elb.Balancer.Cleared.Search.{Looked, find_load_balancer-Ends}

module _ (w : World) (settings : ServiceSettings) (name : Text) where
  -- The cloud has shown that there is none, or a load balancer was found, and the status is that of it.
  pub data Told : Option (List Text) → List Call → Type 0 where
    told_none : {h : List Call} → Absent w settings name h → Told none h
    told_status :
        {h : List Call} (b : LoadBalancer) → Found w settings name b h → Told (some (lb_status b)) h

  told :
      (found : Option LoadBalancer) (s : State)
      → Looked w settings name found s.calls
      → Ends Told (pure (status_of found)) s
  told none s gone = Ends-pure _ s none (told_none gone)
  told (some b) s found = Ends-pure _ s (some (lb_status b)) (told_status b found)

module _ (w : World) (opts : LoadBalancerOpts) (cluster : Text) (service : Service) where
  abbrev name : Text
  name = load_balancer_name cluster service

  get-Ends :
      (s : State)
      → Ends
          (λ r h.
            (settings : ServiceSettings) × (settings_for_service opts service ≡ ok settings)
            × Told w settings name r h)
          (get_load_balancer w opts cluster service)
          s
  unfolding get_load_balancer
  get-Ends s =
      Ends-bind _ s (lift (settings_for_service opts service)) _
        (Ends-lift (λ settings h. settings_for_service opts service ≡ ok settings) s
          (settings_for_service opts service) (λ settings e. e))
        (λ settings s1 _ parses.
          Ends-mono (λ r h x. (settings, parses, x))
            (Ends-bind (Told w settings name) s1 (elb_client w) _
              (Ends-or_wrap _ s1 Reason.elb_client (send w Call.elb_service)
                (Ends-send_answer w Call.elb_service s1))
              (λ _ s2 _ _.
                Ends-bind _ s2 (find_load_balancer w settings name) _
                  (find_load_balancer-Ends w settings name s2)
                  (λ found s3 _ looked. told w settings name found s3 looked))))

  -- Where GetLoadBalancer succeeds, it says that there is no load balancer only where the cloud has shown that there
  -- is none, and otherwise gives the status of the load balancer that was found.
  pub get_load_balancer-Told :
      (s s' : State) (r : Option (List Text))
      → get_load_balancer w opts cluster service s ≡ (ok r, s')
      → (settings : ServiceSettings) × (settings_for_service opts service ≡ ok settings)
        × Told w settings name r s'.calls
  get_load_balancer-Told s s' r e = (get-Ends s).goal r s' e
