-- ===== src/Elb/Balancer/Reading.antt =====
-- GetLoadBalancer only reads.
use cloud_provider_opentelek.Base.{◌≡◌, List}
use cloud_provider_opentelek.Text.{Text}
use cloud_provider_opentelek.Config.{LoadBalancerOpts}
use cloud_provider_opentelek.Kube.{Service}
use cloud_provider_opentelek.Settings.{ServiceSettings, settings_for_service}
use cloud_provider_opentelek.Cloud.{World, State, Call, Result, ok, err, panic, LoadBalancer}
use cloud_provider_opentelek.Cloud.Exec.Sends.{
  Sends, Sends-pure, Sends-lift, Sends-send, Sends-bind, Sends-or_wrap, sends_rules,
}
use cloud_provider_opentelek.Elb.Names.{load_balancer_name}
use cloud_provider_opentelek.Elb.LoadBalancers.{balancer_or_none, find_load_balancer}
use cloud_provider_opentelek.Elb.Balancer.{get_load_balancer}

abbrev pub Reading : Text → List Call → Call → Type 0
Reading name h Call.elb_service = Unit
Reading name h (Call.list_balancers n) = n ≡ name
Reading name h (Call.get_balancer id) = Unit
Reading name h _ = ⊥

module _ (w : World) (name : Text) where
  balancer_or_none-Sends :
      (id : Text) (r : Result LoadBalancer) (s : State)
      → Sends (Reading name) (balancer_or_none w id r) s
  balancer_or_none-Sends id (ok b) s = search sends_rules
  balancer_or_none-Sends id (err e) s = search sends_rules
  balancer_or_none-Sends id panic s = search sends_rules

  pub find_load_balancer-Sends :
      (settings : ServiceSettings) (s : State)
      → Sends (Reading name) (find_load_balancer w settings name) s
  unfolding find_load_balancer
  find_load_balancer-Sends settings s = search (sends_rules, balancer_or_none-Sends) depth 12

-- Whatever the cloud answers, GetLoadBalancer sends no call that changes anything: it reads the load
-- balancer of an annotation, or lists those with the name of the Service.
pub get_load_balancer-Sends :
    (w : World) (opts : LoadBalancerOpts) (cluster : Text) (service : Service) (s : State)
    → Sends
        (Reading (load_balancer_name cluster service))
        (get_load_balancer w opts cluster service)
        s
unfolding get_load_balancer
get_load_balancer-Sends w opts cluster service s =
    let name : Text = load_balancer_name cluster service in
    Sends-bind s _ _ (Sends-lift s (settings_for_service opts service)) (λ settings s1 _.
      Sends-bind s1 _ _ (Sends-or_wrap s1 _ _ (Sends-send s1 w Call.elb_service tt)) (λ _ s2 _.
        Sends-bind s2 _ _ (find_load_balancer-Sends w name settings s2)
          (λ found s3 _. Sends-pure s3 _)))
