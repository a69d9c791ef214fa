-- ===== src/Elb/Balancer/Deletion.antt =====
-- EnsureLoadBalancerDeleted sends what it may, and nothing else.
use cloud_provider_opentelek.Base.{
  ◌≡◌, refl, true, false, List, [], ◌∷◌, Option, none, some, In, first, later, arith, if◌then◌else◌,
  not, ◌&&◌,
}
use cloud_provider_opentelek.Text.{Text}
use cloud_provider_opentelek.Config.{LoadBalancerOpts, is_empty}
use cloud_provider_opentelek.Kube.{Service}
use cloud_provider_opentelek.Settings.{ServiceSettings, settings_for_service}
use cloud_provider_opentelek.Cloud.{
  World, WaitLaws, State, Reason, Error, Call, ok, err, LoadBalancer, Listener, PublicIpInfo, send,
  attempt, pure, throw, or_wrap, or_gone,
}
use cloud_provider_opentelek.Cloud.Exec.Sends.{
  Extends-trans, Sends, Sends-mono, Sends-pure, Sends-lift, Sends-if, Sends-send, Sends-attempt,
  Sends-bind, Sends-or_wrap, Sends-or_gone, sends_rules,
}
use cloud_provider_opentelek.Cloud.Exec.Answers.{bind-lift_ok, bind-lift_err}
use cloud_provider_opentelek.Elb.Names.{is_owned, load_balancer_name}
use cloud_provider_opentelek.Elb.Wait.{retry_on_conflict}
use cloud_provider_opentelek.Elb.Wait.Sent.{retry_on_conflict-Sends}
use cloud_provider_opentelek.Elb.Listeners.{list_listeners, delete_listener}
use cloud_provider_opentelek.Elb.Listeners.Permits.{Listed, Listed-Extends, list_listeners-Answered}
use cloud_provider_opentelek.Elb.Listeners.Teardown.{delete_listener-Sends}
use cloud_provider_opentelek.Elb.LoadBalancers.{
  find_load_balancer, is_shared, release_eip, release_each, release_eips, busy_as_conflict, is_nil,
}
use cloud_provider_opentelek.Elb.Balancer.{
  delete_listeners, delete_owned_balancer, delete_found, ensure_load_balancer_deleted,
}
use cloud_provider_opentelek.Elb.Balancer.Found.{Found, Found-Extends, find_load_balancer-Found}
use cloud_provider_opentelek.Elb.Balancer.Permits.{
  Mine, releases_eips, Deletion, Teardown-Deletion, find-Sends,
}

module _ {w : World} (laws : WaitLaws w) (settings : ServiceSettings) (opts : LoadBalancerOpts)
    (cluster : Text) (service : Service) where
  abbrev name : Text
  name = load_balancer_name cluster service

  abbrev D : List Call → Call → Type 0
  D = Deletion w settings name

  listener-Sends :
      (b : LoadBalancer) (l : Listener) (s : State)
      → Found w settings name b s.calls
      → Listed w b.id l s.calls
      → Mine settings name l
      → Sends D (delete_listener w b.id name l) s
  listener-Sends b l s found listed is_mine =
      Sends-mono (λ k c e t. Teardown-Deletion w settings name b k c (Found-Extends e found) t)
        (delete_listener-Sends laws b.id name (Mine settings name) l s is_mine listed)

  kept-Mine :
      (l : Listener)
      → (is_shared settings && not (is_owned name l.name)) ≡ false
      → Mine settings name l
  kept-Mine l e shared = ground arith

  delete_listeners-Sends :
      (b : LoadBalancer) (xs : List Listener) (s : State)
      → Found w settings name b s.calls
      → ((l : Listener) → In l xs → Listed w b.id l s.calls)
      → Sends D (delete_listeners w opts cluster service b (is_shared settings) xs) s
  unfolding delete_listeners
  delete_listeners-Sends b [] s found listed = search sends_rules
  delete_listeners-Sends b (l ∷ xs) s found listed =
      Sends-bind s
        (if is_shared settings && not (is_owned name l.name)
          then pure tt
          else delete_listener w b.id name l)
        _
        (Sends-if s (is_shared settings && not (is_owned name l.name)) _ _ (λ _. Sends-pure s tt)
          (λ e. listener-Sends b l s found (listed l first) (kept-Mine l e)))
        (λ _ t r.
          delete_listeners-Sends b xs t (Found-Extends r.trace found)
            (λ x i. Listed-Extends w r.trace (listed x (later l i))))

  module _ (b : LoadBalancer) (own : is_shared settings ≡ false) where
    release_eip-Sends :
        (eip : PublicIpInfo) (s : State)
        → Found w settings name b s.calls
        → releases_eips settings ≡ true
        → In eip b.public_ips
        → Sends D (release_eip w eip) s
    unfolding release_eip
    release_eip-Sends eip s found released inside =
        let c = Call.delete_eip eip.public_ip_id in
        Sends-if s (is_empty eip.public_ip_id) _ _ (λ _. Sends-pure s tt)
          (λ _. Sends-or_gone s (Reason.release_eip eip.public_ip_id eip.public_ip_address) _ (
            retry_on_conflict-Sends laws _ s (λ t e.
              Sends-bind t (attempt (send w c)) _
                (Sends-attempt t (send w c)
                  (Sends-send t w c (b, eip, Found-Extends e found, own, released, inside, refl)))
                (λ r u _. Sends-lift u (busy_as_conflict r)))))

    release_each-Sends :
        (eips : List PublicIpInfo) (s : State)
        → Found w settings name b s.calls
        → releases_eips settings ≡ true
        → ((eip : PublicIpInfo) → In eip eips → In eip b.public_ips)
        → Sends D (release_each w eips) s
    unfolding release_each
    release_each-Sends [] s found released inside = search sends_rules
    release_each-Sends (eip ∷ eips) s found released inside =
        Sends-bind s (release_eip w eip) _
          (release_eip-Sends eip s found released (inside eip first))
          (λ _ t r.
            release_each-Sends eips t (Found-Extends r.trace found) released
              (λ x i. inside x (later eip i)))

    release_eips-Sends :
        (s : State)
        → Found w settings name b s.calls
        → releases_eips settings ≡ true
        → Sends D (release_eips w b.public_ips) s
    unfolding release_eips
    release_eips-Sends s found released =
        Sends-if s (is_nil b.public_ips) _ _ (λ _. Sends-pure s tt)
          (λ _.
            Sends-bind s (or_wrap Reason.network_client (send w Call.network_service)) _
              (Sends-or_wrap s Reason.network_client _
                (Sends-send s w Call.network_service released))
              (λ _ t r.
                release_each-Sends b.public_ips t (Found-Extends r.trace found) released
                  (λ x i. i)))

    delete_owned_balancer-Sends :
        (s : State)
        → Found w settings name b s.calls
        → Sends D (delete_owned_balancer w opts cluster service settings b) s
    unfolding delete_owned_balancer
    delete_owned_balancer-Sends s found =
        let c = Call.delete_balancer b.id in
        Sends-bind s (or_gone (Reason.delete_balancer b.id) (retry_on_conflict w (send w c))) _
          (Sends-or_gone s (Reason.delete_balancer b.id) _ (
            retry_on_conflict-Sends laws (send w c) s
              (λ t e. Sends-send t w c (b, Found-Extends e found, own, refl))))
          (λ _ t r.
            Sends-if t (releases_eips settings) _ _
              (release_eips-Sends t (Found-Extends r.trace found)) (λ _. Sends-pure t tt))

  list_listeners-Sends :
      (b : LoadBalancer) (s : State)
      → Found w settings name b s.calls
      → Sends D (list_listeners w b.id) s
  unfolding list_listeners
  list_listeners-Sends b s found =
      Sends-bind s (or_wrap (Reason.list_listeners b.id) (send w (Call.list_listeners b.id))) _
        (Sends-or_wrap s (Reason.list_listeners b.id) _
          (Sends-send s w (Call.list_listeners b.id) (b, found, tt)))
        (λ pages t _. Sends-lift t pages)

  delete_found-Sends :
      (found : Option LoadBalancer) (s : State)
      → ((b : LoadBalancer) → found ≡ some b → Found w settings name b s.calls)
      → Sends D (delete_found w opts cluster service settings found) s
  unfolding delete_found
  delete_found-Sends none s origin = search sends_rules
  delete_found-Sends (some b) s origin =
      Sends-bind s (list_listeners w b.id) _ (list_listeners-Sends b s (origin b refl))
        (λ all s1 r1.
          Sends-bind s1 (delete_listeners w opts cluster service b (is_shared settings) all) _
            (delete_listeners-Sends b all s1 (Found-Extends r1.trace (origin b refl)) (λ l i.
              record {
                all = all;
                answered = list_listeners-Answered w b.id s s1 all r1.result;
                member = i;
              }))
            (λ _ s2 r2.
              Sends-if s2 (is_shared settings) _ _ (λ _. Sends-pure s2 tt)
                (λ own.
                  delete_owned_balancer-Sends b own s2
                    (Found-Extends (Extends-trans r1.trace r2.trace) (origin b refl)))))

  -- With annotations that parse, EnsureLoadBalancerDeleted sends, whatever the cloud answers and wherever it
  -- fails, only reads; deletions of a listener that the Service may delete (on a shared load balancer one with
  -- the prefix of the Service) and that the cloud listed for the load balancer that was found, of the pool that
  -- the cloud named as its default, of the members and the monitor of that pool, and of the IP group that the
  -- listed listener carries, where the cloud gave it a name with the prefix; and, unless the load balancer is
  -- shared, the deletion of the load balancer that was found and of its EIPs where a bandwidth is set and eip-
  -- keep is not. Waits are attempts of their test (`laws`).
  pub ensure_load_balancer_deleted-Sends :
      (s : State)
      → settings_for_service opts service ≡ ok settings
      → Sends
          (Deletion w settings (load_balancer_name cluster service))
          (ensure_load_balancer_deleted w opts cluster service)
          s
  unfolding ensure_load_balancer_deleted
  ensure_load_balancer_deleted-Sends s e =
      rw (e, bind-lift_ok)
        (Sends-bind s (or_wrap Reason.elb_client (send w Call.elb_service)) _
          (Sends-or_wrap s Reason.elb_client _ (Sends-send s w Call.elb_service tt))
          (λ _ s1 _.
            Sends-bind s1 (find_load_balancer w settings name) _ (find-Sends w settings name s1)
              (λ found s2 r2. delete_found-Sends found s2 (λ b is_b.
                find_load_balancer-Found w settings name s1 s2 b (rw is_b at r2.result)))))

-- With annotations that do not parse, the deletion fails and sends nothing.
pub ensure_load_balancer_deleted_rejects :
    (w : World) (opts : LoadBalancerOpts) (cluster : Text) (service : Service) (s : State)
    (e : Error)
    → settings_for_service opts service ≡ err e
    → ensure_load_balancer_deleted w opts cluster service s ≡ (err e, s)
unfolding ensure_load_balancer_deleted throw
ensure_load_balancer_deleted_rejects w opts cluster service s e h = rw (h, bind-lift_err)
