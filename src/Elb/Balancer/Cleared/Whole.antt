-- ===== src/Elb/Balancer/Cleared/Whole.antt =====
-- EnsureLoadBalancerDeleted leaves nothing of the Service behind.
use cloud_provider_opentelek.Base.{
  ◌≡◌, true, false, not, ◌&&◌, List, [], ◌∷◌, Option, none, some, first, later, arith,
  if◌then◌else◌,
}
use cloud_provider_opentelek.Text.{Text}
use cloud_provider_opentelek.Config.{LoadBalancerOpts}
use cloud_provider_opentelek.Kube.{Service}
use cloud_provider_opentelek.Settings.{ServiceSettings, settings_for_service}
use cloud_provider_opentelek.Cloud.{
  World, WaitLaws, State, Reason, Call, ok, LoadBalancer, Listener, send, pure, lift, or_gone,
  ◌>>=◌,
}
use cloud_provider_opentelek.Cloud.Exec.Sends.{Sends-send}
use cloud_provider_opentelek.Cloud.Exec.Ends.{
  Lasts, Lasts-implies, Ends, Ends-mono, Ends-frame, Ends-pure, Ends-or_wrap, Ends-if, Ends-bind,
}
use cloud_provider_opentelek.Cloud.Exec.Gone.{
  IsGone, Gone, Replied-Lasts, send-Gone, Answered-Lasts, Ends-send_answer,
}
use cloud_provider_opentelek.Cloud.Exec.Answers.{Answered, bind-eq-ok}
use cloud_provider_opentelek.Elb.Names.{is_owned, load_balancer_name}
use cloud_provider_opentelek.Elb.Wait.{retry_on_conflict}
use cloud_provider_opentelek.Elb.Wait.Last.{Ends-gone_retry}
use cloud_provider_opentelek.Elb.Listeners.{list_listeners, delete_listener}
use cloud_provider_opentelek.Elb.Listeners.Cleared.{Cleared, Cleared-Lasts}
use cloud_provider_opentelek.Elb.Listeners.Cleared.Pools.{list_listeners-Ends}
use cloud_provider_opentelek.Elb.Listeners.Cleared.Whole.{delete_listener-Cleared}
use cloud_provider_opentelek.Elb.LoadBalancers.{is_shared, find_load_balancer, elb_client}
use cloud_provider_opentelek.Elb.Balancer.{
  delete_listeners, delete_owned_balancer, delete_found, ensure_load_balancer_deleted,
}
use cloud_provider_opentelek.Elb.Balancer.Found.{Found, Found-Extends}
use cloud_provider_opentelek.Elb.Balancer.Permits.{Mine, releases_eips}
use cloud_provider_opentelek.Elb.Balancer.Cleared.{
  ListenersCleared, EipsGone, Deleted, absent, removed,
}
use cloud_provider_opentelek.Elb.Balancer.Cleared.Search.{Looked, find_load_balancer-Ends}
use cloud_provider_opentelek.Elb.Balancer.Cleared.Eips.{release_eips-Ends}

module _ {w : World} (laws : WaitLaws w) (settings : ServiceSettings) (opts : LoadBalancerOpts)
    (cluster : Text) (service : Service) where
  abbrev name : Text
  name = load_balancer_name cluster service

  -- A listener that is skipped is not the Service's.
  one-Ends :
      (b : LoadBalancer) (l : Listener) (s : State)
      → Ends
          (λ _ h. Mine settings name l → Cleared w name l h)
          (if is_shared settings && not (is_owned name l.name)
            then pure tt
            else delete_listener w b.id name l)
          s
  one-Ends b l s =
      Ends-if _ s (is_shared settings && not (is_owned name l.name)) _ _
        (λ others. Ends-pure _ s tt (λ mine.
          let owned : is_owned name l.name ≡ true = mine (ground arith) in absurd (ground arith)))
        (λ _. Ends-mono (λ _ h x _. x) (delete_listener-Cleared laws b.id name l s))

  one_more :
      (l : Listener) (xs : List Listener) (h : List Call)
      → (Mine settings name l → Cleared w name l h)
      → ListenersCleared w settings name xs h
      → ListenersCleared w settings name (l ∷ xs) h
  one_more l xs h gone others _ first mine = gone mine
  one_more l xs h gone others x (later _ i) mine = others x i mine

  listeners-Ends :
      (b : LoadBalancer) (xs : List Listener) (s : State)
      → Ends
          (λ _ h. ListenersCleared w settings name xs h)
          (delete_listeners w opts cluster service b (is_shared settings) xs)
          s
  unfolding delete_listeners
  listeners-Ends b [] s = Ends-pure _ s tt (λ l i. elim i [ ])
  listeners-Ends b (l ∷ xs) s = Ends-bind _ s _ _ (one-Ends b l s) (λ _ t _ gone.
      Ends-mono (λ _ h both. one_more l xs h both.0 both.1)
        (Ends-frame (Lasts-implies (Cleared-Lasts w name l)) gone (listeners-Ends b xs t)))

  ListenersCleared-Lasts : (xs : List Listener) → Lasts (ListenersCleared w settings name xs)
  ListenersCleared-Lasts xs h h' e x l i mine = Cleared-Lasts w name l h h' e (x l i mine)

  abbrev OwnGone : LoadBalancer → List Call → Type 0
  OwnGone b h =
      Gone w (Call.delete_balancer b.id) h
      × (releases_eips settings ≡ true → EipsGone w b.public_ips h)

  owned-Ends :
      (b : LoadBalancer) (s : State)
      → Ends (λ _ h. OwnGone b h) (delete_owned_balancer w opts cluster service settings b) s
  unfolding delete_owned_balancer
  owned-Ends b s =
      let c : Call = Call.delete_balancer b.id in
      Ends-bind _ s (or_gone (Reason.delete_balancer b.id) (retry_on_conflict w (send w c))) _
        (Ends-gone_retry laws (Reason.delete_balancer b.id) s (send w c)
          (record { sends = λ t. Sends-send t w c tt; settles = send-Gone w c }))
        (λ _ t _ gone. Ends-frame (Replied-Lasts w c IsGone) gone (
          Ends-if _ t (releases_eips settings) _ _
            (λ _. Ends-mono (λ _ h x _. x) (release_eips-Ends laws b.public_ips t))
            (λ kept. Ends-pure _ t tt (λ releases. absurd (ground arith)))))

  balancer-Ends :
      (b : LoadBalancer) (s : State)
      → Ends
          (λ _ h. is_shared settings ≡ false → OwnGone b h)
          (if is_shared settings
            then pure tt
            else delete_owned_balancer w opts cluster service settings b)
          s
  balancer-Ends b s =
      Ends-if _ s (is_shared settings) _ _
        (λ shared. Ends-pure _ s tt (λ own. absurd (ground arith)))
        (λ _. Ends-mono (λ _ h x _. x) (owned-Ends b s))

  found-Ends :
      (found : Option LoadBalancer) (s : State)
      → Looked w settings name found s.calls
      → Ends
          (λ _ h. Deleted w settings name h)
          (delete_found w opts cluster service settings found)
          s
  unfolding delete_found
  found-Ends none s looked = Ends-pure _ s tt (absent looked)
  found-Ends (some b) s looked =
      Ends-mono
        (λ _ h both.
          let (found, rest) = both in
          let (all, listed, gone, own) = rest in
          removed b (record {
            found = found;
            all = all;
            listed = listed;
            listeners = gone;
            balancer = λ e. (own e).0;
            eips = λ e. (own e).1;
          }))
        (Ends-frame {R = Found w settings name b} (λ h h' e x. Found-Extends e x) looked
          (Ends-bind
            (λ _ h.
              (all : List Listener) × Answered w (Call.list_listeners b.id) (ok all) h
              × ListenersCleared w settings name all h
              × (is_shared settings ≡ false → OwnGone b h))
            s (list_listeners w b.id) _ (list_listeners-Ends w b.id s)
            (λ all s1 _ listed.
              Ends-mono (λ _ h both. (all, both.0, both.1.0, both.1.1))
                (Ends-frame (Answered-Lasts w (Call.list_listeners b.id) (ok all)) listed (
                  Ends-bind _ s1
                    (delete_listeners w opts cluster service b (is_shared settings) all) _
                    (listeners-Ends b all s1)
                    (λ _ s2 _ gone.
                      Ends-frame (ListenersCleared-Lasts all) gone (balancer-Ends b s2)))))))

  deletion-Ends :
      (s : State)
      → Ends
          (λ _ h. Deleted w settings name h)
          (elb_client w >>= (λ _.
            find_load_balancer w settings name >>= delete_found w opts cluster service settings))
          s
  deletion-Ends s =
      Ends-bind (λ _ h. Deleted w settings name h) s (elb_client w) _
        (Ends-or_wrap _ s Reason.elb_client (send w Call.elb_service)
          (Ends-send_answer w Call.elb_service s))
        (λ _ s1 _ _.
          Ends-bind _ s1 (find_load_balancer w settings name) _
            (find_load_balancer-Ends w settings name s1)
            (λ found s2 _ looked. found-Ends found s2 looked))

-- A deletion that succeeds has shown that there is no load balancer, or has removed all that the Service has on
-- the one that it found: each listed listener that is the Service's, with its pool, the pool's monitor and listed
-- members, and its own IP group; and on a load balancer that is not shared also that, and the EIPs created with it
-- unless they are kept. Waits are attempts of their test (`laws`).
pub ensure_load_balancer_deleted-Deleted :
    {w : World} (laws : WaitLaws w) (opts : LoadBalancerOpts) (cluster : Text) (service : Service)
    (s s' : State)
    → ensure_load_balancer_deleted w opts cluster service s ≡ (ok tt, s')
    → (settings : ServiceSettings) × (settings_for_service opts service ≡ ok settings)
      × Deleted w settings (load_balancer_name cluster service) s'.calls
unfolding ensure_load_balancer_deleted lift
ensure_load_balancer_deleted-Deleted {w} laws opts cluster service s s' e =
    let (settings, s1, e1, rest) =
      bind-eq-ok (lift (settings_for_service opts service)) _ s s' tt e in
    (settings, ground arith, (deletion-Ends laws settings opts cluster service s1).goal tt s' rest)
