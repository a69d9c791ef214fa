-- ===== src/Elb/Balancer/Permits.antt =====
-- What EnsureLoadBalancerDeleted may send.
use cloud_provider_opentelek.Base.{◌≡◌, Bool, true, false, List, In, not, ◌&&◌}
use cloud_provider_opentelek.Base.Int.{pos, ltb_ℤ}
use cloud_provider_opentelek.Text.{Text}
use cloud_provider_opentelek.Settings.{ServiceSettings}
use cloud_provider_opentelek.Cloud.{World, State, Call, LoadBalancer, Listener, PublicIpInfo}
use cloud_provider_opentelek.Cloud.Exec.Sends.{Sends, Sends-mono}
use cloud_provider_opentelek.Elb.Names.{is_owned}
use cloud_provider_opentelek.Elb.Listeners.Permits.{Teardown}
use cloud_provider_opentelek.Elb.Balancer.Reading.{Reading, find_load_balancer-Sends}
use cloud_provider_opentelek.Elb.LoadBalancers.{find_load_balancer, is_shared}
use cloud_provider_opentelek.Elb.Balancer.Found.{Found}

-- The listeners that the Service may delete: on a shared load balancer its own.
abbrev pub Mine : ServiceSettings → Text → Listener → Type 0
Mine settings name l = is_shared settings ≡ true → is_owned name l.name ≡ true

-- An EIP was created with the load balancer, and is not to be kept.
abbrev pub releases_eips : ServiceSettings → Bool
releases_eips settings = ltb_ℤ (pos 0) settings.eip_bandwidth && not settings.eip_keep

module _ (w : World) (settings : ServiceSettings) (name : Text) where
  abbrev pub Deletion : List Call → Call → Type 0
  Deletion h Call.elb_service = Unit
  Deletion h Call.network_service = releases_eips settings ≡ true
  Deletion h (Call.list_balancers _) = Unit
  Deletion h (Call.get_balancer _) = Unit
  Deletion h (Call.delete_balancer id) =
      (b : LoadBalancer) × Found w settings name b h × (is_shared settings ≡ false) × (b.id ≡ id)
  Deletion h (Call.delete_eip id) =
      (b : LoadBalancer) × (eip : PublicIpInfo) × Found w settings name b h
      × (is_shared settings ≡ false)
      × (releases_eips settings ≡ true)
      × In eip b.public_ips
      × (eip.public_ip_id ≡ id)
  Deletion h c =
      (b : LoadBalancer) × Found w settings name b h × Teardown w b.id name (Mine settings name) h c

  pub Teardown-Deletion :
      (b : LoadBalancer) (h : List Call) (c : Call)
      → Found w settings name b h
      → Teardown w b.id name (Mine settings name) h c
      → Deletion h c
  Teardown-Deletion b h (Call.get_balancer _) f t = tt
  Teardown-Deletion b h Call.elb_service f t = absurd t
  Teardown-Deletion b h Call.network_service f t = absurd t
  Teardown-Deletion b h (Call.list_balancers _) f t = absurd t
  Teardown-Deletion b h (Call.delete_balancer _) f t = absurd t
  Teardown-Deletion b h (Call.delete_eip _) f t = absurd t
  Teardown-Deletion b h _ f t = (b, f, t)

  Reading-Deletion : (h : List Call) (c : Call) → Reading name h c → Deletion h c
  Reading-Deletion h Call.elb_service r = tt
  Reading-Deletion h (Call.list_balancers _) r = tt
  Reading-Deletion h (Call.get_balancer _) r = tt
  Reading-Deletion h _ r = absurd r

  pub find-Sends : (s : State) → Sends Deletion (find_load_balancer w settings name) s
  find-Sends s =
      Sends-mono (λ h c _ r. Reading-Deletion h c r) (find_load_balancer-Sends w name settings s)
