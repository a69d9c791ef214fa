-- ===== src/Elb/LoadBalancers.antt =====
-- The load balancer itself in pkg/elb/elb.go: findLoadBalancer, createLoadBalancer, releaseEIPs.
use cloud_provider_opentelek.Base.{
  Bool, true, false, not, ◌||◌, List, [], ◌∷◌, Option, none, some, if◌then◌else◌, ◌==◌,
}
use cloud_provider_opentelek.Base.Int.{pos, ltb_ℤ}
use cloud_provider_opentelek.Text.{Text, codes, text_eq, cut_string}
use cloud_provider_opentelek.Kube.{Service}
use cloud_provider_opentelek.Config.{is_empty}
use cloud_provider_opentelek.Settings.{ServiceSettings, none_of}
use cloud_provider_opentelek.Cloud.{
  World, M, send, pure, throw, lift, attempt, or_wrap, or_gone, ◌>>=◌, ◌>>◌, Reason, Call, Result,
  ok, err, panic, fail, wrap, http_409, is_not_found, is_conflict, is_bad_request, LoadBalancer,
  PublicIpInfo, PublicIpOpts, BalancerOpts,
}
use cloud_provider_opentelek.Elb.Names.{description}
use cloud_provider_opentelek.Elb.Wait.{retry_on_conflict}
use cloud_provider_opentelek.Elb.Nodes.{lb_status}

abbrev pub is_nil {ℓ} : {A : Type ℓ} → List A → Bool
is_nil [] = true
is_nil (_ ∷ _) = false

unfoldable pub find_by_name : Text → List LoadBalancer → Option LoadBalancer
find_by_name name [] = none
find_by_name name (b ∷ items) = if b.name == name then some b else find_by_name name items

-- The part of the create options that asks for a new EIP.
unfoldable pub new_public_ip : ServiceSettings → Text → Service → Option PublicIpOpts
new_public_ip settings name service =
    if ltb_ℤ (pos 0) settings.eip_bandwidth
    then some (record {
      network_type = settings.eip_type;
      description = description service;
      bandwidth_name = cut_string name 64;
      bandwidth_size = settings.eip_bandwidth;
      charge_mode = codes "traffic";
      share_type = codes "PER";
    })
    else none

unfoldable pub balancer_opts : ServiceSettings → Text → Service → BalancerOpts
balancer_opts settings name service = record {
  name = name;
  description = description service;
  vip_subnet_cidr_id = settings.subnet_id;
  vpc_id = settings.vpc_id;
  availability_zones = settings.availability_zones;
  l4_flavor = settings.l4_flavor_id;
  vip_address = service.load_balancer_ip;
  public_ip_ids = settings.eip_ids;
  public_ip = new_public_ip settings name service;
}

-- A still bound EIP answers 400 or 409; both are retried.
unfoldable pub busy_as_conflict : Result (Unit {0}) → Result (Unit {0})
busy_as_conflict (ok a) = ok a
busy_as_conflict (err e) = if is_conflict e || is_bad_request e then err http_409 else err e
busy_as_conflict panic = panic

-- The Service names an existing load balancer.
abbrev pub is_shared : ServiceSettings → Bool
is_shared settings = not (is_empty settings.load_balancer_id)

abbrev pub status_of : Option LoadBalancer → Option (List Text)
status_of none = none
status_of (some balancer) = some (lb_status balancer)

module _ (w : World) where
  abbrev pub elb_client : M Unit
  elb_client = or_wrap Reason.elb_client (send w Call.elb_service)

  abbrev pub network_client : M Unit
  network_client = or_wrap Reason.network_client (send w Call.network_service)

  abbrev pub balancer_or_none : Text → Result LoadBalancer → M (Option LoadBalancer)
  balancer_or_none id (ok balancer) = pure (some balancer)
  balancer_or_none id (err e) =
      if is_not_found e then pure none else throw (wrap (Reason.get_balancer id) e)
  balancer_or_none id panic = lift panic

  unfoldable pub find_load_balancer : ServiceSettings → Text → M (Option LoadBalancer)
  find_load_balancer settings name =
      if is_empty settings.load_balancer_id
      then (do
        pages ← or_wrap Reason.list_balancers (send w (Call.list_balancers name))
        items ← lift pages
        pure (find_by_name name items))
      else (do
        reply ← attempt (send w (Call.get_balancer settings.load_balancer_id))
        balancer_or_none settings.load_balancer_id reply)

  unfoldable pub create_load_balancer : ServiceSettings → Text → Service → M LoadBalancer
  create_load_balancer settings name service =
      if is_empty settings.subnet_id
      then throw (fail (Reason.no_subnet service.namespace service.name))
      else if none_of settings.availability_zones
      then throw (fail (Reason.no_zones service.namespace service.name))
      else or_wrap Reason.create_balancer
          (send w (Call.create_balancer (balancer_opts settings name service)))

  unfoldable pub release_eip : PublicIpInfo → M Unit
  release_eip eip =
      if is_empty eip.public_ip_id
      then pure tt
      else or_gone (Reason.release_eip eip.public_ip_id eip.public_ip_address) (
          retry_on_conflict w (do
            reply ← attempt (send w (Call.delete_eip eip.public_ip_id))
            lift (busy_as_conflict reply)))

  unfoldable pub release_each : List PublicIpInfo → M Unit
  release_each [] = pure tt
  release_each (eip ∷ eips) = do release_eip eip; release_each eips

  unfoldable pub release_eips : List PublicIpInfo → M Unit
  release_eips eips = if is_nil eips then pure tt else network_client >> release_each eips
