-- ===== src/Identity/Services.antt =====
-- pkg/identity/service_client.go, and the token cache of pkg/identity/token_cache.go.
use cloud_provider_opentelek.Base.{Option, none, some, if◌then◌else◌, ◌==◌}
use cloud_provider_opentelek.Base.Int.{ℤ, pos}
use cloud_provider_opentelek.Text.{Text, codes, text_eq}
use cloud_provider_opentelek.Config.{auth_method_aksk}
use cloud_provider_opentelek.Identity.{
  Outcome, done, failed, unsupported_service, Sdk, Session, get_provider, provider_method, refresh,
  Provider, aksk_provider, password_provider,
}

abbrev pub service_elb_v3 : Text
service_elb_v3 = codes "elbv3"

abbrev pub service_network_v1 : Text
service_network_v1 = codes "network"

-- 23 hours, as the nanoseconds of a `time.Duration`.
abbrev pub default_refresh_interval : ℤ
default_refresh_interval = pos 82800000000000

abbrev pub or_default : Option ℤ → ℤ → ℤ
or_default none d = d
or_default (some n) d = n

-- `newServiceClient`; `new_elb_v3` and `new_network_v1` are the SDK's constructors.
unfoldable pub new_service_client :
    {Client Service : Type 0} (new_elb_v3 new_network_v1 : Client → Outcome Service)
    → Text
    → Client
    → Outcome Service
new_service_client new_elb_v3 new_network_v1 service c =
    if service == service_elb_v3
    then new_elb_v3 c
    else if service == service_network_v1
    then new_network_v1 c
    else failed (unsupported_service service)

unfoldable pub service_over :
    {Client Service : Type 0} → (Client → Outcome Service) → Outcome Client → Outcome Service
service_over new (failed e) = failed e
service_over new (done c) = new c

-- `GetServiceClient`
unfoldable pub get_service_client :
    {Client Service : Type 0} (sdk : Sdk Client)
    (new_elb_v3 new_network_v1 : Client → Outcome Service)
    → Text
    → Session Client
    → Outcome Service × Session Client
unfolding get_provider new_service_client service_over
get_service_client sdk new_elb_v3 new_network_v1 service s =
    let (r, s') = get_provider sdk s in
    (service_over (new_service_client new_elb_v3 new_network_v1 service) r, s')

-- What `WithTokenCache` returns: the provider itself, or one with a refresh loop of an interval.
pub data Identity (Client : Type 0) : Type 0 where
  plain : Session Client → Identity Client
  cached : ℤ → Session Client → Identity Client

-- `WithTokenCache`
unfoldable pub with_token_cache : {Client : Type 0} → Session Client → Option ℤ → Identity Client
unfolding provider_method
with_token_cache s interval =
    if provider_method s.provider == auth_method_aksk
    then plain s
    else cached (or_default interval default_refresh_interval) s

-- `Region` of the two providers.
abbrev pub region : Provider → Text
region (aksk_provider o) = o.region
region (password_provider o) = o.region

-- The methods of what `WithTokenCache` returns: a cache hands each of them to the provider inside.
module _ {Client : Type 0} where
  abbrev pub inner : Identity Client → Session Client
  inner (plain s) = s
  inner (cached _ s) = s

  abbrev pub with_inner : Identity Client → Session Client → Identity Client
  with_inner (plain _) s = plain s
  with_inner (cached interval _) s = cached interval s

  -- `GetProvider`
  unfoldable pub provided : Sdk Client → Identity Client → Outcome Client × Identity Client
  unfolding get_provider
  provided sdk i = let (r, s) = get_provider sdk (inner i) in (r, with_inner i s)

  -- `GetServiceClient`
  unfoldable pub serviced :
      {Service : Type 0}
      → Sdk Client
      → (new_elb_v3 new_network_v1 : Client → Outcome Service) → Text
      → Identity Client
      → Outcome Service × Identity Client
  unfolding get_service_client
  serviced sdk new_elb_v3 new_network_v1 service i =
      let (r, s) = get_service_client sdk new_elb_v3 new_network_v1 service (inner i) in
      (r, with_inner i s)

  -- `AuthMethod`
  unfoldable pub identity_method : Identity Client → Text
  unfolding provider_method
  identity_method i = provider_method (inner i).provider

  -- `Region`
  unfoldable pub identity_region : Identity Client → Text
  identity_region i = region (inner i).provider

  -- The refresh loop, which only a cache has.
  unfoldable pub on_tick : Sdk Client → Identity Client → Identity Client
  unfolding refresh
  on_tick sdk (plain s) = plain s
  on_tick sdk (cached interval s) = cached interval (refresh sdk s).1
