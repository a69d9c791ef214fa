-- ===== src/Provider.antt =====
-- pkg/opentelekomcloud: the cloud provider is its config and its identity.
pub mod Start
use cloud_provider_opentelek.Base.{Bool, true, false, Option, none}
use cloud_provider_opentelek.Text.{Text, codes}
use cloud_provider_opentelek.Config.{CloudConfig, ConfigError, Loaded, loaded, refused, read_config}
use cloud_provider_opentelek.Identity.{
  Provider, IdentityError, Outcome, done, failed, Session, new_identity_provider,
}
use cloud_provider_opentelek.Identity.Services.{Identity, with_token_cache}

pub record CloudProvider : Type 0 where
  pub identity : Provider
  pub config : CloudConfig

pub data Started : Type 0 where
  started : CloudProvider → Started
  config_refused : ConfigError → Started
  identity_refused : IdentityError → Started

unfoldable pub with_identity : CloudConfig → Outcome Provider → Started
with_identity cc (done p) = started (record { identity = p; config = cc })
with_identity cc (failed e) = identity_refused e

unfoldable pub with_config : Loaded CloudConfig → Started
unfolding with_identity
with_config (refused e) = config_refused e
with_config (loaded cc) = with_identity cc (new_identity_provider cc.global)

-- `NewOTC`
unfoldable pub new_otc :
    (CloudConfig → Text → Option CloudConfig) → (Text → Text) → Option Text → Started
unfolding with_config
new_otc read_into getenv file = with_config (read_config read_into getenv file)

-- `Initialize`, which leaves the interval to its default.
unfoldable pub initialize : {Client : Type 0} → Session Client → Identity Client
unfolding with_token_cache
initialize s = with_token_cache s none

abbrev pub provider_name : Text
provider_name = codes "opentelekomcloud"

-- The factory that `init` registers under the name of the provider.
unfoldable pub factory :
    (CloudConfig → Text → Option CloudConfig) → (Text → Text) → Option Text → Started
unfolding new_otc
factory read_into getenv cfg = elim (new_otc read_into getenv cfg) [
  | started otc ↦ started otc
  | config_refused e ↦ config_refused e
  | identity_refused e ↦ identity_refused e
]

-- The interfaces of `cloudprovider.Interface`, of which the provider has the load balancer alone.
pub data Feature : Type 0 where
  load_balancer instances instances_v2 zones clusters routes : Feature

-- The second result of `LoadBalancer`, `Instances`, `InstancesV2`, `Zones`, `Clusters` and `Routes`.
unfoldable pub is_supported : CloudProvider → Feature → Bool
is_supported cp Feature.load_balancer = true
is_supported cp Feature.instances = false
is_supported cp Feature.instances_v2 = false
is_supported cp Feature.zones = false
is_supported cp Feature.clusters = false
is_supported cp Feature.routes = false

-- `ProviderName`
abbrev pub name_of : CloudProvider → Text
name_of cp = provider_name

-- `HasClusterID`
abbrev pub has_cluster_id : CloudProvider → Bool
has_cluster_id cp = true
