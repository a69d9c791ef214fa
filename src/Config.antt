-- ===== src/Config.antt =====
-- pkg/config/config.go: the cloud config, its defaults, the environment and the checks.
pub mod Checks
pub mod Printed
pub mod Clouds
use cloud_provider_opentelek.Base.{
  Bool, true, false, not, ◌&&◌, List, [], ◌∷◌, ◌++◌, Option, none, some, if◌then◌else◌, ◌==◌,
}
use cloud_provider_opentelek.Base.Int.{ℤ, pos}
use cloud_provider_opentelek.Text.{Text, codes, text_eq}

pub record AuthOpts : Type 0 where
  pub auth_url : Text
  pub username : Text
  pub password : Text
  pub access_key : Text
  pub secret_key : Text
  pub security_token : Text
  pub domain_name : Text
  pub domain_id : Text
  pub tenant_id : Text
  pub tenant_name : Text
  pub project_id : Text
  pub region : Text
  pub ca_file : Text
  pub tls_insecure : Bool

pub record LoadBalancerOpts : Type 0 where
  pub subnet_id : Text
  pub vpc_id : Text
  pub availability_zones : List Text
  pub l4_flavor_id : Text
  pub lb_algorithm : Text
  pub health_check_enabled : Bool
  pub health_check_delay : ℤ
  pub health_check_timeout : ℤ
  pub health_check_max_retries : ℤ

pub record CloudConfig : Type 0 where
  pub global : AuthOpts
  pub load_balancer : LoadBalancerOpts

abbrev pub empty_auth_opts : AuthOpts
empty_auth_opts = record {
  auth_url = [];
  username = [];
  password = [];
  access_key = [];
  secret_key = [];
  security_token = [];
  domain_name = [];
  domain_id = [];
  tenant_id = [];
  tenant_name = [];
  project_id = [];
  region = [];
  ca_file = [];
  tls_insecure = false;
}

-- `DefaultLoadBalancerOpts`
abbrev pub default_load_balancer_opts : LoadBalancerOpts
default_load_balancer_opts = record {
  subnet_id = [];
  vpc_id = [];
  availability_zones = [];
  l4_flavor_id = [];
  lb_algorithm = codes "ROUND_ROBIN";
  health_check_enabled = true;
  health_check_delay = pos 5;
  health_check_timeout = pos 3;
  health_check_max_retries = pos 3;
}

abbrev pub auth_method_password : Text
auth_method_password = codes "password"

abbrev pub auth_method_aksk : Text
auth_method_aksk = codes "aksk"

abbrev pub is_empty : Text → Bool
is_empty [] = true
is_empty (_ ∷ _) = false

-- `AuthOpts.AuthMethod`
unfoldable pub auth_method : AuthOpts → Text
auth_method o =
    if not (is_empty o.access_key) && not (is_empty o.secret_key)
    then auth_method_aksk
    else if not (is_empty o.username) && not (is_empty o.password)
    then auth_method_password
    else []

-- `setIfEmpty`, with the environment as a function.
set_if_empty : (Text → Text) → Text → Text → Text
set_if_empty getenv field env_var = if is_empty field then getenv env_var else field

unfoldable pub apply_env_fallbacks : (Text → Text) → AuthOpts → AuthOpts
unfolding set_if_empty
apply_env_fallbacks getenv o = record o {
  auth_url = set_if_empty getenv o.auth_url (codes "OS_AUTH_URL");
  username = set_if_empty getenv o.username (codes "OS_USERNAME");
  password = set_if_empty getenv o.password (codes "OS_PASSWORD");
  access_key = set_if_empty getenv o.access_key (codes "OS_ACCESS_KEY");
  secret_key = set_if_empty getenv o.secret_key (codes "OS_SECRET_KEY");
  security_token = set_if_empty getenv o.security_token (codes "OS_SECURITY_TOKEN");
  domain_name = set_if_empty getenv o.domain_name (codes "OS_DOMAIN_NAME");
  domain_id = set_if_empty getenv o.domain_id (codes "OS_DOMAIN_ID");
  tenant_id = set_if_empty getenv o.tenant_id (codes "OS_TENANT_ID");
  tenant_name = set_if_empty getenv o.tenant_name (codes "OS_TENANT_NAME");
  project_id = set_if_empty getenv o.project_id (codes "OS_PROJECT_ID");
  region = set_if_empty getenv o.region (codes "OS_REGION_NAME");
}

pub data ConfigError : Type 0 where
  parse_failed no_auth_url no_credentials clouds_yaml_failed : ConfigError

-- `validate`; `none` is nil.
unfoldable pub validate : AuthOpts → Option ConfigError
unfolding auth_method
validate o =
    if is_empty o.auth_url
    then some no_auth_url
    else if is_empty (auth_method o)
    then some no_credentials
    else none

pub data Loaded (A : Type 0) : Type 0 where
  loaded : A → Loaded A
  refused : ConfigError → Loaded A

unfoldable pub checked : {A : Type 0} → Option ConfigError → A → Loaded A
checked none a = loaded a
checked (some e) a = refused e

-- The second half of `ReadConfig`, after the parse.
unfoldable pub finish_config : (Text → Text) → CloudConfig → Loaded CloudConfig
unfolding apply_env_fallbacks validate checked
finish_config getenv cc =
    let cc' : CloudConfig = record cc { global = apply_env_fallbacks getenv cc.global } in
    checked (validate cc'.global) cc'

abbrev pub initial_config : CloudConfig
initial_config = record { global = empty_auth_opts; load_balancer = default_load_balancer_opts }

-- `ReadConfig`. `read_into` is gcfg's, which overwrites what the file sets in the config that it is
-- given; `none` is a fatal parse error. A nil reader is `none`.
unfoldable pub read_config :
    (CloudConfig → Text → Option CloudConfig) → (Text → Text) → Option Text → Loaded CloudConfig
unfolding finish_config
read_config read_into getenv none = finish_config getenv initial_config
read_config read_into getenv (some file) = elim (read_into initial_config file) [
  | none ↦ refused parse_failed
  | some cc ↦ finish_config getenv cc
]
