-- ===== src/Config/Clouds.antt =====
-- pkg/config/clouds.go: credentials from a clouds.yaml entry.
use cloud_provider_opentelek.Base.{
  ◌≡◌, false, not, ◌&&◌, List, [], ◌∷◌, Option, none, some, arith, if◌then◌else◌, ◌⊎◌, inl, inr,
  Option-cases, subst,
}
use cloud_provider_opentelek.Text.{Text}
use cloud_provider_opentelek.Config.{
  AuthOpts, Loaded, loaded, refused, clouds_yaml_failed, is_empty, validate, checked,
}
use cloud_provider_opentelek.Config.Checks.{IsUsable, validate-IsUsable}

-- What the SDK reads from an entry: the fields of `cloud.AuthInfo` that are used, and the regions.
pub record CloudEntry : Type 0 where
  pub auth_url : Text
  pub username : Text
  pub password : Text
  pub access_key : Text
  pub secret_key : Text
  pub security_token : Text
  pub domain_name : Text
  pub domain_id : Text
  pub user_domain_name : Text
  pub user_domain_id : Text
  pub project_name : Text
  pub project_id : Text
  pub region_name : Text
  pub regions : List Text

abbrev or_else : Text → Text → Text
or_else field other = if is_empty field then other else field

abbrev or_first : Text → List Text → Text
or_first field [] = field
or_first field (r ∷ rs) = or_else field r

unfoldable pub auth_opts_of : CloudEntry → AuthOpts
auth_opts_of cloud = record {
  auth_url = cloud.auth_url;
  username = cloud.username;
  password = cloud.password;
  access_key = cloud.access_key;
  secret_key = cloud.secret_key;
  security_token = cloud.security_token;
  domain_name = or_else cloud.domain_name cloud.user_domain_name;
  domain_id = or_else cloud.domain_id cloud.user_domain_id;
  tenant_id =
      if is_empty cloud.project_name && not (is_empty cloud.project_id)
      then cloud.project_id
      else [];
  tenant_name = cloud.project_name;
  project_id = cloud.project_id;
  region = or_first cloud.region_name cloud.regions;
  ca_file = [];
  tls_insecure = false;
}

abbrev checked_entry : Option CloudEntry → Loaded AuthOpts
checked_entry none = refused clouds_yaml_failed
checked_entry (some cloud) = let opts = auth_opts_of cloud in checked (validate opts) opts

-- `AuthOptsFromCloudsYAML`. `env_cloud` is the SDK's `Cloud`, with the name or without one; `none` is an
-- error of it.
unfoldable pub auth_opts_from_clouds_yaml :
    (Option Text → Option CloudEntry) → Text → Loaded AuthOpts
auth_opts_from_clouds_yaml env_cloud cloud_name =
    checked_entry (env_cloud (if is_empty cloud_name then none else some cloud_name))

-- Usable, and scoped by a tenant's name or its id, not by both.
abbrev pub Accepted : AuthOpts → Type 0
Accepted opts = IsUsable opts × ((opts.tenant_name ≡ []) ⊎ (opts.tenant_id ≡ []))

tenant :
    (cloud : CloudEntry)
    → ((auth_opts_of cloud).tenant_name ≡ []) ⊎ ((auth_opts_of cloud).tenant_id ≡ [])
unfolding auth_opts_of
tenant cloud = ground arith

checked_entry-IsUsable :
    (entry : Option CloudEntry) (opts : AuthOpts)
    → checked_entry entry ≡ loaded opts
    → Accepted opts
unfolding checked auth_opts_of
checked_entry-IsUsable none opts h = absurd (ground arith)
checked_entry-IsUsable (some cloud) opts h = elim (Option-cases (validate (auth_opts_of cloud))) [
  | inl p ↦
      let same : auth_opts_of cloud ≡ opts = ground arith in
      subst Accepted same (validate-IsUsable (auth_opts_of cloud) p, tenant cloud)
  | inr (e, p) ↦ absurd (ground arith)
]

-- Accepted options have an URL and credentials, and never both a tenant's name and its id.
pub auth_opts_from_clouds_yaml-IsUsable :
    (env_cloud : Option Text → Option CloudEntry) (cloud_name : Text) (opts : AuthOpts)
    → auth_opts_from_clouds_yaml env_cloud cloud_name ≡ loaded opts
    → Accepted opts
unfolding auth_opts_from_clouds_yaml
auth_opts_from_clouds_yaml-IsUsable env_cloud cloud_name opts h = checked_entry-IsUsable _ opts h
