-- ===== src/Config/Checks.antt =====
-- What an accepted cloud config guarantees.
use cloud_provider_opentelek.Base.{
  Option-cases, subst, sym, ◌≡◌, ◌↔◌, refl, true, false, not, ◌&&◌, Option, none, some, arith, inl,
  inr, Bool-cases,
}
use cloud_provider_opentelek.Text.{Text, codes}
use cloud_provider_opentelek.Config.{
  AuthOpts, CloudConfig, loaded, refused, parse_failed, is_empty, auth_method, apply_env_fallbacks,
  set_if_empty, validate, checked, finish_config, read_config, initial_config,
}

-- A complete pair of credentials.
pub data HasCredentials (o : AuthOpts) : Type 0 where
  keys : is_empty o.access_key ≡ false → is_empty o.secret_key ≡ false → HasCredentials o
  login : is_empty o.username ≡ false → is_empty o.password ≡ false → HasCredentials o

pub record IsUsable (o : AuthOpts) : Type 0 where
  pub auth_url : is_empty o.auth_url ≡ false
  pub credentials : HasCredentials o

auth_method-HasCredentials : (o : AuthOpts) → is_empty (auth_method o) ≡ false → HasCredentials o
unfolding auth_method
auth_method-HasCredentials o h =
    elim (Bool-cases (not (is_empty o.access_key) && not (is_empty o.secret_key))) [
      | inl p ↦ keys (ground arith) (ground arith)
      | inr q ↦ elim (Bool-cases (not (is_empty o.username) && not (is_empty o.password))) [
        | inl p ↦ login (ground arith) (ground arith)
        | inr p ↦ absurd (ground arith)
      ]
    ]

pub validate-IsUsable : (o : AuthOpts) → validate o ≡ none → IsUsable o
unfolding validate
validate-IsUsable o h = record {
  auth_url = ground arith;
  credentials = auth_method-HasCredentials o (ground arith);
}

finish_config-IsUsable :
    (getenv : Text → Text) (c cc' : CloudConfig)
    → finish_config getenv c ≡ loaded cc'
    → IsUsable cc'.global
unfolding finish_config checked
finish_config-IsUsable getenv c cc' h =
    elim (Option-cases (validate (apply_env_fallbacks getenv c.global))) [
      | inl p ↦
          subst IsUsable (ground arith) (validate-IsUsable (apply_env_fallbacks getenv c.global) p)
      | inr (e, p) ↦ absurd (ground arith)
    ]

-- An accepted config has an URL and credentials, whatever file and environment it came from.
pub read_config-IsUsable :
    (read_into : CloudConfig → Text → Option CloudConfig) (getenv : Text → Text)
    (file : Option Text) (cc : CloudConfig)
    → read_config read_into getenv file ≡ loaded cc
    → IsUsable cc.global
unfolding read_config
read_config-IsUsable read_into getenv none cc h = finish_config-IsUsable getenv initial_config cc h
read_config-IsUsable read_into getenv (some file) cc h = go (read_into initial_config file) h
  where
    go :
        (x : Option CloudConfig)
        → (elim x [ none ↦ refused parse_failed | some cc ↦ finish_config getenv cc ]) ≡ loaded cc
        → IsUsable cc.global
    go none p = absurd (ground arith)
    go (some c) p = finish_config-IsUsable getenv c cc p

HasCredentials-auth_method : (o : AuthOpts) → HasCredentials o → is_empty (auth_method o) ≡ false
unfolding auth_method
HasCredentials-auth_method o (keys a s) = ground arith
HasCredentials-auth_method o (login u p) = ground arith

IsUsable-validate : (o : AuthOpts) → IsUsable o → validate o ≡ none
unfolding validate
IsUsable-validate o u = rw (u.auth_url, HasCredentials-auth_method o u.credentials) refl

-- What the config sets stays, and what it does not set comes from the variable of the environment.
abbrev pub IsFilled : (Text → Text) → Text → Text → Text → Type 0
IsFilled getenv env_var old new =
    (is_empty old ≡ false → new ≡ old) × (is_empty old ≡ true → new ≡ getenv env_var)

pub record AreFilled (getenv : Text → Text) (o o' : AuthOpts) : Type 0 where
  pub auth_url : IsFilled getenv (codes "OS_AUTH_URL") o.auth_url o'.auth_url
  pub username : IsFilled getenv (codes "OS_USERNAME") o.username o'.username
  pub password : IsFilled getenv (codes "OS_PASSWORD") o.password o'.password
  pub access_key : IsFilled getenv (codes "OS_ACCESS_KEY") o.access_key o'.access_key
  pub secret_key : IsFilled getenv (codes "OS_SECRET_KEY") o.secret_key o'.secret_key
  pub security_token :
      IsFilled getenv (codes "OS_SECURITY_TOKEN") o.security_token o'.security_token
  pub domain_name : IsFilled getenv (codes "OS_DOMAIN_NAME") o.domain_name o'.domain_name
  pub domain_id : IsFilled getenv (codes "OS_DOMAIN_ID") o.domain_id o'.domain_id
  pub tenant_id : IsFilled getenv (codes "OS_TENANT_ID") o.tenant_id o'.tenant_id
  pub tenant_name : IsFilled getenv (codes "OS_TENANT_NAME") o.tenant_name o'.tenant_name
  pub project_id : IsFilled getenv (codes "OS_PROJECT_ID") o.project_id o'.project_id
  pub region : IsFilled getenv (codes "OS_REGION_NAME") o.region o'.region
  pub ca_file : o'.ca_file ≡ o.ca_file
  pub tls_insecure : o'.tls_insecure ≡ o.tls_insecure

set_if_empty-IsFilled :
    (getenv : Text → Text) (env_var old : Text)
    → IsFilled getenv env_var old (set_if_empty getenv old env_var)
unfolding set_if_empty
set_if_empty-IsFilled getenv env_var old = (λ set. rw set refl, λ unset. rw unset refl)

apply_env_fallbacks-AreFilled :
    (getenv : Text → Text) (o : AuthOpts) → AreFilled getenv o (apply_env_fallbacks getenv o)
unfolding apply_env_fallbacks
apply_env_fallbacks-AreFilled getenv o = record {
  auth_url = set_if_empty-IsFilled getenv (codes "OS_AUTH_URL") o.auth_url;
  username = set_if_empty-IsFilled getenv (codes "OS_USERNAME") o.username;
  password = set_if_empty-IsFilled getenv (codes "OS_PASSWORD") o.password;
  access_key = set_if_empty-IsFilled getenv (codes "OS_ACCESS_KEY") o.access_key;
  secret_key = set_if_empty-IsFilled getenv (codes "OS_SECRET_KEY") o.secret_key;
  security_token = set_if_empty-IsFilled getenv (codes "OS_SECURITY_TOKEN") o.security_token;
  domain_name = set_if_empty-IsFilled getenv (codes "OS_DOMAIN_NAME") o.domain_name;
  domain_id = set_if_empty-IsFilled getenv (codes "OS_DOMAIN_ID") o.domain_id;
  tenant_id = set_if_empty-IsFilled getenv (codes "OS_TENANT_ID") o.tenant_id;
  tenant_name = set_if_empty-IsFilled getenv (codes "OS_TENANT_NAME") o.tenant_name;
  project_id = set_if_empty-IsFilled getenv (codes "OS_PROJECT_ID") o.project_id;
  region = set_if_empty-IsFilled getenv (codes "OS_REGION_NAME") o.region;
  ca_file = refl;
  tls_insecure = refl;
}

filled_once :
    (getenv : Text → Text) (env_var old new : Text)
    → IsFilled getenv env_var old new
    → set_if_empty getenv old env_var ≡ new
unfolding set_if_empty
filled_once getenv env_var old new (kept, found) = elim (Bool-cases (is_empty old)) [
  | inl unset ↦ rw unset (sym (found unset))
  | inr set ↦ rw set (sym (kept set))
]

filled_options :
    (getenv : Text → Text) (o o' : AuthOpts)
    → AreFilled getenv o o'
    → apply_env_fallbacks getenv o ≡ o'
unfolding apply_env_fallbacks
filled_options getenv o o' x = λ i. record {
  auth_url = filled_once getenv (codes "OS_AUTH_URL") o.auth_url o'.auth_url x.auth_url i;
  username = filled_once getenv (codes "OS_USERNAME") o.username o'.username x.username i;
  password = filled_once getenv (codes "OS_PASSWORD") o.password o'.password x.password i;
  access_key = filled_once getenv (codes "OS_ACCESS_KEY") o.access_key o'.access_key x.access_key i;
  secret_key = filled_once getenv (codes "OS_SECRET_KEY") o.secret_key o'.secret_key x.secret_key i;
  security_token =
      filled_once getenv (codes "OS_SECURITY_TOKEN") o.security_token o'.security_token
        x.security_token i;
  domain_name =
      filled_once getenv (codes "OS_DOMAIN_NAME") o.domain_name o'.domain_name x.domain_name i;
  domain_id = filled_once getenv (codes "OS_DOMAIN_ID") o.domain_id o'.domain_id x.domain_id i;
  tenant_id = filled_once getenv (codes "OS_TENANT_ID") o.tenant_id o'.tenant_id x.tenant_id i;
  tenant_name =
      filled_once getenv (codes "OS_TENANT_NAME") o.tenant_name o'.tenant_name x.tenant_name i;
  project_id = filled_once getenv (codes "OS_PROJECT_ID") o.project_id o'.project_id x.project_id i;
  region = filled_once getenv (codes "OS_REGION_NAME") o.region o'.region x.region i;
  ca_file = sym x.ca_file i;
  tls_insecure = sym x.tls_insecure i;
}

accepted_once :
    (getenv : Text → Text) (cc cc' : CloudConfig)
    → finish_config getenv cc ≡ loaded cc'
    → (apply_env_fallbacks getenv cc.global ≡ cc'.global) × (cc.load_balancer ≡ cc'.load_balancer)
unfolding finish_config checked
accepted_once getenv cc cc' h =
    elim (Option-cases (validate (apply_env_fallbacks getenv cc.global))) [
      | inl valid ↦ (ground arith, ground arith)
      | inr (e, invalid) ↦ absurd (ground arith)
    ]

accepts :
    (getenv : Text → Text) (c c' : CloudConfig)
    → apply_env_fallbacks getenv c.global ≡ c'.global
    → c.load_balancer ≡ c'.load_balancer
    → IsUsable c'.global
    → finish_config getenv c ≡ loaded c'
unfolding finish_config checked
accepts getenv c c' same_options same_balancer usable =
    let valid : validate (apply_env_fallbacks getenv c.global) ≡ none =
      subst (λ o. validate o ≡ none) (sym same_options) (IsUsable-validate c'.global usable) in
    subst (λ v. checked v (record c { global = apply_env_fallbacks getenv c.global }) ≡ loaded c')
      (sym valid)
      (λ i. loaded (record { global = same_options i; load_balancer = same_balancer i }))

-- A config is accepted, and comes to another, exactly where the other has an auth URL and a complete pair of
-- credentials, and differs from it in nothing but the options that it leaves empty, which are the values of
-- their environment variables: what the config sets is not overwritten.
pub finish_config-AreFilled :
    (getenv : Text → Text) (cc cc' : CloudConfig)
    → (finish_config getenv cc ≡ loaded cc') ↔ (
        AreFilled getenv cc.global cc'.global
        × (cc.load_balancer ≡ cc'.load_balancer)
        × IsUsable cc'.global)
finish_config-AreFilled getenv cc cc' = (
  λ accepted.
      let (same_options, same_balancer) = accepted_once getenv cc cc' accepted in
      (
        subst (AreFilled getenv cc.global) same_options
            (apply_env_fallbacks-AreFilled getenv cc.global),
        same_balancer,
        finish_config-IsUsable getenv cc cc' accepted,
      ),
  λ x.
      let (filled, same_balancer, usable) = x in
      accepts getenv cc cc' (filled_options getenv cc.global cc'.global filled) same_balancer
        usable,
)
