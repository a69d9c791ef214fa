-- ===== src/Identity.antt =====
-- pkg/identity: the choice of the provider, its one login, and the loop that refreshes the token.
pub mod Choice
pub mod Login
pub mod Services
pub mod Refresh
use cloud_provider_opentelek.Base.{
  ℕ, suc, Bool, true, ◌||◌, Option, none, some, if◌then◌else◌, ◌==◌,
}
use cloud_provider_opentelek.Text.{Text, text_eq}
use cloud_provider_opentelek.Config.{
  AuthOpts, is_empty, auth_method, auth_method_password, auth_method_aksk,
}

pub data IdentityError : Type 0 where
  keys_required login_required auth_url_required no_credentials_found : IdentityError
  client_failed login_failed : IdentityError
  ca_unreadable ca_invalid unsupported_service : Text → IdentityError

pub data Outcome (A : Type 0) : Type 0 where
  done : A → Outcome A
  failed : IdentityError → Outcome A

-- `akskProvider` and `passwordProvider` before their login: the options that they keep.
pub data Provider : Type 0 where
  aksk_provider password_provider : AuthOpts → Provider

-- `NewAKSKProvider`
unfoldable pub new_aksk_provider : AuthOpts → Outcome Provider
new_aksk_provider o =
    if is_empty o.access_key || is_empty o.secret_key
    then failed keys_required
    else if is_empty o.auth_url
    then failed auth_url_required
    else done (aksk_provider o)

-- `NewPasswordProvider`
unfoldable pub new_password_provider : AuthOpts → Outcome Provider
new_password_provider o =
    if is_empty o.username || is_empty o.password
    then failed login_required
    else if is_empty o.auth_url
    then failed auth_url_required
    else done (password_provider o)

-- `NewIdentityProvider`
unfoldable pub new_identity_provider : AuthOpts → Outcome Provider
unfolding auth_method new_aksk_provider new_password_provider
new_identity_provider o =
    if auth_method o == auth_method_aksk
    then new_aksk_provider o
    else if auth_method o == auth_method_password
    then new_password_provider o
    else failed no_credentials_found

-- `AuthMethod` of the two providers.
unfoldable pub provider_method : Provider → Text
provider_method (aksk_provider _) = auth_method_aksk
provider_method (password_provider _) = auth_method_password

abbrev pub provider_opts : Provider → AuthOpts
provider_opts (aksk_provider o) = o
provider_opts (password_provider o) = o

-- `golangsdk.AKSKAuthOptions` and `golangsdk.AuthOptions`, as far as they are filled in.
pub data Credentials : Type 0 where
  aksk_credentials :
      (identity_endpoint access_key secret_key security_token project_id project_name : Text)
      (region domain domain_id : Text)
      → Credentials
  password_credentials :
      (identity_endpoint username password domain_name domain_id tenant_id tenant_name : Text)
      (allow_reauth : Bool)
      → Credentials

abbrev pub aksk_credentials_of : AuthOpts → Credentials
aksk_credentials_of o =
    aksk_credentials o.auth_url o.access_key o.secret_key o.security_token o.project_id
      o.tenant_name o.region o.domain_name o.domain_id

abbrev pub password_credentials_of : AuthOpts → Credentials
password_credentials_of o =
    password_credentials o.auth_url o.username o.password o.domain_name o.domain_id o.tenant_id
      o.tenant_name true

abbrev pub credentials : Provider → Credentials
credentials (aksk_provider o) = aksk_credentials_of o
credentials (password_provider o) = password_credentials_of o

-- The TLS options of an `http.Transport`; TLS 1.2 is always the least version.
pub record Transport : Type 0 where
  pub insecure : Bool
  pub root_cas : Option Text

-- What is not in the repository: the SDK and the file system. Each may answer differently at each
-- login, which the number counts. `log_in` is `openstack.Authenticate` on a client with a transport.
pub record Sdk (Client : Type 0) : Type 1 where
  pub new_client : ℕ → Text → Option Client
  pub read_file : ℕ → Text → Option Text
  pub append_certs : Text → Bool
  pub log_in : ℕ → Client → Transport → Credentials → Option Client
  -- `ReauthFunc`, which puts a new token into the client that a pointer refers to; `none` is nil, and
  -- `some true` a success.
  pub reauthenticate : ℕ → Client → Option Bool

module _ {Client : Type 0} (sdk : Sdk Client) where
  unfoldable pub parse_ca : Transport → Text → Text → Outcome Transport
  parse_ca t ca_file ca_cert =
      if sdk.append_certs ca_cert
      then done (record t { root_cas = some ca_cert })
      else failed (ca_invalid ca_file)

  -- `buildTransport`
  unfoldable pub build_transport : ℕ → AuthOpts → Outcome Transport
  unfolding parse_ca
  build_transport n o =
      let t : Transport = record { insecure = o.tls_insecure; root_cas = none } in
      if is_empty o.ca_file then done t else elim (sdk.read_file n o.ca_file) [
        | none ↦ failed (ca_unreadable o.ca_file)
        | some ca_cert ↦ parse_ca t o.ca_file ca_cert
      ]

  unfoldable pub log_in_over : ℕ → Credentials → Client → Outcome Transport → Outcome Client
  log_in_over n k client (failed e) = failed e
  log_in_over n k client (done t) = elim (sdk.log_in n client t k) [
    | none ↦ failed login_failed
    | some c ↦ done c
  ]

  -- What `authenticate` of both providers does with their credentials.
  unfoldable pub log_in_with : ℕ → AuthOpts → Credentials → Outcome Client
  unfolding build_transport log_in_over
  log_in_with n o k = elim (sdk.new_client n o.auth_url) [
    | none ↦ failed client_failed
    | some client ↦ log_in_over n k client (build_transport n o)
  ]

  unfoldable pub authenticate_aksk : ℕ → AuthOpts → Outcome Client
  unfolding log_in_with
  authenticate_aksk n o = log_in_with n o (aksk_credentials_of o)

  unfoldable pub authenticate_password : ℕ → AuthOpts → Outcome Client
  unfolding log_in_with
  authenticate_password n o = log_in_with n o (password_credentials_of o)

  -- `authenticate` of the two providers.
  unfoldable pub authenticate : ℕ → Provider → Outcome Client
  unfolding authenticate_aksk authenticate_password
  authenticate n (aksk_provider o) = authenticate_aksk n o
  authenticate n (password_provider o) = authenticate_password n o

-- What a tick of the refresh loop writes to the log.
pub data Tick : Type 0 where
  no_provider : IdentityError → Tick
  no_reauth token_refreshed refresh_failed : Tick

-- A provider with the client that its login gave, and the number of logins tried.
pub record Session (Client : Type 0) : Type 0 where
  pub provider : Provider
  pub client : Option Client
  pub tried : ℕ

module _ {Client : Type 0} (sdk : Sdk Client) where
  unfoldable pub logged_in : Session Client → Outcome Client → Outcome Client × Session Client
  logged_in s (done c) = (done c, record s { client = some c; tried = suc s.tried })
  logged_in s (failed e) = (failed e, record s { tried = suc s.tried })

  -- `GetProvider`, which holds the lock from its first line to its last.
  unfoldable pub get_provider : Session Client → Outcome Client × Session Client
  unfolding authenticate logged_in
  get_provider s = elim s.client [
    | none ↦ logged_in s (authenticate sdk s.tried s.provider)
    | some c ↦ (done c, s)
  ]

  unfoldable pub reauthenticated : ℕ → Outcome Client → Tick
  reauthenticated n (failed e) = no_provider e
  reauthenticated n (done c) = elim (sdk.reauthenticate n c) [
    | none ↦ no_reauth
    | some ok ↦ if ok then token_refreshed else refresh_failed
  ]

  -- One tick of `refreshLoop`. Whatever goes wrong is logged, and the loop goes on.
  unfoldable pub refresh : Session Client → Tick × Session Client
  unfolding get_provider reauthenticated
  refresh s = let (r, s') = get_provider s in (reauthenticated s.tried r, s')
