-- ===== src/Identity/Choice.antt =====
-- NewIdentityProvider after ReadConfig.
use cloud_provider_opentelek.Base.{false, ◌≡◌, refl, Option, arith, not, ◌&&◌, inl, inr, Bool-cases}
use cloud_provider_opentelek.Text.{Text, text_beq}
use cloud_provider_opentelek.Config.{
  CloudConfig, AuthOpts, loaded, read_config, auth_method, is_empty,
}
use cloud_provider_opentelek.Config.Checks.{
  IsUsable, HasCredentials, keys, login, read_config-IsUsable,
}
use cloud_provider_opentelek.Identity.{
  Provider, aksk_provider, password_provider, done, new_aksk_provider, new_password_provider,
  new_identity_provider, provider_method, provider_opts,
}

has_login :
    (o : AuthOpts)
    → HasCredentials o
    → not (is_empty o.access_key) && not (is_empty o.secret_key) ≡ false
    → (is_empty o.username ≡ false) × (is_empty o.password ≡ false)
has_login o (keys a s) lacking = absurd (ground arith)
has_login o (login u p) lacking = (u, p)

new_identity_provider-IsUsable :
    (o : AuthOpts)
    → IsUsable o
    → (p : Provider) × (new_identity_provider o ≡ done p)
      × (provider_method p ≡ auth_method o)
      × (provider_opts p ≡ o)
unfolding new_identity_provider new_aksk_provider new_password_provider auth_method provider_method
    text_beq
new_identity_provider-IsUsable o usable =
    elim (Bool-cases (not (is_empty o.access_key) && not (is_empty o.secret_key))) [
      | inl both ↦
          let access : is_empty o.access_key ≡ false = ground arith in
          let secret : is_empty o.secret_key ≡ false = ground arith in
          (
            aksk_provider o,
            rw (access, secret, usable.auth_url) refl,
            rw (access, secret) refl,
            refl,
          )
      | inr lacking ↦
          let (user, password) = has_login o usable.credentials lacking in
          (
            password_provider o,
            rw (lacking, user, password, usable.auth_url) refl,
            rw (lacking, user, password) refl,
            refl,
          )
    ]

-- A config that ReadConfig accepts gives a provider.
pub new_identity_provider-read_config :
    (read_into : CloudConfig → Text → Option CloudConfig) (getenv : Text → Text)
    (file : Option Text) (cc : CloudConfig)
    → read_config read_into getenv file ≡ loaded cc
    → (p : Provider) × (new_identity_provider cc.global ≡ done p)
      × (provider_method p ≡ auth_method cc.global)
      × (provider_opts p ≡ cc.global)
new_identity_provider-read_config read_into getenv file cc h =
    new_identity_provider-IsUsable cc.global (read_config-IsUsable read_into getenv file cc h)
