-- ===== src/Provider/Start.antt =====
-- NewOTC after ReadConfig.
use cloud_provider_opentelek.Base.{◌≡◌, refl, Option}
use cloud_provider_opentelek.Text.{Text}
use cloud_provider_opentelek.Config.{CloudConfig, loaded, read_config, auth_method}
use cloud_provider_opentelek.Identity.{Provider, provider_method, provider_opts}
use cloud_provider_opentelek.Identity.Choice.{new_identity_provider-read_config}
use cloud_provider_opentelek.Provider.{started, new_otc, with_config, with_identity}

-- NewOTC starts with each config that ReadConfig accepts, keeps that config, and its identity has the
-- options of the config and the auth method that they select.
pub new_otc-read_config :
    (read_into : CloudConfig → Text → Option CloudConfig) (getenv : Text → Text)
    (file : Option Text) (cc : CloudConfig)
    → read_config read_into getenv file ≡ loaded cc
    → (p : Provider) × (new_otc read_into getenv file
        ≡ started (record { identity = p; config = cc }))
      × (provider_method p ≡ auth_method cc.global)
      × (provider_opts p ≡ cc.global)
unfolding new_otc with_config with_identity
new_otc-read_config read_into getenv file cc h =
    let (p, made, method, options) = new_identity_provider-read_config read_into getenv file cc h in
    (p, rw (h, made) refl, method, options)
