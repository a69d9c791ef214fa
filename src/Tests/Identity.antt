-- ===== src/Tests/Identity.antt =====
-- An identity whose first login fails, and the start of the cloud provider.
use cloud_provider_opentelek.Base.{◌≡◌, refl, ℕ, zero, suc, true, Option, none, some, List, [], ◌∷◌}
use cloud_provider_opentelek.Text.{Text, codes, text_beq}
use cloud_provider_opentelek.Config.{
  CloudConfig, AuthOpts, loaded, empty_auth_opts, default_load_balancer_opts, read_config,
  auth_method,
}
use cloud_provider_opentelek.Identity.{
  Provider, password_provider, Sdk, Session, done, get_provider, refresh, provider_method,
  provider_opts,
}
use cloud_provider_opentelek.Identity.Login.{
  start, used, ticked, IsFrom, get_provider-Steps, Steps-IsFrom,
}
use cloud_provider_opentelek.Identity.Services.{with_token_cache}
use cloud_provider_opentelek.Identity.Refresh.{Event, served, expected, served-with_token_cache}
use cloud_provider_opentelek.Provider.{started, new_otc}
use cloud_provider_opentelek.Provider.Start.{new_otc-read_config}

abbrev answer_at : ℕ → Text → Option Text
answer_at zero c = none
answer_at (suc _) c = some c

abbrev sdk : Sdk Text
sdk = record {
  new_client = λ n url. some url;
  read_file = λ n path. some (codes "pem");
  append_certs = λ pem. true;
  log_in = λ n c transport with. answer_at n c;
  reauthenticate = λ n c. some true;
}

abbrev options : AuthOpts
options = record empty_auth_opts {
  auth_url = codes "https://iam";
  username = codes "user";
  password = codes "secret";
  ca_file = codes "/ca.pem";
}

abbrev fresh : Session Text
fresh = record { provider = password_provider options; client = none; tried = 0 }

abbrev retried : Session Text
retried = record fresh { tried = 1 }

abbrev after_login : Session Text
after_login = (get_provider sdk retried).1

logs_in : (get_provider sdk retried).0 ≡ done (codes "https://iam")
unfolding get_provider
logs_in = refl

get_provider-Steps_example :
    get_provider sdk (get_provider sdk (refresh sdk after_login).1).1
    ≡ (done (codes "https://iam"), after_login)
get_provider-Steps_example =
    get_provider-Steps sdk retried (get_provider sdk (refresh sdk after_login).1).1
      (codes "https://iam") logs_in (used (ticked start))

abbrev second : Session Text
second = (refresh sdk (get_provider sdk fresh).1).1

holds : second.client ≡ some (codes "https://iam")
unfolding refresh
holds = refl

Steps-IsFrom_example : IsFrom sdk (password_provider options) (codes "https://iam")
Steps-IsFrom_example =
    Steps-IsFrom sdk fresh second (codes "https://iam") refl (ticked (used start)) holds

abbrev file_config : CloudConfig
file_config = record { global = options; load_balancer = default_load_balancer_opts }

abbrev pub from_file : CloudConfig → Text → Option CloudConfig
from_file into file = some (record into { global = options })

loads_options : read_config from_file (λ name. []) (some (codes "[Global]")) ≡ loaded file_config
unfolding read_config
loads_options = refl

new_otc-read_config_example :
    (p : Provider) × (new_otc from_file (λ name. []) (some (codes "[Global]"))
      ≡ started (record { identity = p; config = file_config }))
    × (provider_method p ≡ auth_method file_config.global)
    × (provider_opts p ≡ file_config.global)
new_otc-read_config_example =
    new_otc-read_config from_file (λ name. []) (some (codes "[Global]")) file_config loads_options

abbrev mixed : List Event
mixed = Event.ticks ∷ Event.asks ∷ Event.ticks ∷ Event.asks ∷ []

served-with_token_cache_example :
    served sdk mixed (with_token_cache fresh none) ≡ expected sdk fresh.provider mixed fresh
served-with_token_cache_example = served-with_token_cache sdk mixed fresh none

-- The first login, which fails, is that of a tick.
serves_both :
    served sdk mixed (with_token_cache fresh none)
    ≡ done (codes "https://iam") ∷ done (codes "https://iam") ∷ []
unfolding served with_token_cache text_beq
serves_both = refl
