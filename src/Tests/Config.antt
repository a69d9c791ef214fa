-- ===== src/Tests/Config.antt =====
-- The cloud config: the inputs of pkg/config/config_test.go.
use cloud_provider_opentelek.Base.{
  ◌≡◌, ◌↔◌, refl, List, [], ◌∷◌, Option, some, ◌++◌, In, first, later,
}
use cloud_provider_opentelek.Text.{Text, codes, text_beq, trim_space}
use cloud_provider_opentelek.Text.Commas.{join_comma}
use cloud_provider_opentelek.Config.{
  CloudConfig, loaded, empty_auth_opts, default_load_balancer_opts, read_config, finish_config,
  apply_env_fallbacks, validate, checked,
}
use cloud_provider_opentelek.Config.Checks.{
  IsUsable, read_config-IsUsable, AreFilled, finish_config-AreFilled,
}
use cloud_provider_opentelek.Config.Clouds.{
  CloudEntry, auth_opts_of, auth_opts_from_clouds_yaml, Accepted,
  auth_opts_from_clouds_yaml-IsUsable,
}
use cloud_provider_opentelek.Config.Printed.{
  auth_opts_string, auth_opts_go_string, auth_opts_string_secret,
}
use cloud_provider_opentelek.Settings.{ann_value, ann_list, annotation_availability_zones}
use cloud_provider_opentelek.Settings.Lists.{IsEntry, ann_list-join_comma}

-- A file that sets the keys, and an environment that gives the URL.
abbrev from_file : CloudConfig → Text → Option CloudConfig
from_file cc file =
    some
      (record cc { global = record cc.global { access_key = codes "ak"; secret_key = codes "sk" } })

abbrev getenv : Text → Text
getenv _ = codes "https://iam"

abbrev loaded_config : CloudConfig
loaded_config = record {
  global =
      apply_env_fallbacks getenv
        (record empty_auth_opts { access_key = codes "ak"; secret_key = codes "sk" });
  load_balancer = default_load_balancer_opts;
}

loads : read_config from_file getenv (some (codes "[Global]")) ≡ loaded loaded_config
unfolding read_config
loads = refl

read_config-IsUsable_example : IsUsable loaded_config.global
read_config-IsUsable_example =
    read_config-IsUsable from_file getenv (some (codes "[Global]")) loaded_config loads

-- A URL in the config, where the environment has another one.
abbrev partial : CloudConfig
partial = record {
  global = record empty_auth_opts {
    auth_url = codes "https://file";
    access_key = codes "ak";
    secret_key = codes "sk";
  };
  load_balancer = default_load_balancer_opts;
}

abbrev completed : CloudConfig
completed = record partial {
  global = record partial.global {
    username = codes "https://iam";
    password = codes "https://iam";
    security_token = codes "https://iam";
    domain_name = codes "https://iam";
    domain_id = codes "https://iam";
    tenant_id = codes "https://iam";
    tenant_name = codes "https://iam";
    project_id = codes "https://iam";
    region = codes "https://iam";
  };
}

finish_config-AreFilled_example : (finish_config getenv partial ≡ loaded completed) ↔ (
    AreFilled getenv partial.global completed.global
    × (partial.load_balancer ≡ completed.load_balancer)
    × IsUsable completed.global)
finish_config-AreFilled_example = finish_config-AreFilled getenv partial completed

completes : finish_config getenv partial ≡ loaded completed
unfolding finish_config
completes = refl

abbrev entry : CloudEntry
entry = record {
  auth_url = codes "https://iam";
  username = codes "user";
  password = codes "secret";
  access_key = [];
  secret_key = [];
  security_token = [];
  domain_name = [];
  domain_id = [];
  user_domain_name = codes "OTC";
  user_domain_id = [];
  project_name = [];
  project_id = codes "p1";
  region_name = [];
  regions = codes "eu-de" ∷ [];
}

accepts : auth_opts_from_clouds_yaml (λ name. some entry) [] ≡ loaded (auth_opts_of entry)
unfolding auth_opts_from_clouds_yaml checked validate auth_opts_of
accepts = refl

auth_opts_from_clouds_yaml-IsUsable_example : Accepted (auth_opts_of entry)
auth_opts_from_clouds_yaml-IsUsable_example =
    auth_opts_from_clouds_yaml-IsUsable (λ name. some entry) [] (auth_opts_of entry) accepts

abbrev quote : Text → Text
quote t = codes "'" ++ (t ++ codes "'")

auth_opts_string_secret_example :
    (auth_opts_string quote (record empty_auth_opts {
      password = codes "p";
      secret_key = codes "s";
      security_token = codes "t";
    })
      ≡ auth_opts_string quote empty_auth_opts)
    × (auth_opts_go_string quote (record empty_auth_opts {
      password = codes "p";
      secret_key = codes "s";
      security_token = codes "t";
    })
        ≡ auth_opts_go_string quote empty_auth_opts)
auth_opts_string_secret_example =
    auth_opts_string_secret quote empty_auth_opts (codes "p") (codes "s") (codes "t")

abbrev zone_1 : Text
zone_1 = codes "eu-de-01"

abbrev zone_2 : Text
zone_2 = codes "eu-de-02"

abbrev zones_given : List (Text × Text)
zones_given = (annotation_availability_zones, codes "eu-de-01,eu-de-02") ∷ []

zones-IsEntry : (y : Text) → In y (zone_1 ∷ zone_2 ∷ []) → IsEntry y
unfolding trim_space
zones-IsEntry _ first = record {
  whole = (refl, (refl, (refl, (refl, (refl, (refl, (refl, (refl, tt))))))));
  trimmed = refl;
  filled = refl;
}
zones-IsEntry _ (later _ first) = record {
  whole = (refl, (refl, (refl, (refl, (refl, (refl, (refl, (refl, tt))))))));
  trimmed = refl;
  filled = refl;
}
zones-IsEntry _ (later _ (later _ i)) = elim i [ ]

gives_zones :
    ann_value zones_given annotation_availability_zones ≡ join_comma (zone_1 ∷ zone_2 ∷ [])
unfolding ann_value text_beq
gives_zones = refl

ann_list-join_comma_example :
    ann_list zones_given annotation_availability_zones [] ≡ zone_1 ∷ zone_2 ∷ []
ann_list-join_comma_example =
    ann_list-join_comma zones_given annotation_availability_zones [] zone_1 (zone_2 ∷ [])
      zones-IsEntry gives_zones
