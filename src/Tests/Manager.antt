-- ===== src/Tests/Manager.antt =====
-- The start of the controller manager with a cloud that has no ClusterID.
use cloud_provider_opentelek.Base.{◌≡◌, ◌↔◌, Bool, true, false, []}
use cloud_provider_opentelek.Text.{Text, codes}
use cloud_provider_opentelek.Provider.{provider_name}
use cloud_provider_opentelek.Manager.{
  ManagerConfig, Inited, init_failed, inited, returns, exits, no_cluster_id, cloud_initializer,
}
use cloud_provider_opentelek.Manager.Checks.{IsAdmitted, IsRefused, cloud_initializer-IsAdmitted}

abbrev tagged : Text → Bool
tagged cloud = false

abbrev init : Text → Text → Inited Text Text
init name [] = init_failed name
init name path = inited path

abbrev config : ManagerConfig
config = record {
  name = provider_name;
  cloud_config_file = codes "/cloud.conf";
  allow_untagged_cloud = true;
}

cloud_initializer-IsAdmitted_example :
    ((cloud_initializer tagged init config ≡ returns true (codes "/cloud.conf")) ↔ (
      (init provider_name (codes "/cloud.conf") ≡ inited (codes "/cloud.conf"))
      × IsAdmitted tagged config (codes "/cloud.conf") true))
    × ((cloud_initializer tagged init config ≡ exits no_cluster_id) ↔ (
        (untagged : Text) × (init provider_name (codes "/cloud.conf") ≡ inited untagged)
        × IsRefused tagged config untagged))
cloud_initializer-IsAdmitted_example =
    cloud_initializer-IsAdmitted tagged init config true (codes "/cloud.conf")
