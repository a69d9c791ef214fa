-- ===== src/Manager.antt =====
-- cmd/cloud-controller-manager: the start of the controller manager.
pub mod Checks
use cloud_provider_opentelek.Base.{
  ℕ, Bool, true, false, Option, none, some, ◌⊎◌, inl, inr, if◌then◌else◌,
}
use cloud_provider_opentelek.Text.{Text}

-- The fields of the completed config of the controller manager that are read.
pub record ManagerConfig : Type 0 where
  pub name : Text
  pub cloud_config_file : Text
  pub allow_untagged_cloud : Bool

-- How `cloudprovider.InitCloudProvider` ends: with an error, a nil interface or a cloud; or it ends the process
-- itself, as where it cannot open the config file.
pub data Inited (E Cloud : Type 0) : Type 0 where
  init_failed : E → Inited E Cloud
  no_cloud : Inited E Cloud
  inited : Cloud → Inited E Cloud
  init_exits : Inited E Cloud

-- Where the process ends: in `InitCloudProvider`, or at one of the calls of `klog.Fatalf`.
pub data Fatal (E : Type 0) : Type 0 where
  exited_in_init : Fatal E
  not_initialized : E → Fatal E
  nil_cloud : Fatal E
  no_cluster_id : Fatal E

-- A cloud, and whether a warning of a missing ClusterID was logged; or the end of the process.
pub data Initialized (E Cloud : Type 0) : Type 0 where
  exits : Fatal E → Initialized E Cloud
  returns : (warned : Bool) → Cloud → Initialized E Cloud

module _ {E Cloud : Type 0} (has_cluster_id : Cloud → Bool) where
  -- The checks of `cloudInitializer`. `klog.Fatalf` does not return.
  unfoldable pub check_cloud : ManagerConfig → Inited E Cloud → Initialized E Cloud
  check_cloud config init_exits = exits exited_in_init
  check_cloud config (init_failed e) = exits (not_initialized e)
  check_cloud config no_cloud = exits nil_cloud
  check_cloud config (inited cloud) =
      if has_cluster_id cloud
      then returns false cloud
      else if config.allow_untagged_cloud
      then returns true cloud
      else exits no_cluster_id

  -- `cloudInitializer`; `init_cloud_provider` is that of k8s.io/cloud-provider.
  unfoldable pub cloud_initializer :
      (init_cloud_provider : Text → Text → Inited E Cloud) → ManagerConfig → Initialized E Cloud
  unfolding check_cloud
  cloud_initializer init_cloud_provider config =
      check_cloud config (init_cloud_provider config.name config.cloud_config_file)

-- How the process ends: by `klog.Fatalf`, by `os.Exit` with a code, or at the end of `main`.
pub data Ended (E : Type 0) : Type 0 where
  fatal_options : E → Ended E
  exit_with : ℕ → E → Ended E
  finished : Ended E

unfoldable pub ended : {E : Type 0} → Option E → Ended E
ended none = finished
ended (some e) = exit_with 1 e

-- `main`: an error of the options, or the command that is built from them and executed.
unfoldable pub run_main :
    {E Options : Type 0} → E ⊎ Options → (execute : Options → Option E) → Ended E
unfolding ended
run_main (inl e) execute = fatal_options e
run_main (inr options) execute = ended (execute options)
