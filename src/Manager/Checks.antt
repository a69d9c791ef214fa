-- ===== src/Manager/Checks.antt =====
-- When the controller manager starts with a cloud.
use cloud_provider_opentelek.Base.{
  ◌≡◌, ap, sym, subst, ◌↔◌, ◌⊎◌, refl, inl, inr, Bool, true, false, arith, Bool-cases,
}
use cloud_provider_opentelek.Text.{Text}
use cloud_provider_opentelek.Manager.{
  ManagerConfig, Inited, init_failed, no_cloud, inited, init_exits, no_cluster_id, Initialized,
  exits, returns, check_cloud, cloud_initializer,
}

module _ {Cloud : Type 0} (has_cluster_id : Cloud → Bool) (config : ManagerConfig) where
  -- The cloud may be used, and a warning is due only where it has no ClusterID.
  abbrev pub IsAdmitted : Cloud → Bool → Type 0
  IsAdmitted cloud warned =
      ((has_cluster_id cloud ≡ true) × (warned ≡ false))
      ⊎ ((has_cluster_id cloud ≡ false) × (config.allow_untagged_cloud ≡ true) × (warned ≡ true))

  abbrev pub IsRefused : Cloud → Type 0
  IsRefused cloud = (has_cluster_id cloud ≡ false) × (config.allow_untagged_cloud ≡ false)

module _ {E Cloud : Type 0} (has_cluster_id : Cloud → Bool) (config : ManagerConfig) where
  same_return :
      {b b' : Bool} {c c' : Cloud}
      → ◌≡◌ {A = Initialized E Cloud} (returns b c) (returns b' c')
      → (b ≡ b') × (c ≡ c')
  same_return h = (ground arith, ground arith)

  returned_cloud :
      (r : Inited E Cloud) (warned : Bool) (cloud : Cloud)
      → check_cloud has_cluster_id config r ≡ returns warned cloud
      → (r ≡ inited cloud) × IsAdmitted has_cluster_id config cloud warned
  unfolding check_cloud
  returned_cloud (init_failed e) warned cloud h = absurd (ground arith)
  returned_cloud no_cloud warned cloud h = absurd (ground arith)
  returned_cloud init_exits warned cloud h = absurd (ground arith)
  returned_cloud (inited c) warned cloud h = elim (Bool-cases (has_cluster_id c)) [
    | inl tagged ↦
        let (silent, same) = same_return (rw tagged at h) in
        (ap inited same, inl (subst (λ x. has_cluster_id x ≡ true) same tagged, sym silent))
    | inr untagged ↦ elim (Bool-cases config.allow_untagged_cloud) [
      | inl allowed ↦
          let (loud, same) = same_return (rw (untagged, allowed) at h) in
          (
            ap inited same,
            inr (subst (λ x. has_cluster_id x ≡ false) same untagged, allowed, sym loud),
          )
      | inr strict ↦ absurd (ground arith)
    ]
  ]

  admits :
      (r : Inited E Cloud) (warned : Bool) (cloud : Cloud)
      → r ≡ inited cloud
      → IsAdmitted has_cluster_id config cloud warned
      → check_cloud has_cluster_id config r ≡ returns warned cloud
  unfolding check_cloud
  admits r warned cloud same (inl (tagged, silent)) = rw (same, tagged, silent) refl
  admits r warned cloud same (inr (untagged, allowed, loud)) =
      rw (same, untagged, allowed, loud) refl

  ended_untagged :
      (r : Inited E Cloud)
      → check_cloud has_cluster_id config r ≡ exits no_cluster_id
      → (cloud : Cloud) × (r ≡ inited cloud) × IsRefused has_cluster_id config cloud
  unfolding check_cloud
  ended_untagged (init_failed e) h = absurd (ground arith)
  ended_untagged no_cloud h = absurd (ground arith)
  ended_untagged init_exits h = absurd (ground arith)
  ended_untagged (inited c) h = (c, refl, (ground arith, ground arith))

  refuses :
      (r : Inited E Cloud) (cloud : Cloud)
      → r ≡ inited cloud
      → IsRefused has_cluster_id config cloud
      → check_cloud has_cluster_id config r ≡ exits no_cluster_id
  unfolding check_cloud
  refuses r cloud same (untagged, strict) = rw (same, untagged, strict) refl

-- The manager starts with a cloud exactly where InitCloudProvider gives that cloud for the name and the file of
-- the config, and the cloud has a ClusterID, or, with a warning and only then, has none where untagged clouds
-- are allowed; it ends the process for the want of a ClusterID exactly where InitCloudProvider gives a cloud
-- without one and untagged clouds are not allowed.
pub cloud_initializer-IsAdmitted :
    {E Cloud : Type 0} (has_cluster_id : Cloud → Bool)
    (init_cloud_provider : Text → Text → Inited E Cloud) (config : ManagerConfig) (warned : Bool)
    (cloud : Cloud)
    → ((cloud_initializer has_cluster_id init_cloud_provider config ≡ returns warned cloud) ↔ (
        (init_cloud_provider config.name config.cloud_config_file ≡ inited cloud)
        × IsAdmitted has_cluster_id config cloud warned))
      × ((cloud_initializer has_cluster_id init_cloud_provider config ≡ exits no_cluster_id) ↔ (
          (untagged : Cloud) × (init_cloud_provider config.name config.cloud_config_file
            ≡ inited untagged)
          × IsRefused has_cluster_id config untagged))
unfolding cloud_initializer
cloud_initializer-IsAdmitted has_cluster_id init config warned cloud =
    let r = init config.name config.cloud_config_file in
    (
      (
        returned_cloud has_cluster_id config r warned cloud,
        λ x. admits has_cluster_id config r warned cloud x.0 x.1,
      ),
      (
        ended_untagged has_cluster_id config r,
        λ x.
            let (untagged, given, refused) = x in
            refuses has_cluster_id config r untagged given refused,
      ),
    )
