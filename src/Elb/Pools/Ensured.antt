-- ===== src/Elb/Pools/Ensured.antt =====
-- Where the pool that ensurePool returns comes from.
pub mod Whole
use cloud_provider_opentelek.Base.{◌≡◌, ◌∙◌, true, false, List, ◌∷◌, some, arith}
use cloud_provider_opentelek.Text.{Text}
use cloud_provider_opentelek.Config.{is_empty}
use cloud_provider_opentelek.Kube.{Service, ServicePort}
use cloud_provider_opentelek.Settings.{ServiceSettings}
use cloud_provider_opentelek.Cloud.{World, Call, Listener, Pool, PoolOpts, PoolUpdate, ◌>>=◌}
use cloud_provider_opentelek.Cloud.Exec.Ends.{Lasts}
use cloud_provider_opentelek.Cloud.Exec.Answers.{Answered, Answered-Extends}
use cloud_provider_opentelek.Elb.Names.{resource_name, description}
use cloud_provider_opentelek.Elb.Pools.{pool_differs, desired_persistence, update_pool, create_pool}

module _ (w : World) where
  -- The update's id is that of the pool that was read, unless the SDK returned another pool beside an
  -- error.
  pub data UpdatedId (q : Pool) (id : Text) : Type 0 where
    read : id ≡ q.id → UpdatedId q id
    stray : (h : List Call) (x : Pool) → w.failed_pool h ≡ some x → id ≡ x.id → UpdatedId q id

  module _ (listener : Listener) (name : Text) (settings : ServiceSettings) (service : Service)
      (port : ServicePort) where
    abbrev pub wanted_pool : PoolOpts
    wanted_pool = record {
      listener_id = listener.id;
      name = resource_name name port;
      protocol = port.protocol;
      lb_method = settings.lb_algorithm;
      description = description service;
      persistence = desired_persistence service;
    }

    abbrev pub wanted_update : PoolUpdate
    wanted_update = record {
      lb_method = settings.lb_algorithm;
      persistence = desired_persistence service;
    }

    -- The listener's pool was read and needs no change, was updated, or was created for the listener.
    pub data Ensured (p : Pool) (h : List Call) : Type 0 where
      kept :
          is_empty listener.default_pool_id ≡ false
          → Answered w (Call.get_pool listener.default_pool_id) p h
          → pool_differs settings (desired_persistence service) p ≡ false
          → Ensured p h
      updated :
          (q : Pool) (id : Text)
          → is_empty listener.default_pool_id ≡ false
          → Answered w (Call.get_pool listener.default_pool_id) q h
          → UpdatedId q id
          → Answered w (Call.update_pool id wanted_update) p h
          → Ensured p h
      created :
          is_empty listener.default_pool_id ≡ true
          → Answered w (Call.create_pool wanted_pool) p h
          → Ensured p h

pub Ensured-Lasts :
    (w : World) (listener : Listener) (name : Text) (settings : ServiceSettings) (service : Service)
    (port : ServicePort) (p : Pool)
    → Lasts (Ensured w listener name settings service port p)
Ensured-Lasts w listener name settings service port p h h' e (kept set seen same_pool) =
    kept set (Answered-Extends _ _ e seen) same_pool
Ensured-Lasts w listener name settings service port p h h' e (updated q id set seen same_id sent) =
    updated q id set (Answered-Extends _ _ e seen) same_id (Answered-Extends _ _ e sent)
Ensured-Lasts w listener name settings service port p h h' e (created none_set made) =
    created none_set (Answered-Extends _ _ e made)
