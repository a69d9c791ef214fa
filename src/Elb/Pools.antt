-- ===== src/Elb/Pools.antt =====
-- desiredPersistence, persistenceEqual, ensurePool and findPoolForListener of pkg/elb/elb.go.
pub mod Timeout
pub mod Nil
pub mod Ensured
use cloud_provider_opentelek.Base.{
  ◌+◌, ◌-◌, ◌/◌, ◌%◌, ◌^◌, Bool, true, false, not, ◌&&◌, ◌||◌, Option, none, some, if◌then◌else◌,
  ◌==◌, ltb,
}
use cloud_provider_opentelek.Base.Int.{ℤ, pos, negsuc, int_eq}
use cloud_provider_opentelek.Text.{Text, codes, text_eq}
use cloud_provider_opentelek.Config.{is_empty}
use cloud_provider_opentelek.Kube.{
  Service, ServicePort, SessionAffinityConfig, ClientIpConfig, affinity_client_ip,
}
use cloud_provider_opentelek.Settings.{ServiceSettings}
use cloud_provider_opentelek.Cloud.{
  World, State, M, send, pure, throw, lift, modify, attempt, or_wrap, ◌>>=◌, ◌>>◌, Result, ok, err,
  panic, wrap, is_not_found, Reason, Call, Pool, Listener, SessionPersistence, PoolOpts, PoolUpdate,
}
use cloud_provider_opentelek.Elb.Names.{resource_name, description}
use cloud_provider_opentelek.Elb.Wait.{mutate}

-- `t + 59` in int32: it wraps round from 2 ^ 31.
unfoldable pub add_59 : ℤ → ℤ
add_59 (pos n) = if ltb (n + 59) (2 ^ 31) then pos (n + 59) else negsuc (2 ^ 32 - (n + 59) - 1)
add_59 (negsuc n) = if ltb n 59 then pos (58 - n) else negsuc (n - 59)

-- Go's division truncates towards zero.
unfoldable pub quot_60 : ℤ → ℤ
quot_60 (pos n) = pos (n / 60)
quot_60 (negsuc n) = if ltb n 59 then pos 0 else negsuc ((n + 1) / 60 - 1)

unfoldable pub clamp_minutes : ℤ → ℤ
clamp_minutes (negsuc _) = pos 1
clamp_minutes (pos n) = if ltb n 1 then pos 1 else if ltb 60 n then pos 60 else pos n

unfoldable pub timeout_minutes : ℤ → ℤ
unfolding add_59 quot_60 clamp_minutes
timeout_minutes t = clamp_minutes (quot_60 (add_59 t))

abbrev pub client_timeout : Option ClientIpConfig → Option ℤ
client_timeout none = none
client_timeout (some c) = c.timeout_seconds

abbrev pub config_timeout : Option SessionAffinityConfig → Option ℤ
config_timeout none = none
config_timeout (some c) = client_timeout c.client_ip

abbrev pub persistence_for : Option ℤ → SessionPersistence
persistence_for none = record { kind = codes "SOURCE_IP"; persistence_timeout = pos 0 }
persistence_for (some t) = record {
  kind = codes "SOURCE_IP";
  persistence_timeout = timeout_minutes t;
}

unfoldable pub desired_persistence : Service → Option SessionPersistence
desired_persistence service =
    if service.session_affinity == affinity_client_ip
    then some (persistence_for (config_timeout service.session_affinity_config))
    else none

unfoldable pub persistence_equal : Option SessionPersistence → Option SessionPersistence → Bool
persistence_equal none none = true
persistence_equal none (some _) = false
persistence_equal (some _) none = false
persistence_equal (some a) (some b) =
    a.kind == b.kind && a.persistence_timeout == b.persistence_timeout

abbrev pub is_set : Option SessionPersistence → Bool
is_set none = false
is_set (some _) = true

-- The test before the update of an existing pool.
unfoldable pub pool_differs : ServiceSettings → Option SessionPersistence → Pool → Bool
pool_differs settings persistence pool =
    not (pool.lb_method == settings.lb_algorithm)
    || is_set persistence && not (persistence_equal pool.persistence persistence)

abbrev pub deref : Option Pool → State → Result Pool × State
deref none s = (panic, s)
deref (some pool) s = (ok pool, s)

-- A read through the variable `pool`, which is a pointer.
unfoldable pub captured_pool : M Pool
captured_pool s = deref s.pool s

abbrev pub set_pool : Option Pool → M Unit
set_pool p = modify (λ s. record s { pool = p })

module _ (w : World) where
  -- `pool, err = ….Extract(); return err`
  unfoldable pub assign_pool : Result Pool → M Unit
  assign_pool (ok pool) = set_pool (some pool)
  assign_pool (err e) = modify (λ s. record s { pool = w.failed_pool s.calls }) >> throw e
  assign_pool panic = lift panic

  unfoldable pub update_pool : PoolUpdate → M Unit
  update_pool opts = do
    pool ← captured_pool
    reply ← attempt (send w (Call.update_pool pool.id opts))
    assign_pool reply

  -- What follows the update: the error message and the log read through `pool` too.
  unfoldable pub pool_updated : Result (Unit {0}) → M Pool
  pool_updated (ok _) = captured_pool
  pool_updated (err e) = do pool ← captured_pool; throw (wrap (Reason.update_pool pool.id) e)
  pool_updated panic = lift panic

  unfoldable pub create_pool : PoolOpts → M Unit
  create_pool opts = do reply ← attempt (send w (Call.create_pool opts)); assign_pool reply

  module _ (lb_id : Text) (listener : Listener) (name : Text) (settings : ServiceSettings)
      (service : Service) (port : ServicePort) where
    unfoldable pub reconcile_pool : Pool → M Pool
    reconcile_pool pool =
        let persistence = desired_persistence service in
        if pool_differs settings persistence pool
        then (do
          set_pool (some pool)
          done ← attempt (
              mutate w lb_id (
                update_pool
                  (record { lb_method = settings.lb_algorithm; persistence = persistence })))
          pool_updated done)
        else pure pool

    unfoldable pub new_pool : M Pool
    new_pool = do
      set_pool none
      or_wrap (Reason.create_pool listener.id) (
          mutate w lb_id (
            create_pool (record {
              listener_id = listener.id;
              name = resource_name name port;
              protocol = port.protocol;
              lb_method = settings.lb_algorithm;
              description = description service;
              persistence = desired_persistence service;
            })))
      captured_pool

    unfoldable pub ensure_pool : M Pool
    ensure_pool = if is_empty listener.default_pool_id then new_pool else do
      pool ←
          or_wrap (Reason.get_pool listener.default_pool_id)
            (send w (Call.get_pool listener.default_pool_id))
      reconcile_pool pool

  abbrev pub pool_or_none : Text → Result Pool → M (Option Pool)
  pool_or_none id (ok pool) = pure (some pool)
  pool_or_none id (err e) =
      if is_not_found e then pure none else throw (wrap (Reason.get_pool id) e)
  pool_or_none id panic = lift panic

  unfoldable pub find_pool_for_listener : Text → M (Option Pool)
  find_pool_for_listener listener_id = do
    listener ← or_wrap (Reason.get_listener listener_id) (send w (Call.get_listener listener_id))
    if is_empty listener.default_pool_id then pure none else do
      reply ← attempt (send w (Call.get_pool listener.default_pool_id))
      pool_or_none listener.default_pool_id reply
