-- ===== src/Elb/Listeners.antt =====
-- Listeners in pkg/elb/elb.go: createListener, deleteListener, listListeners.
pub mod Permits
pub mod Teardown
pub mod Cleared
pub mod Created
use cloud_provider_opentelek.Base.{List, [], ◌∷◌, Option, none, some, if◌then◌else◌}
use cloud_provider_opentelek.Text.{Text}
use cloud_provider_opentelek.Config.{is_empty}
use cloud_provider_opentelek.Kube.{ServicePort}
use cloud_provider_opentelek.Settings.{ServiceSettings}
use cloud_provider_opentelek.Cloud.{
  World, State, M, send, pure, throw, lift, modify, attempt, or_wrap, or_gone, ◌>>=◌, ◌>>◌, Reason,
  Call, Listener, Pool, Member, Result, ok, err, panic, ListenerUpdate, ListenerOpts, ignore,
}
use cloud_provider_opentelek.Elb.Names.{resource_name}
use cloud_provider_opentelek.Elb.Wait.{mutate}
use cloud_provider_opentelek.Elb.Members.{list_members}
use cloud_provider_opentelek.Elb.Pools.{find_pool_for_listener}
use cloud_provider_opentelek.Elb.Monitors.{delete_monitor}
use cloud_provider_opentelek.Elb.IpGroups.{delete_ip_group}

abbrev pub deref : Option Listener → State → Result Listener × State
deref none s = (panic, s)
deref (some listener) s = (ok listener, s)

-- `*created`: the variable `listener` is a pointer.
unfoldable pub captured_listener : M Listener
captured_listener s = deref s.listener s

abbrev pub set_listener : Option Listener → M Unit
set_listener l = modify (λ s. record s { listener = l })

-- `listener, err = ….Extract(); return err`. After an error nothing reads the variable before it is
-- assigned again.
unfoldable pub assign_listener : Result Listener → M Unit
assign_listener (ok listener) = set_listener (some listener)
assign_listener (err e) = set_listener none >> throw e
assign_listener panic = lift panic

module _ (w : World) where
  unfoldable pub list_listeners : Text → M (List Listener)
  list_listeners lb_id = do
    pages ← or_wrap (Reason.list_listeners lb_id) (send w (Call.list_listeners lb_id))
    lift pages

  module _ (lb_id : Text) where
    unfoldable pub update_idle_timeout : ServiceSettings → Listener → M Unit
    update_idle_timeout settings listener = or_wrap (Reason.update_listener listener.id) (
        mutate w lb_id (
          ignore (
            send w (
              Call.update_listener listener.id
                (ListenerUpdate.keep_alive_timeout settings.idle_timeout)))))

    unfoldable pub delete_pool_monitor : Pool → M Unit
    delete_pool_monitor pool =
        if is_empty pool.monitor_id
        then pure tt
        else delete_monitor w lb_id (Reason.delete_monitor pool.monitor_id) pool.monitor_id

    unfoldable pub delete_members : Text → List Member → M Unit
    delete_members pool_id [] = pure tt
    delete_members pool_id (m ∷ members) = do
      or_gone (Reason.delete_member m.id)
          (mutate w lb_id (send w (Call.delete_member pool_id m.id)))
      delete_members pool_id members

    -- The part of deleteListener under `if pool != nil`.
    unfoldable pub delete_pool : Option Pool → M Unit
    delete_pool none = pure tt
    delete_pool (some pool) = do
      delete_pool_monitor pool
      existing ← list_members w pool.id
      delete_members pool.id existing
      or_gone (Reason.delete_pool pool.id) (mutate w lb_id (send w (Call.delete_pool pool.id)))

  module _ (lb_id name : Text) where
    abbrev pub listener_opts : ServiceSettings → ServicePort → ListenerOpts
    listener_opts settings port = record {
      load_balancer_id = lb_id;
      name = resource_name name port;
      protocol = port.protocol;
      protocol_port = port.port;
      keep_alive_timeout = settings.idle_timeout;
    }

    unfoldable pub create_listener : ServiceSettings → ServicePort → M Listener
    create_listener settings port = do
      set_listener none
      or_wrap (Reason.create_listener port.port) (
          mutate w lb_id (do
            reply ← attempt (send w (Call.create_listener (listener_opts settings port)))
            assign_listener reply))
      captured_listener

    unfoldable pub delete_listener : Listener → M Unit
    delete_listener listener = do
      pool ← find_pool_for_listener w listener.id
      delete_pool lb_id pool
      or_gone (Reason.delete_listener listener.id)
          (mutate w lb_id (send w (Call.delete_listener listener.id)))
      delete_ip_group w lb_id name listener.ip_group.ip_group_id
